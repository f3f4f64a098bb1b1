-- ===== src/Tests/Data.antt =====
-- The settings, messages and threads that the tests use.
use mm_engine.Base.{ℕ, false, List, [], ◌∷◌, replicate}
use mm_engine.Base.Int.{ℤ, pos}
use mm_engine.Double.Fixed.{thousandths}
use mm_engine.Config.{EngineConfig}
use mm_engine.Events.{
  MdEvent, ExecEvent, ExecKind, OrderCmd, OrdCmdType, unset, buy, LogRecord, LogKind, BookSnapshot,
}
use mm_engine.Book.{OrderBook}
use mm_engine.Histogram.{empty_histogram}
use mm_engine.Metrics.{Metrics}
use mm_engine.Ring.{empty}
use mm_engine.Strategy.{MarketMaker, Readings}
use mm_engine.Strategy.Loop.{market_maker}

-- A spread of at least 5.000, a tick of 1.000 and ten contracts; "GG" and "YPF".
abbrev pub gg : List ℕ
gg = 71 ∷ 71 ∷ []

abbrev pub ypf : List ℕ
ypf = 89 ∷ 80 ∷ 70 ∷ []

abbrev pub settings : EngineConfig ℤ
settings = record {
  minimum_spread = pos 5000;
  order_spread = pos 2000;
  tick_size = pos 1000;
  order_qty = pos 10000;
  book_depth = pos 5;
  account = [];
  sender = [];
  fix_cfg = [];
  symbols_file = [];
  strategy_core = pos 0;
  fix_core = pos 0;
  metrics_port = pos 9090;
  lmdb_path = [];
  snapshot_interval_ms = pos 1000;
  dry_run = false;
  symbols = gg ∷ ypf ∷ [];
}

abbrev pub no_metrics : Metrics
no_metrics = record {
  md_processing = empty_histogram;
  tick_to_trade = empty_histogram;
  queue_wait = empty_histogram;
  md_msgs_total = 0;
  md_dropped_total = 0;
  orders_sent_total = 0;
  cancels_sent_total = 0;
  execs_total = 0;
  md_queue_max = 0;
  ord_queue_max = 0;
  log_queue_max = 0;
}

-- Two levels on each side, 100 and 99 against 110 and 111.
abbrev pub quote_event : MdEvent ℤ
quote_event = record {
  t_recv_ns = pos 100;
  symbol_id = 0;
  n_bids = 2;
  n_asks = 2;
  bid_px = pos 100000 ∷ pos 99000 ∷ replicate 3 (pos 0);
  bid_qty = pos 5000 ∷ pos 7000 ∷ replicate 3 (pos 0);
  ask_px = pos 110000 ∷ pos 111000 ∷ replicate 3 (pos 0);
  ask_qty = pos 4000 ∷ pos 2000 ∷ replicate 3 (pos 0);
  last_px = pos 0;
  seq = 1;
}

abbrev pub quote_book : OrderBook ℤ
quote_book = record {
  bid_px = quote_event.bid_px;
  bid_qty = quote_event.bid_qty;
  ask_px = quote_event.ask_px;
  ask_qty = quote_event.ask_qty;
  n_bids = 2;
  n_asks = 2;
  last_update_ns = pos 100;
  seq = 1;
}

abbrev pub a_report : ExecEvent ℤ
a_report = record {
  t_recv_ns = pos 0;
  cl_ord_id = 7;
  kind = ExecKind.new;
  side = buy;
  symbol_id = 0;
  last_px = pos 0;
  last_qty = pos 0;
  leaves_qty = pos 0;
  order_id = [];
}

abbrev pub a_command : OrderCmd ℤ
a_command = record {
  type = OrdCmdType.new;
  side = buy;
  symbol_id = 1;
  price = pos 101000;
  qty = pos 10000;
  cl_ord_id = 7000;
  orig_cl_ord_id = 0;
  t_md_ns = pos 100;
  t_decided_ns = pos 200;
}

abbrev pub a_record : LogRecord ℤ
a_record = record {
  t_ns = pos 0;
  kind = LogKind.info;
  side = unset;
  symbol_id = 0;
  px = pos 0;
  qty = pos 0;
  cl_ord_id = 0;
  text = [];
}

abbrev pub a_snapshot : BookSnapshot ℤ
a_snapshot = record {
  t_ns = pos 0;
  symbol_id = 0;
  n_bids = 0;
  n_asks = 0;
  bid_px = [];
  bid_qty = [];
  ask_px = [];
  ask_qty = [];
}

abbrev pub maker : MarketMaker ℤ
maker =
    market_maker (empty 14 quote_event) (empty 12 a_report) (empty 12 a_command) (empty 14 a_record)
      (empty 12 a_snapshot) (empty 12 a_report) no_metrics 7000000 7000001

abbrev pub readings : Readings
readings = record { t_deq = pos 150; t_book = pos 160; t_buy = pos 170; t_sell = pos 180 }
