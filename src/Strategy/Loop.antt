-- ===== src/Strategy/Loop.antt =====
-- src/strategy/market_maker.hpp: the decision on a snapshot, and the rounds of `run`.
use mm_engine.Base.{
  ℕ, zero, suc, ◌+◌, ◌*◌, ◌/◌, Bool, true, false, Option, none, some, List, [], ◌∷◌, ◌==◌, ◌&&◌,
  ◌>>=◌, if◌then◌else◌, u64, get_elem?, set, replicate,
}
use mm_engine.Base.Int.{ℤ, pos, ◌-ℤ◌, ◌+ℤ◌, ◌*ℤ◌, ltb_ℤ}
use mm_engine.Double.{Double}
use mm_engine.Events.{
  max_symbols, MdEvent, OrderCmd, buy, sell, ExecEvent, ExecKind, LogRecord, LogKind, BookSnapshot,
}
use mm_engine.Config.{EngineConfig}
use mm_engine.Ring.{Ring, try_push, try_pop}
use mm_engine.Book.{OrderBook, fresh_book, apply_snapshot, has_bba, best_bid, best_ask, spread}
use mm_engine.Histogram.{record_latency}
use mm_engine.Metrics.{Metrics}
use mm_engine.Oms.{free_quote, on_exec}
use mm_engine.Strategy.{
  MarketMaker, Readings, md_bits, exec_bits, store_bits, log_record, requote, cancel_side,
}

-- A fill, whole or partial, goes to the trade history and the log.
abbrev pub is_fill : ExecKind → Bool
is_fill ExecKind.filled = true
is_fill ExecKind.part_fill = true
is_fill _ = false

module _ {W : Type 0} where
  abbrev pub fill_log : ExecEvent W → LogRecord W
  fill_log e = record {
    t_ns = e.t_recv_ns;
    kind = LogKind.exec;
    side = e.side;
    symbol_id = e.symbol_id;
    px = e.last_px;
    qty = e.last_qty;
    cl_ord_id = e.cl_ord_id;
    text = replicate 48 0;
  }

  unfoldable pub note_fill : MarketMaker W → ExecEvent W → MarketMaker W
  note_fill m e =
      if is_fill e.kind
      then log_record (record m { trades = (try_push store_bits m.trades e).1 }) (fill_log e)
      else m

  abbrev pub snapshot_of : ℤ → ℕ → OrderBook W → BookSnapshot W
  snapshot_of t s b = record {
    t_ns = t;
    symbol_id = s;
    n_bids = b.n_bids;
    n_asks = b.n_asks;
    bid_px = b.bid_px;
    bid_qty = b.bid_qty;
    ask_px = b.ask_px;
    ask_qty = b.ask_qty;
  }

  -- The loop of `push_snapshots` over the books from symbol `s` on; a book with no level is passed
  -- over.
  unfoldable pub push_books :
      ℤ → ℕ → List (OrderBook W) → Ring (BookSnapshot W) → Ring (BookSnapshot W)
  push_books t s [] ring = ring
  push_books t s (b ∷ bs) ring = push_books t (s + 1) bs (
      if (b.n_bids == 0) && (b.n_asks == 0)
      then ring
      else (try_push store_bits ring (snapshot_of t s b)).1)

  unfoldable pub push_snapshots : MarketMaker W → ℤ → MarketMaker W
  push_snapshots m t = record m { snaps = push_books t 0 m.books m.snaps }

module _ {W : Type 0} ⦃d : Double W⦄ where
  -- The constructor and the start of `run`, at readings of the clock that are not negative.
  unfoldable pub market_maker :
      Ring (MdEvent W)
      → Ring (ExecEvent W)
      → Ring (OrderCmd W)
      → Ring (LogRecord W)
      → Ring (BookSnapshot W)
      → Ring (ExecEvent W)
      → Metrics
      → (made started : ℕ) → MarketMaker W
  market_maker md exec out log snaps trades metrics made started = record {
    md = md;
    exec = exec;
    out = out;
    log = log;
    snaps = snaps;
    trades = trades;
    oms = replicate max_symbols (record { bid = free_quote; ask = free_quote });
    books = replicate max_symbols fresh_book;
    cl_ord_seed = u64 (made / 1000000 * 1000);
    next_snapshot_ns = pos started;
    metrics = metrics;
  }

  -- One round of the inner loop on the report `e`.
  unfoldable pub take_report : MarketMaker W → ExecEvent W → Option (MarketMaker W)
  take_report m e = do oms ← on_exec m.oms e; some (note_fill (record m { oms = oms }) e)

  -- The body of the inner loop on what the pop gave, and then the rest of the loop.
  abbrev pub take_next :
      Option (ExecEvent W)
      → MarketMaker W
      → (MarketMaker W → Option (MarketMaker W))
      → Option (MarketMaker W)
  take_next none m rest = some m
  take_next (some e) m rest = take_report m e >>= rest

  -- The inner loop, for at most `fuel` reports.
  unfoldable pub drain : (fuel : ℕ) → MarketMaker W → Option (MarketMaker W)
  drain zero m = some m
  drain (suc fuel) m =
      let (out, ring) = try_pop exec_bits m.exec in
      take_next out (record m { exec = ring }) (drain fuel)

module _ {W : Type 0} ⦃d : Double W⦄ (cfg : EngineConfig W) where
  open d use {half, add, sub, mul, lt, le}

  abbrev pub our_bid : OrderBook W → W
  our_bid ob = add (best_bid ob) cfg.tick_size

  abbrev pub our_ask : OrderBook W → W
  our_ask ob = sub (best_ask ob) cfg.tick_size

  -- `spread >= cfg_.minimum_spread`
  abbrev pub is_wide : OrderBook W → Bool
  is_wide ob = le cfg.minimum_spread (spread ob)

  -- `ask - bid < cfg_.tick_size * 0.5`
  abbrev pub would_cross : OrderBook W → Bool
  would_cross ob = lt (sub (our_ask ob) (our_bid ob)) (mul cfg.tick_size half)

  unfoldable pub decide :
      MarketMaker W → (sym : ℕ) → OrderBook W → (t_md t_buy t_sell : ℤ) → Option (MarketMaker W)
  decide m sym ob t_md t_buy t_sell =
      if is_wide ob
      then (if would_cross ob
          then some m
          else (requote cfg m sym buy (our_bid ob) t_md t_buy >>= λ m'.
              requote cfg m' sym sell (our_ask ob) t_md t_sell))
      else (cancel_side cfg m sym buy t_md t_buy >>= λ m'. cancel_side cfg m' sym sell t_md t_sell)

  -- `snap_every`
  abbrev pub snap_every : ℤ
  snap_every = cfg.snapshot_interval_ms *ℤ pos 1000000

  unfoldable pub snapshot_due : MarketMaker W → ℤ → MarketMaker W
  snapshot_due m t_deq =
      if ltb_ℤ t_deq m.next_snapshot_ns
      then m
      else push_snapshots (record m { next_snapshot_ns = t_deq +ℤ snap_every }) t_deq

  -- The book in its place, and the latencies of the queue and of the book's update.
  abbrev pub booked : MarketMaker W → MdEvent W → OrderBook W → Readings → MarketMaker W
  booked m ev ob now = record m {
    books = set m.books ev.symbol_id ob;
    metrics = record m.metrics {
      queue_wait = record_latency m.metrics.queue_wait (now.t_deq -ℤ ev.t_recv_ns);
      md_processing = record_latency m.metrics.md_processing (now.t_book -ℤ ev.t_recv_ns);
    };
  }

  -- `if (ob.has_bba()) decide(…)`
  abbrev pub react : MarketMaker W → MdEvent W → OrderBook W → Readings → Option (MarketMaker W)
  react m ev ob now =
      if has_bba ob then decide m ev.symbol_id ob ev.t_recv_ns now.t_buy now.t_sell else some m

  -- The body of `if (md_.try_pop(ev))`.
  unfoldable pub take_snapshot : MarketMaker W → MdEvent W → Readings → Option (MarketMaker W)
  take_snapshot m ev now = do
    old ← get_elem? m.books ev.symbol_id
    let ob = apply_snapshot old ev cfg.book_depth
    decided ← react (booked m ev ob now) ev ob now
    some (snapshot_due decided now.t_deq)

  abbrev pub take_event : Option (MdEvent W) → MarketMaker W → Readings → Option (MarketMaker W)
  take_event none m now = some m
  take_event (some ev) m now = take_snapshot m ev now

  -- One round of the loop of `run`, with fuel for the reports; `pause` is left out.
  unfoldable pub round : (fuel : ℕ) → MarketMaker W → Readings → Option (MarketMaker W)
  round fuel m now = do
    m' ← drain fuel m
    let (out, ring) = try_pop md_bits m'.md
    take_event out (record m' { md = ring }) now
