-- ===== src/Strategy.antt =====
-- src/strategy/market_maker.hpp: the strategy thread. A function returns the new state, and `none`
-- where the source would access an array outside its bounds. The clock's readings are arguments.
pub mod Loop
pub mod View
pub mod Ids
pub mod Working
pub mod Stuck
pub mod Refine
pub mod Frame
pub mod Steps
pub mod Rounds
pub mod Threads
pub mod Decide
pub mod Total
pub mod Listed
pub mod Fills
use mm_engine.Base.{
  ℕ, ◌+◌, Bool, Option, some, List, if◌then◌else◌, u64, get_elem?, set, replicate, ◌>>=◌,
}
use mm_engine.Base.Int.{ℤ}
use mm_engine.Double.{Double}
use mm_engine.Events.{
  MdEvent, OrderCmd, OrdCmdType, OrdSide, ExecEvent, LogRecord, LogKind, BookSnapshot,
}
use mm_engine.Config.{EngineConfig}
use mm_engine.Ring.{Ring, try_push, size_approx}
use mm_engine.Book.{OrderBook}
use mm_engine.Metrics.{Metrics, track_max}
use mm_engine.Oms.{Quote, QuoteState, Row, OrderManager, quote_of, put_quote}

-- The exponents of the rings' capacities.
abbrev pub md_bits : ℕ
md_bits = 14

abbrev pub exec_bits : ℕ
exec_bits = 12

abbrev pub ord_bits : ℕ
ord_bits = 12

abbrev pub log_bits : ℕ
log_bits = 14

abbrev pub store_bits : ℕ
store_bits = 12

-- The strategy's own state, the rings at its ends, and the rings of the logger and the persister.
pub record MarketMaker (W : Type 0) : Type 0 where
  pub md : Ring (MdEvent W)
  pub exec : Ring (ExecEvent W)
  pub out : Ring (OrderCmd W)
  pub log : Ring (LogRecord W)
  pub snaps : Ring (BookSnapshot W)
  pub trades : Ring (ExecEvent W)
  pub oms : OrderManager W
  pub books : List (OrderBook W)
  pub cl_ord_seed : ℕ
  pub next_snapshot_ns : ℤ
  pub metrics : Metrics

-- The clock's readings in one round of the loop.
pub record Readings : Type 0 where
  pub t_deq : ℤ
  pub t_book : ℤ
  pub t_buy : ℤ
  pub t_sell : ℤ

module _ {W : Type 0} where
  -- `AsyncLogger::log`
  unfoldable pub log_record : MarketMaker W → LogRecord W → MarketMaker W
  log_record m r =
      let ring = (try_push log_bits m.log r).1 in
      record m {
        log = ring;
        metrics = record m.metrics {
          log_queue_max = track_max m.metrics.log_queue_max (size_approx ring);
        };
      }

  -- `next_cl_ord_id` returns the seed and moves it on.
  abbrev pub next_seed : MarketMaker W → MarketMaker W
  next_seed m = record m { cl_ord_seed = u64 (m.cl_ord_seed + 1) }

module _ {W : Type 0} ⦃d : Double W⦄ (cfg : EngineConfig W) where
  open d use {nought, half, add, sub, mul, fabs, lt, le}

  abbrev pub cancel_cmd : Quote W → (sym : ℕ) → OrdSide → (id : ℕ) → (t_md now : ℤ) → OrderCmd W
  cancel_cmd q sym side id t_md now = record {
    type = OrdCmdType.cancel;
    side = side;
    symbol_id = sym;
    price = nought;
    qty = q.qty;
    cl_ord_id = id;
    orig_cl_ord_id = q.cl_ord_id;
    t_md_ns = t_md;
    t_decided_ns = now;
  }

  abbrev pub new_cmd : (px : W) → (sym : ℕ) → OrdSide → (id : ℕ) → (t_md now : ℤ) → OrderCmd W
  new_cmd px sym side id t_md now = record {
    type = OrdCmdType.new;
    side = side;
    symbol_id = sym;
    price = px;
    qty = cfg.order_qty;
    cl_ord_id = id;
    orig_cl_ord_id = 0;
    t_md_ns = t_md;
    t_decided_ns = now;
  }

  abbrev pub order_log : LogKind → OrdSide → ℕ → W → W → ℕ → ℤ → LogRecord W
  order_log kind side sym px qty id now = record {
    t_ns = now;
    kind = kind;
    side = side;
    symbol_id = sym;
    px = px;
    qty = qty;
    cl_ord_id = id;
    text = replicate 48 0;
  }

  -- The end of `cancel_side`, for a live quote.
  unfoldable pub send_cancel :
      MarketMaker W → Row W → (sym : ℕ) → OrdSide → (t_md now : ℤ) → MarketMaker W
  send_cancel m row sym side t_md now =
      let q = quote_of row side in
      let sent = try_push ord_bits m.out (cancel_cmd q sym side m.cl_ord_seed t_md now) in
      let m' = next_seed m in
      if cfg.dry_run
      then m'
      else (if sent.0
          then log_record
              (record m' {
                out = sent.1;
                oms =
                    set m.oms sym
                      (put_quote row side (record q { state = QuoteState.pending_cancel }));
              })
              (order_log LogKind.order_cxl side sym q.price q.qty q.cl_ord_id now)
          else record m' { out = sent.1 })

  -- The end of `requote`, for a quote that does not exist.
  unfoldable pub send_new :
      MarketMaker W → Row W → (sym : ℕ) → OrdSide → (px : W) → (t_md now : ℤ) → MarketMaker W
  send_new m row sym side px t_md now =
      let q = quote_of row side in
      let sent = try_push ord_bits m.out (new_cmd px sym side m.cl_ord_seed t_md now) in
      let m' = next_seed m in
      if cfg.dry_run
      then m'
      else (if sent.0
          then log_record
              (record m' {
                out = sent.1;
                oms = set m.oms sym (
                    put_quote row side (record q {
                      state = QuoteState.pending_new;
                      cl_ord_id = m.cl_ord_seed;
                      price = px;
                      qty = cfg.order_qty;
                    }));
                metrics = record m.metrics {
                  ord_queue_max = track_max m.metrics.ord_queue_max (size_approx sent.1);
                };
              })
              (order_log LogKind.order_new side sym px cfg.order_qty m.cl_ord_seed now)
          else record m' { out = sent.1 })

  unfoldable pub cancel_row :
      QuoteState → MarketMaker W → Row W → (sym : ℕ) → OrdSide → (t_md now : ℤ) → MarketMaker W
  cancel_row QuoteState.live m row sym side t_md now = send_cancel m row sym side t_md now
  cancel_row _ m row sym side t_md now = m

  unfoldable pub cancel_side :
      MarketMaker W → (sym : ℕ) → OrdSide → (t_md now : ℤ) → Option (MarketMaker W)
  unfolding cancel_row
  cancel_side m sym side t_md now = do
    row ← get_elem? m.oms sym
    some (cancel_row (quote_of row side).state m row sym side t_md now)

  -- `std::fabs(q.price - px) < cfg_.tick_size * 0.5`
  abbrev pub already_there : Quote W → W → Bool
  already_there q px = lt (fabs (sub q.price px)) (mul cfg.tick_size half)

  unfoldable pub requote_row :
      QuoteState
      → MarketMaker W
      → Row W
      → (sym : ℕ) → OrdSide
      → (px : W) → (t_md now : ℤ) → MarketMaker W
  requote_row QuoteState.pending_new m row sym side px t_md now = m
  requote_row QuoteState.pending_cancel m row sym side px t_md now = m
  requote_row QuoteState.live m row sym side px t_md now =
      if already_there (quote_of row side) px
      then m
      else cancel_row QuoteState.live m row sym side t_md now
  requote_row QuoteState.none_yet m row sym side px t_md now = send_new m row sym side px t_md now

  unfoldable pub requote :
      MarketMaker W → (sym : ℕ) → OrdSide → (px : W) → (t_md now : ℤ) → Option (MarketMaker W)
  unfolding requote_row cancel_row
  requote m sym side px t_md now = do
    row ← get_elem? m.oms sym
    some (requote_row (quote_of row side).state m row sym side px t_md now)
