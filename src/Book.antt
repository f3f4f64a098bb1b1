-- ===== src/Book.antt =====
-- src/book/order_book.hpp: the book of one instrument. Each side is two arrays of `max_depth`.
pub mod Laws
use mm_engine.Base.{
  ℕ, zero, suc, ◌+◌, ◌-◌, ◌%◌, ◌^◌, Bool, List, ◌&&◌, ltb, u16, if◌then◌else◌, get_or, replicate,
}
use mm_engine.Base.Int.{ℤ, pos, negsuc, ltb_ℤ}
use mm_engine.Double.{Double}
use mm_engine.Events.{MdEvent, max_depth}

pub record OrderBook (W : Type 0) : Type 0 where
  pub bid_px : List W
  pub bid_qty : List W
  pub ask_px : List W
  pub ask_qty : List W
  pub n_bids : ℕ
  pub n_asks : ℕ
  pub last_update_ns : ℤ
  pub seq : ℕ

-- `uint16_t(i)` for an `int`
abbrev pub to_u16 : ℤ → ℕ
to_u16 (pos n) = u16 n
to_u16 (negsuc n) = (2 ^ 16 - 1) - n % 2 ^ 16

-- `n > max_depth ? uint16_t(max_depth) : n`
abbrev pub clip : ℕ → ℤ → ℕ
clip n depth = if ltb_ℤ depth (pos n) then to_u16 depth else n

module _ {W : Type 0} where
  unfoldable pub apply_snapshot : OrderBook W → MdEvent W → ℤ → OrderBook W
  apply_snapshot b e depth = record {
    bid_px = e.bid_px;
    bid_qty = e.bid_qty;
    ask_px = e.ask_px;
    ask_qty = e.ask_qty;
    n_bids = clip e.n_bids depth;
    n_asks = clip e.n_asks depth;
    last_update_ns = e.t_recv_ns;
    seq = e.seq;
  }

  unfoldable pub has_bba : OrderBook W → Bool
  has_bba b = ltb 0 b.n_bids && ltb 0 b.n_asks

module _ {W : Type 0} ⦃d : Double W⦄ where
  open d use {nought, half, add, sub, mul, div, lt}

  -- A book before its first snapshot.
  abbrev pub fresh_book : OrderBook W
  fresh_book = record {
    bid_px = replicate max_depth nought;
    bid_qty = replicate max_depth nought;
    ask_px = replicate max_depth nought;
    ask_qty = replicate max_depth nought;
    n_bids = 0;
    n_asks = 0;
    last_update_ns = pos 0;
    seq = 0;
  }

  -- The arrays hold `max_depth` numbers, so the index is in range.
  abbrev pub level : List W → ℕ → W
  level px i = get_or px i nought

  unfoldable pub best_bid : OrderBook W → W
  best_bid b = level b.bid_px 0

  unfoldable pub best_ask : OrderBook W → W
  best_ask b = level b.ask_px 0

  unfoldable pub spread : OrderBook W → W
  spread b = sub (level b.ask_px 0) (level b.bid_px 0)

  unfoldable pub mid : OrderBook W → W
  mid b = mul half (add (level b.ask_px 0) (level b.bid_px 0))

  -- The scalar loop, from level `i` on with `left` levels to go.
  unfoldable pub scalar_sums : (left i : ℕ) → OrderBook W → W × W → W × W
  scalar_sums zero i b sums = sums
  scalar_sums (suc left) i b (sum_pq, sum_q) = scalar_sums left (i + 1) b (
    add sum_pq (
        add (mul (level b.bid_px i) (level b.bid_qty i))
          (mul (level b.ask_px i) (level b.ask_qty i))),
    add sum_q (add (level b.bid_qty i) (level b.ask_qty i)),
  )

  -- One lane of the AVX2 code; the fused multiply-add is given as `fma a b c`.
  abbrev pub lane_pq : (fma : W → W → W → W) → OrderBook W → ℕ → W
  lane_pq fma b i =
      fma (level b.ask_px i) (level b.ask_qty i) (fma (level b.bid_px i) (level b.bid_qty i) nought)

  abbrev pub lane_q : OrderBook W → ℕ → W
  lane_q b i = add nought (add (level b.bid_qty i) (level b.ask_qty i))

  -- The four lanes, and the fifth level in scalar code.
  unfoldable pub avx2_sums : (fma : W → W → W → W) → OrderBook W → W × W
  avx2_sums fma b = (
    add
        (add
          (add (add (add (lane_pq fma b 0) (lane_pq fma b 1)) (lane_pq fma b 2)) (lane_pq fma b 3))
          (mul (level b.bid_px 4) (level b.bid_qty 4)))
        (mul (level b.ask_px 4) (level b.ask_qty 4)),
    add
        (add (add (add (add (lane_q b 0) (lane_q b 1)) (lane_q b 2)) (lane_q b 3))
          (level b.bid_qty 4))
        (level b.ask_qty 4),
  )

  abbrev pub weighted : OrderBook W → W × W → W
  weighted b (sum_pq, sum_q) = if lt nought sum_q then div sum_pq sum_q else mid b

  -- `vwap` as compiled without and with AVX2.
  unfoldable pub vwap : OrderBook W → W
  vwap b = weighted b (scalar_sums max_depth 0 b (nought, nought))

  unfoldable pub vwap_avx2 : (fma : W → W → W → W) → OrderBook W → W
  vwap_avx2 fma b = weighted b (avx2_sums fma b)
