-- ===== src/Book/Laws.antt =====
-- src/book/order_book.hpp: the levels a snapshot leaves, and the two compilations of `vwap`.
use mm_engine.Base.{
  ℕ, zero, suc, ◌^◌, ◌≤◌, ◌<◌, min, ◌≡◌, refl, ◌∙◌, ap, List, [], ◌∷◌, take, arith,
}
use mm_engine.Base.Int.{pos}
use mathlib.Core.Path.{ap₂}
use mm_engine.Double.{Double, IsExactSum}
use mm_engine.Events.{MdEvent, max_depth}
use mm_engine.Book.{
  OrderBook, clip, apply_snapshot, level, scalar_sums, lane_pq, lane_q, avx2_sums, vwap, vwap_avx2,
  weighted,
}

clip_lem : (n depth : ℕ) → depth < 2 ^ 16 → clip n (pos depth) ≡ min n depth
clip_lem n depth h = ground arith

-- The levels of one side, each a price with its quantity, in order.
abbrev pub levels : {W : Type 0} → List W → List W → List (W × W)
levels [] qty = []
levels (p ∷ px) [] = []
levels (p ∷ px) (q ∷ qty) = (p, q) ∷ levels px qty

take_nil : {A : Type 0} (n : ℕ) → take {A = A} n [] ≡ []
take_nil zero = refl
take_nil (suc n) = refl

take-min : {A : Type 0} (n depth : ℕ) (xs : List A) → take (min n depth) xs ≡ take depth (take n xs)
take-min {A = A} zero depth xs =
    let least : min 0 depth ≡ 0 = omega arith in rw (least, take_nil {A = A} depth) refl
take-min (suc n) zero xs = let least : min (suc n) 0 ≡ 0 = omega arith in rw least refl
take-min (suc n) (suc depth) [] =
    let least : min (suc n) (suc depth) ≡ suc (min n depth) = omega arith in rw least refl
take-min (suc n) (suc depth) (x ∷ xs) =
    let least : min (suc n) (suc depth) ≡ suc (min n depth) = omega arith in
    rw (least, take-min n depth xs) refl

-- With a depth of at most five in the settings, the levels that count on each side of the book after
-- a snapshot are the first ones of the message, as many as the depth allows, each price with its
-- quantity and in the message's order, whatever the book held before, and they lie inside the
-- arrays.
pub apply_snapshot-levels :
    {W : Type 0} (b : OrderBook W) (e : MdEvent W) (depth : ℕ)
    → depth ≤ max_depth
    → let ob = apply_snapshot b e (pos depth) in
      (take ob.n_bids (levels ob.bid_px ob.bid_qty)
        ≡ take depth (take e.n_bids (levels e.bid_px e.bid_qty)))
      × (take ob.n_asks (levels ob.ask_px ob.ask_qty)
          ≡ take depth (take e.n_asks (levels e.ask_px e.ask_qty)))
      × (ob.n_bids ≤ max_depth)
      × (ob.n_asks ≤ max_depth)
unfolding apply_snapshot
apply_snapshot-levels b e depth h =
    let bids = clip_lem e.n_bids depth (omega arith) in
    let asks = clip_lem e.n_asks depth (omega arith) in
    (
      ap (λ n. take n (levels e.bid_px e.bid_qty)) bids ∙ take-min e.n_bids depth _,
      ap (λ n. take n (levels e.ask_px e.ask_qty)) asks ∙ take-min e.n_asks depth _,
      omega (arith, bids),
      omega (arith, asks),
    )

module _ {W : Type 0} ⦃d : Double W⦄ (exact : IsExactSum W) where
  open d use {nought, add, mul}
  open exact use {add_comm, add_assoc, nought_add}

  add_nought : (a : W) → add a nought ≡ a
  add_nought a = rw (add_comm a nought, nought_add a)

  -- Four lanes, and the two halves of the fifth level.
  five_levels :
      (x₀ x₁ x₂ x₃ a b : W)
      → add (add (add (add (add x₀ x₁) x₂) x₃) a) b
        ≡ add (add (add (add (add nought x₀) x₁) x₂) x₃) (add a b)
  five_levels x₀ x₁ x₂ x₃ a b = rw (nought_add x₀, add_assoc (add (add (add x₀ x₁) x₂) x₃) a b) refl

  lanes :
      {x₀ x₁ x₂ x₃ y₀ y₁ y₂ y₃ : W} (a b : W)
      → x₀ ≡ y₀
      → x₁ ≡ y₁
      → x₂ ≡ y₂
      → x₃ ≡ y₃
      → add (add (add (add (add x₀ x₁) x₂) x₃) a) b
        ≡ add (add (add (add (add nought y₀) y₁) y₂) y₃) (add a b)
  lanes a b e₀ e₁ e₂ e₃ = rw (e₀, e₁, e₂, e₃) (five_levels _ _ _ _ a b)

  -- With sums as in exact arithmetic, and a fused multiply-add that is the product and then the
  -- sum, the AVX2 code gives the average that the scalar loop gives.
  pub vwap_avx2-vwap :
      (fma : W → W → W → W)
      → ((a b c : W) → fma a b c ≡ add (mul a b) c)
      → (b : OrderBook W) → vwap_avx2 fma b ≡ vwap b
  unfolding vwap vwap_avx2 avx2_sums scalar_sums
  vwap_avx2-vwap fma fused b = ap (weighted b) (
      ap₂ (λ p q. (p, q)) (lanes _ _ (pq 0) (pq 1) (pq 2) (pq 3))
        (lanes _ _ (q 0) (q 1) (q 2) (q 3)))
    where
      pq :
          (i : ℕ)
          → lane_pq fma b i
            ≡ add
                (mul (level b.bid_px i) (level b.bid_qty i))
                (mul (level b.ask_px i) (level b.ask_qty i))
      pq i =
          rw
            (
              fused (level b.ask_px i) (level b.ask_qty i)
                  (fma (level b.bid_px i) (level b.bid_qty i) nought),
              fused (level b.bid_px i) (level b.bid_qty i) nought,
              add_nought (mul (level b.bid_px i) (level b.bid_qty i)),
              add_comm (mul (level b.ask_px i) (level b.ask_qty i))
                  (mul (level b.bid_px i) (level b.bid_qty i)),
            )
            refl

      q : (i : ℕ) → lane_q b i ≡ add (level b.bid_qty i) (level b.ask_qty i)
      q i = nought_add _
