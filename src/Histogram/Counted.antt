-- ===== src/Histogram/Counted.antt =====
-- src/common/latency_histogram.hpp: how many of the latencies that were recorded are in the buckets.
use mm_engine.Base.{
  ℕ, zero, suc, ◌+◌, ◌*◌, ◌^◌, ◌<◌, ◌≡◌, refl, List, [], ◌∷◌, arith, ltb, if◌then◌else◌, u64,
  length, length-set, take, set, get_or, replicate,
}
use mm_engine.Base.Int.{ℤ}
use mm_engine.Histogram.{Histogram, majors, subs, bucket, clamp, record_latency}
use mm_engine.Histogram.Bounds.{bucket-in_range}
use mm_engine.Histogram.Count.{record_all}
use mm_engine.Histogram.Walk.{sum}

-- How many of the latencies fall in buckets below `k`.
unfoldable pub below : (k : ℕ) → List ℤ → ℕ
below k [] = 0
below k (t ∷ ts) = (if ltb (bucket (clamp t)) k then 1 else 0) + below k ts

-- One more sample in bucket `i`.
abbrev bump : List ℕ → ℕ → List ℕ
bump cs i = set cs i (u64 (get_or cs i 0 + 1))

sum-bump :
    (cs : List ℕ) (i : ℕ) → i < length cs → sum cs + 1 < 2 ^ 64 → sum (bump cs i) ≡ sum cs + 1
unfolding sum
sum-bump [] i h k = absurd (omega arith)
sum-bump (c ∷ cs) zero h k = omega arith
sum-bump (c ∷ cs) (suc i) h k = omega (arith, sum-bump cs i (omega arith) (omega arith))

sum-take-bump :
    (n : ℕ) (cs : List ℕ) (i : ℕ)
    → i < length cs
    → sum cs + 1 < 2 ^ 64
    → sum (take n (bump cs i)) ≡ (if ltb i n then 1 else 0) + sum (take n cs)
unfolding sum
sum-take-bump n [] i h k = absurd (omega arith)
sum-take-bump zero (c ∷ cs) zero h k = refl
sum-take-bump zero (c ∷ cs) (suc i) h k = ground arith
sum-take-bump (suc n) (c ∷ cs) zero h k = ground arith
sum-take-bump (suc n) (c ∷ cs) (suc i) h k =
    ground (arith, sum-take-bump n cs i (omega arith) (omega arith))

-- The buckets after a series of calls.
pub record Counted (ts : List ℤ) (h out : Histogram) : Type 0 where
  pub total : sum out.buckets ≡ sum h.buckets + length ts
  pub prefix : (n : ℕ) → sum (take n out.buckets) ≡ sum (take n h.buckets) + below n ts

pub record_all-Counted :
    (ts : List ℤ) (h : Histogram)
    → length h.buckets ≡ majors * subs
    → sum h.buckets + length ts < 2 ^ 64
    → Counted ts h (record_all ts h)
unfolding record_all record_latency below
record_all-Counted [] h size few = record { total = omega arith; prefix = λ n. omega arith }
record_all-Counted (t ∷ ts) h size few =
    let i = bucket (clamp t) in
    let inside : i < length h.buckets = omega (arith, size, bucket-in_range (clamp t)) in
    let one : sum (bump h.buckets i) ≡ sum h.buckets + 1 =
      sum-bump h.buckets i inside (omega arith) in
    let rest =
      record_all-Counted ts (record_latency h t)
        (omega (arith, size, length-set h.buckets i (u64 (get_or h.buckets i 0 + 1))))
        (omega (arith, one)) in
    record {
      total = omega (arith, one, rest.total);
      prefix = λ n. omega (arith, rest.prefix n, sum-take-bump n h.buckets i inside (omega arith));
    }

pub sum-zeros : (n k : ℕ) → sum (take k (replicate n 0)) ≡ 0
unfolding sum
sum-zeros zero zero = refl
sum-zeros zero (suc k) = refl
sum-zeros (suc n) zero = refl
sum-zeros (suc n) (suc k) = omega (arith, sum-zeros n k)

pub sum_all_zeros : (n : ℕ) → sum (replicate n 0) ≡ 0
unfolding sum
sum_all_zeros zero = refl
sum_all_zeros (suc n) = omega (arith, sum_all_zeros n)
