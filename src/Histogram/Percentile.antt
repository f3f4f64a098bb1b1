-- ===== src/Histogram/Percentile.antt =====
-- src/common/latency_histogram.hpp: the percentiles of the latencies that were recorded.
use mm_engine.Base.{
  ◌-◌, ltb→lt, ℕ, zero, suc, ◌+◌, ◌*◌, ◌/◌, ◌^◌, ◌≤◌, ◌<◌, ◌≡◌, refl, ◌∙◌, ap, inl, inr, List, [],
  ◌∷◌, arith, ltb, leb, leb→le, if◌then◌else◌, length, length-replicate, take, All, Bool-cases,
}
use mm_engine.Base.Int.{ℤ, pos}
use mm_engine.Histogram.{
  Histogram, empty_histogram, majors, subs, bucket, bucket_upper, clamp, or_one, snapshot,
}
use mm_engine.Histogram.Bounds.{IsClose}
use mm_engine.Histogram.Report.{
  limit, buckets_below, bucket_mono, bucket-below, bucket_upper-bucket,
}
use mm_engine.Histogram.Count.{record_all}
use mm_engine.Histogram.Counted.{below, record_all-Counted, sum-zeros, sum_all_zeros}
use mm_engine.Histogram.Walk.{sum, Found, snapshot-FoundAll}

-- How many latencies are less than `v`, and how many are at most `v`; a negative one counts as 0.
unfoldable pub under : (v : ℕ) → List ℤ → ℕ
under v [] = 0
under v (t ∷ ts) = (if ltb (clamp t) v then 1 else 0) + under v ts

unfoldable pub upto : (v : ℕ) → List ℤ → ℕ
upto v [] = 0
upto v (t ∷ ts) = (if leb (clamp t) v then 1 else 0) + upto v ts

-- The `p`-th percentile of latencies is `value`, of which less than `p` in a hundred are below it and
-- `p` in a hundred, rounded up, are not above it. What is reported is close to that: above
-- `value | 1` by at most one part in 32, or at most twice it where it is below 32.
pub record IsPercentile (ts : List ℤ) (p : ℕ) (reported : ℤ) : Type 0 where
  pub value : ℕ
  pub before : under value ts < (length ts * p + 99) / 100
  pub reached : (length ts * p + 99) / 100 ≤ upto value ts
  pub upper : ℕ
  pub report : reported ≡ pos upper
  pub close : IsClose (or_one value) upper

-- The latency is one that can be reported.
abbrev pub IsShort : ℤ → Type 0
IsShort t = clamp t < limit

under-suc : (v : ℕ) (ts : List ℤ) → under (suc v) ts ≡ upto v ts
unfolding under upto
under-suc v [] = refl
under-suc v (t ∷ ts) = ground (arith, under-suc v ts)

under_zero : (ts : List ℤ) → under 0 ts ≡ 0
unfolding under
under_zero [] = refl
under_zero (t ∷ ts) = ground (arith, under_zero ts)

upto_all : (ts : List ℤ) → All IsShort ts → upto (limit - 1) ts ≡ length ts
unfolding upto
upto_all [] a = refl
upto_all (t ∷ ts) (h, a) = ground (arith, h, upto_all ts a)

below_all : (ts : List ℤ) → All IsShort ts → below buckets_below ts ≡ length ts
unfolding below
below_all [] a = refl
below_all (t ∷ ts) (h, a) = ground (arith, bucket-below (clamp t) h, below_all ts a)

-- The least number up to which there are `r` of the latencies.
least :
    (n r : ℕ) (ts : List ℤ)
    → 0 < r
    → r ≤ upto n ts
    → (v : ℕ) × (v ≤ n) × (under v ts < r) × (r ≤ upto v ts)
least zero r ts h reached = (0, omega arith, omega (arith, under_zero ts, h), reached)
least (suc n) r ts h reached = elim (Bool-cases (leb r (upto n ts))) [
  | inl early ↦
      let (v, le, low, high) = least n r ts h (leb→le _ _ early) in
      (v, omega (arith, le), low, high)
  | inr late ↦ (suc n, omega arith, ground (arith, late, under-suc n ts), reached)
]

-- Latencies up to `v` are in no later buckets than `v`, and those in earlier ones are below `v`.
upto-below : (v k : ℕ) (ts : List ℤ) → v < limit → bucket v < k → upto v ts ≤ below k ts
unfolding upto below
upto-below v k [] h lt = omega arith
upto-below v k (t ∷ ts) h lt = elim (Bool-cases (leb (clamp t) v)) [
  | inl small ↦
      let before : bucket (clamp t) ≤ bucket v =
        bucket_mono (clamp t) v (leb→le _ _ small) (omega (arith, h)) in
      ground (arith, small, before, lt, upto-below v k ts h lt)
  | inr large ↦ ground (arith, large, upto-below v k ts h lt)
]

below-under : (v k : ℕ) (ts : List ℤ) → All IsShort ts → k ≤ bucket v → below k ts ≤ under v ts
unfolding under below
below-under v k [] a le = omega arith
below-under v k (t ∷ ts) (h, a) le = elim (Bool-cases (ltb (clamp t) v)) [
  | inl small ↦ ground (arith, small, below-under v k ts a le)
  | inr large ↦
      let bigger : v ≤ clamp t = ground (arith, large) in
      let after : bucket v ≤ bucket (clamp t) = bucket_mono v (clamp t) bigger (omega (arith, h)) in
      ground (arith, large, after, le, below-under v k ts a le)
]

-- The bucket at which the count reaches the rank is that of the percentile.
same_bucket :
    (ts : List ℤ) (v k r : ℕ)
    → All IsShort ts
    → v < limit
    → under v ts < r
    → r ≤ upto v ts
    → below k ts < r
    → r ≤ below (suc k) ts
    → k ≡ bucket v
same_bucket ts v k r a h low high before reached = elim (Bool-cases (ltb (bucket v) k)) [
  | inl early ↦ absurd (omega (arith, upto-below v k ts h (ltb→lt _ _ early), high, before))
  | inr not_early ↦ elim (Bool-cases (ltb k (bucket v))) [
    | inl late ↦ absurd (omega (arith, below-under v (suc k) ts a (ltb→lt _ _ late), low, reached))
    | inr not_late ↦ ground (arith, not_early, not_late)
  ]
]

Found-IsPercentile :
    (ts : List ℤ) (h : Histogram) (p : ℕ) (reported : ℤ)
    → All IsShort ts
    → 0 < (length ts * p + 99) / 100
    → (length ts * p + 99) / 100 ≤ length ts
    → ((n : ℕ) → sum (take n h.buckets) ≡ below n ts)
    → Found h.buckets ((length ts * p + 99) / 100) reported
    → IsPercentile ts p reported
Found-IsPercentile ts h p reported a some_there most same found =
    let (v, small, low, high) =
      least (limit - 1) ((length ts * p + 99) / 100) ts some_there
        (omega (arith, most, upto_all ts a)) in
    let short : v < limit = omega (arith, small) in
    let (upper, shown, close) = bucket_upper-bucket v short in
    let at : found.at_bucket ≡ bucket v =
      same_bucket ts v found.at_bucket ((length ts * p + 99) / 100) a short low high
        (omega (arith, found.before, same found.at_bucket))
        (omega (arith, found.reached, same (suc found.at_bucket))) in
    record {
      value = v;
      before = low;
      reached = high;
      upper = upper;
      report = found.reported ∙ (ap bucket_upper at ∙ shown);
      close = close;
    }

-- After any series of calls of `record` on an empty histogram, at least one and fewer than 2 ^ 57,
-- with latencies below 2 ^ 63 - 2 ^ 57 ns, `snapshot` gives the number of the calls, and for each of
-- the 50th, 90th and 99th percentile of the latencies a number that is close to it: above it, with
-- its last bit set, by at most one part in 32, or at most twice that where it is below 32.
pub snapshot-IsPercentile :
    (ts : List ℤ)
    → 0 < length ts
    → length ts < 2 ^ 57
    → All IsShort ts
    → let p = snapshot (record_all ts empty_histogram) in
      IsPercentile ts 50 p.p50
      × IsPercentile ts 90 p.p90
      × IsPercentile ts 99 p.p99
      × (p.count ≡ length ts)
unfolding empty_histogram
snapshot-IsPercentile ts some_there few short =
    let counted =
      record_all-Counted ts empty_histogram (length-replicate {A = ℕ} (majors * subs) 0)
        (omega (arith, sum_all_zeros (majors * subs))) in
    let total : sum (record_all ts empty_histogram).buckets ≡ length ts =
      omega (arith, counted.total, sum_all_zeros (majors * subs)) in
    let same : (n : ℕ) → sum (take n (record_all ts empty_histogram).buckets) ≡ below n ts =
      λ n. omega (arith, counted.prefix n, sum-zeros (majors * subs) n) in
    let found =
      snapshot-FoundAll (record_all ts empty_histogram) (omega (arith, total))
        (omega (arith, total)) (omega (arith, total, same buckets_below, below_all ts short)) in
    let percentile = λ (p : ℕ) (reported : ℤ).
      Found-IsPercentile ts (record_all ts empty_histogram) p reported short in
    (
      percentile 50 _ (omega arith) (omega arith) same (rw total at found.p50),
      percentile 90 _ (omega arith) (omega arith) same (rw total at found.p90),
      percentile 99 _ (omega arith) (omega arith) same (rw total at found.p99),
      rw total at found.same_count,
    )
