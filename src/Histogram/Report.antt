-- ===== src/Histogram/Report.antt =====
-- src/common/latency_histogram.hpp: the order of the buckets, and what they report as an `int64_t`.
use mm_engine.Base.{
  subst, ℕ, suc, ◌+◌, ◌-◌, ◌*◌, ◌/◌, ◌%◌, ◌^◌, ◌≤◌, ◌<◌, false, ◌≡◌, refl, inl, inr, arith, ltb,
  Bool-cases,
}
use mm_engine.Base.Int.{pos, negsuc}
use mm_engine.Histogram.{
  or_one, highest, log2_floor, bucket, upper_bits, bucket_upper, is_zero, as_i64,
}
use mm_engine.Histogram.Bounds.{
  IsSub, IsSub-lt, IsClose, bucket_lem, highest_lem, power_split, upper_bits-bucket,
}
use native.Mathlib.Nat.{
  pow-le-pow_right, one-le-pow, div-add-mod, le-div_iff_mul-le, div-lt_iff_lt-mul, pow-suc,
}

div_mono : (a b p : ℕ) → 0 < p → a ≤ b → a / p ≤ b / p
div_mono a b p h le = (le-div_iff_mul-le h).1 (omega (arith, le, div-add-mod a p))

-- Within one power of two.
sub_mono :
    (maj a b s t : ℕ)
    → a ≤ b
    → 2 ^ maj ≤ a
    → b < 2 ^ suc maj
    → IsSub maj a s
    → IsSub maj b t
    → s ≤ t
unfolding IsSub
sub_mono maj a b s t le low high (inl (small, es)) (inl (_, et)) =
    omega
      (arith, es, et, le, high, pow-le-pow_right {n = 2} (omega arith) {i = suc maj} {j = 5} small)
sub_mono maj a b s t le low high (inl (small, _)) (inr (large, _)) =
    absurd (omega (arith, small, large))
sub_mono maj a b s t le low high (inr (large, _)) (inl (small, _)) =
    absurd (omega (arith, small, large))
sub_mono maj a b s t le low high (inr (large, es)) (inr (_, et)) =
    omega (arith, es, et, div_mono a b (2 ^ (maj - 5)) some_power le, at_least, below)
  where
    some_power : 0 < 2 ^ (maj - 5)
    some_power = one-le-pow (maj - 5) 2 (omega arith)

    at_least : 32 ≤ a / 2 ^ (maj - 5)
    at_least = (le-div_iff_mul-le some_power).1 (omega (arith, low, power_split maj large))

    below : b / 2 ^ (maj - 5) < 64
    below =
        (div-lt_iff_lt-mul some_power).1 (omega (arith, high, power_split maj large, pow-suc 2 maj))

place_mono :
    (ma mb a b s t : ℕ)
    → a ≤ b
    → 2 ^ ma ≤ a
    → b < 2 ^ suc mb
    → IsSub ma a s
    → IsSub mb b t
    → ma * 32 + s ≤ mb * 32 + t
place_mono ma mb a b s t le low high sa sb = elim (Bool-cases (ltb ma mb)) [
  | inl before ↦ ground (arith, before, IsSub-lt ma a s sa)
  | inr not_before ↦ elim (Bool-cases (ltb mb ma)) [
    | inl after ↦
        let larger : suc mb ≤ ma = ground (arith, after) in
        absurd (
          omega (
            arith,
            le,
            low,
            high,
            pow-le-pow_right {n = 2} (omega arith) {i = suc mb} {j = ma} larger,
          ))
    | inr not_after ↦
        let same : mb ≡ ma = ground (arith, not_before, not_after) in
        omega (
          arith,
          same,
          sub_mono ma a b s t le low (subst (λ m. b < 2 ^ suc m) same high) sa
              (subst (λ m. IsSub m b t) same sb),
        )
  ]
]

-- The bucket of a longer latency does not come before.
pub bucket_mono : (a b : ℕ) → a ≤ b → b < 2 ^ 64 → bucket a ≤ bucket b
bucket_mono a b le h =
    let (s, ea, sa) = bucket_lem a in
    let (t, eb, sb) = bucket_lem b in
    let low = (highest_lem 64 (or_one a) (omega arith) (omega arith)).0 in
    let high = (highest_lem 64 (or_one b) (omega arith) (omega arith)).1 in
    omega
      (arith, ea, eb, place_mono _ _ (or_one a) (or_one b) s t (omega (arith, le)) low high sa sb)

-- The latencies that are not too long for the report, 2 ^ 63 - 2 ^ 57 ns, which is 290 years.
abbrev pub limit : ℕ
limit = 2 ^ 63 - 2 ^ 57

-- Their buckets.
abbrev pub buckets_below : ℕ
buckets_below = 2015

last_bucket : bucket (limit - 1) ≡ 2014
unfolding bucket log2_floor highest
last_bucket = refl

pub bucket-below : (ns : ℕ) → ns < limit → bucket ns < buckets_below
bucket-below ns h =
    omega (arith, last_bucket, bucket_mono ns (limit - 1) (omega (arith, h)) (omega arith))

product-within : (a p b q : ℕ) → a ≤ b → p ≤ q → 0 < a → 0 < p → (0 < a * p) × (a * p ≤ b * q)
product-within a p b q h k la lp = (grind arith, grind arith)

upper_bits-below : (i : ℕ) → i < buckets_below → (0 < upper_bits i) × (upper_bits i < 2 ^ 63)
unfolding upper_bits
upper_bits-below i h = elim (Bool-cases (ltb (i / 32) 5)) [
  | inl small ↦
      let few : i / 32 ≤ 5 = ground (arith, small) in
      rw small (
        omega (arith, one-le-pow (i / 32) 2 (omega arith)),
        omega (arith, pow-le-pow_right {n = 2} (omega arith) {i = i / 32} {j = 5} few),
      )
  | inr large ↦
      let some_power : 0 < 2 ^ (i / 32 - 5) = one-le-pow (i / 32 - 5) 2 (omega arith) in
      rw large (elim (Bool-cases (ltb (i / 32) 62)) [
        | inl lower ↦
            let few : i / 32 - 5 ≤ 56 = ground (arith, lower) in
            let power = pow-le-pow_right {n = 2} (omega arith) {i = i / 32 - 5} {j = 56} few in
            let (some_there, within) =
              product-within (32 + i % 32 + 1) (2 ^ (i / 32 - 5)) 64 (2 ^ 56) (omega arith) power
                (omega arith) some_power in
            (some_there, omega (arith, within))
        | inr top ↦
            let is : i / 32 - 5 ≡ 57 = ground (arith, top, h) in
            let few : i % 32 ≤ 30 = ground (arith, top, h) in
            rw is (omega arith, omega (arith, few))
      ])
]

-- Below the last buckets an `int64_t` holds the report, which is not 0.
pub bucket_upper-below :
    (i : ℕ)
    → i < buckets_below
    → (bucket_upper i ≡ pos (upper_bits i)) × (is_zero (bucket_upper i) ≡ false)
unfolding bucket_upper
bucket_upper-below i h =
    let (some_there, fits) = upper_bits-below i h in
    let is : as_i64 (upper_bits i) ≡ pos (upper_bits i) = ground (arith, fits) in
    (is, rw is (ground (arith, some_there)))

-- A latency below 2 ^ 63 - 2 ^ 57 ns lies under what its bucket reports, as an `int64_t`. With
-- `v = ns | 1` the report is at most one part in 32 above `v`, or at most twice `v` where `v` is
-- below 32.
pub bucket_upper-bucket :
    (ns : ℕ)
    → ns < limit
    → (upper : ℕ) × (bucket_upper (bucket ns) ≡ pos upper) × IsClose (or_one ns) upper
bucket_upper-bucket ns h = (
  upper_bits (bucket ns),
  (bucket_upper-below (bucket ns) (bucket-below ns h)).0,
  upper_bits-bucket ns (omega (arith, h)),
)

-- At the first latency that is too long the report is negative.
too_long : bucket_upper (bucket limit) ≡ negsuc (2 ^ 63 - 1)
unfolding bucket_upper upper_bits bucket log2_floor highest
too_long = refl
