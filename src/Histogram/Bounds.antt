-- ===== src/Histogram/Bounds.antt =====
-- src/common/latency_histogram.hpp: the bucket of a latency, and the latency the bucket reports.
use mm_engine.Base.{
  ℕ, zero, suc, ◌+◌, ◌-◌, ◌*◌, ◌/◌, ◌%◌, ◌^◌, ◌≤◌, ◌<◌, Bool, true, false, ◌≡◌, refl, ap, ◌⊎◌, inl,
  inr, arith, leb, ltb, leb→le, lt→ltb, Bool-cases, if◌then◌else◌,
}
use mm_engine.Histogram.{majors, subs, or_one, highest, log2_floor, bucket, upper_bits}
use native.Mathlib.Nat.{
  pow-suc, one-le-pow, pow-le-pow_right, div-add-mod, mod-lt, le-div_iff_mul-le, div-lt_iff_lt-mul,
}

pub highest_lt : (n v : ℕ) → 0 < n → highest n v < n
unfolding highest
highest_lt zero v h = absurd (omega arith)
highest_lt (suc zero) v h = elim (Bool-cases (leb (2 ^ 0) v)) [
  | inl big ↦ rw big (omega arith)
  | inr small ↦ rw small (omega arith)
]
highest_lt (suc (suc n)) v h = elim (Bool-cases (leb (2 ^ suc n) v)) [
  | inl big ↦ rw big (omega arith)
  | inr small ↦ rw small (omega (arith, highest_lt (suc n) v (omega arith)))
]

leb_false→lt : (a b : ℕ) → leb a b ≡ false → b < a
leb_false→lt a b h = ground arith

-- `highest` is the logarithm rounded down.
pub highest_lem :
    (n v : ℕ) → 0 < v → v < 2 ^ n → (2 ^ highest n v ≤ v) × (v < 2 ^ suc (highest n v))
unfolding highest
highest_lem zero v h k = absurd (omega arith)
highest_lem (suc n) v h k = elim (Bool-cases (leb (2 ^ n) v)) [
  | inl big ↦ rw big (leb→le _ _ big, k)
  | inr small ↦ rw small (highest_lem n v h (leb_false→lt _ _ small))
]

or_one_twice : (v : ℕ) → or_one (or_one v) ≡ or_one v
or_one_twice v = omega arith

-- The two ways to place a latency within its power of two.
unfoldable pub IsSub : (maj v s : ℕ) → Type 0
IsSub maj v s = ((maj < 5) × (s ≡ v % 32)) ⊎ ((5 ≤ maj) × (s ≡ v / 2 ^ (maj - 5) % 32))

sub_lem : (maj v : ℕ) → IsSub maj v (if leb 5 maj then v / 2 ^ (maj - 5) % 32 else v % 32)
unfolding IsSub
sub_lem maj v = go (leb 5 maj) refl
  where
    go : (b : Bool) → leb 5 maj ≡ b → IsSub maj v (if b then v / 2 ^ (maj - 5) % 32 else v % 32)
    go true e = inr (leb→le _ _ e, refl)
    go false e = inl (leb_false→lt _ _ e, refl)

pub bucket_lem :
    (ns : ℕ)
    → let maj = highest 64 (or_one ns) in
      (s : ℕ) × (bucket ns ≡ maj * 32 + s) × IsSub maj (or_one ns) s
unfolding bucket log2_floor
bucket_lem ns = rw (or_one_twice ns) (_, refl, sub_lem (highest 64 (or_one ns)) (or_one ns))

pub IsSub-lt : (maj v s : ℕ) → IsSub maj v s → s < 32
unfolding IsSub
IsSub-lt maj v s (inl (_, e)) = omega arith
IsSub-lt maj v s (inr (_, e)) = omega arith

-- A latency of any size falls in a bucket of the array.
pub bucket-in_range : (ns : ℕ) → bucket ns < majors * subs
bucket-in_range ns =
    let (s, e, placed) = bucket_lem ns in
    omega (arith, e, IsSub-lt _ _ s placed, highest_lt 64 (or_one ns) (omega arith))

upper_lem :
    (maj s : ℕ)
    → s < 32
    → upper_bits (maj * 32 + s) ≡ (if ltb maj 5 then 2 ^ maj + s else (32 + s + 1) * 2 ^ (maj - 5))
unfolding upper_bits
upper_lem maj s h = rw (quotient, remainder) refl
  where
    quotient : (maj * 32 + s) / 32 ≡ maj
    quotient = omega arith

    remainder : (maj * 32 + s) % 32 ≡ s
    remainder = omega arith

pub power_split : (maj : ℕ) → 5 ≤ maj → 2 ^ maj ≡ 2 ^ (maj - 5) * 32
power_split (suc (suc (suc (suc (suc k))))) h = omega (
  arith,
  ap (λ (n : ℕ). 2 ^ n) index,
  pow-suc 2 k,
  pow-suc 2 (suc k),
  pow-suc 2 (suc (suc k)),
  pow-suc 2 (suc (suc (suc k))),
  pow-suc 2 (suc (suc (suc (suc k)))),
)
  where
    index : suc (suc (suc (suc (suc k)))) - 5 ≡ k
    index = omega arith
power_split _ h = absurd (omega arith)

-- The least number above `v` among the multiples of `p`, when `v` is between `32 * p` and `64 * p`.
next_multiple :
    (v p : ℕ)
    → 0 < p
    → p * 32 ≤ v
    → v < p * 64
    → let upper = (32 + v / p % 32 + 1) * p in (v < upper) × (upper ≤ v + p)
next_multiple v p h low high = (omega (arith, split, rest, scaled), omega (arith, split, scaled))
  where
    split : p * (v / p) + v % p ≡ v
    split = div-add-mod v p

    rest : v % p < p
    rest = mod-lt v h

    at_least : 32 ≤ v / p
    at_least = (le-div_iff_mul-le h).1 (omega arith)

    below : v / p < 64
    below = (div-lt_iff_lt-mul h).1 (omega arith)

    scaled : (32 + v / p % 32 + 1) * p ≡ p * (v / p) + p
    scaled = rw digit (omega arith)
      where
        digit : 32 + v / p % 32 ≡ v / p
        digit = omega (arith, at_least, below)

-- A number above `v`, at most one part in 32 above it or, for a small `v`, at most twice it.
abbrev pub IsClose : (v upper : ℕ) → Type 0
IsClose v upper = (v < upper) × (((v < 32) × (upper ≤ 2 * v)) ⊎ (32 * upper ≤ 33 * v))

small-IsClose :
    (maj v : ℕ)
    → maj < 5
    → 2 ^ maj ≤ v
    → v < 2 ^ suc maj
    → IsClose v (upper_bits (maj * 32 + v % 32))
small-IsClose maj v h low high =
    rw (upper_lem maj (v % 32) (omega arith), lt→ltb _ _ h)
      (omega (arith, little, one-le-pow maj 2 (omega arith)), inl (little, omega (arith, little)))
  where
    little : v < 32
    little = omega (arith, pow-le-pow_right {n = 2} (omega arith) {i = suc maj} {j = 5} h)

large-IsClose :
    (maj v : ℕ)
    → 5 ≤ maj
    → 2 ^ maj ≤ v
    → v < 2 ^ suc maj
    → IsClose v (upper_bits (maj * 32 + v / 2 ^ (maj - 5) % 32))
large-IsClose maj v h low high =
    rw (upper_lem maj (v / 2 ^ (maj - 5) % 32) (omega arith), large)
      (near.0, inr (omega (arith, near.1, power_split maj h)))
  where
    large : ltb maj 5 ≡ false
    large = ground arith

    near :
        let upper = (32 + v / 2 ^ (maj - 5) % 32 + 1) * 2 ^ (maj - 5) in
        (v < upper) × (upper ≤ v + 2 ^ (maj - 5))
    near =
        next_multiple v (2 ^ (maj - 5)) (one-le-pow (maj - 5) 2 (omega arith))
          (omega (arith, power_split maj h)) (omega (arith, power_split maj h, pow-suc 2 maj))

pub upper_bits-bucket : (ns : ℕ) → ns < 2 ^ 64 → IsClose (or_one ns) (upper_bits (bucket ns))
unfolding IsSub
upper_bits-bucket ns h = let (s, e, placed) = bucket_lem ns in rw e (go s placed)
  where
    log : (2 ^ highest 64 (or_one ns) ≤ or_one ns) × (or_one ns < 2 ^ suc (highest 64 (or_one ns)))
    log = highest_lem 64 (or_one ns) (omega arith) (omega arith)

    go :
        (s : ℕ)
        → IsSub (highest 64 (or_one ns)) (or_one ns) s
        → IsClose (or_one ns) (upper_bits (highest 64 (or_one ns) * 32 + s))
    go s (inl (small, es)) = rw es (small-IsClose _ _ small log.0 log.1)
    go s (inr (large, es)) = rw es (large-IsClose _ _ large log.0 log.1)
