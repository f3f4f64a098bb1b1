-- ===== src/Histogram/Count.antt =====
-- src/common/latency_histogram.hpp: its counters after a series of calls.
use mm_engine.Base.{
  ℕ, zero, suc, ◌+◌, ◌<◌, ◌*◌, ◌≡◌, refl, sym, List, [], ◌∷◌, arith, u64, length, get_or, set,
  length-set, length-replicate, replicate,
}
use mm_engine.Base.Int.{ℤ}
use mm_engine.Histogram.{
  Histogram, empty_histogram, majors, subs, bucket, clamp, record_latency, total_of,
}
use mm_engine.Histogram.Bounds.{bucket-in_range}

-- The total as `snapshot` adds it up, with the wrap of each addition.
total_of-shift : (cs : List ℕ) (a b : ℕ) → u64 (total_of cs (u64 a) + b) ≡ total_of cs (u64 (a + b))
unfolding total_of
total_of-shift [] a b = omega arith
total_of-shift (c ∷ cs) a b = rw (left, right) (total_of-shift cs (a + c) b)
  where
    left : u64 (u64 a + c) ≡ u64 (a + c)
    left = omega arith

    right : u64 (u64 (a + b) + c) ≡ u64 (a + c + b)
    right = omega arith

total_of-set :
    (cs : List ℕ) (i t : ℕ)
    → i < length cs
    → total_of (set cs i (u64 (get_or cs i 0 + 1))) (u64 t) ≡ u64 (total_of cs (u64 t) + 1)
unfolding total_of
total_of-set [] i t h = absurd (omega arith)
total_of-set (c ∷ cs) zero t h = rw (total_of, sum) (sym (total_of-shift cs (u64 t + c) 1))
  where
    sum : u64 (u64 t + u64 (c + 1)) ≡ u64 (u64 t + c + 1)
    sum = omega arith
total_of-set (c ∷ cs) (suc i) t h = total_of-set cs i (u64 t + c) (omega arith)

-- The array has its size, and `count` is the total over it.
abbrev pub IsConsistent : Histogram → Type 0
IsConsistent h = (length h.buckets ≡ majors * subs) × (h.count ≡ total_of h.buckets 0)

unfoldable pub record_all : List ℤ → Histogram → Histogram
record_all [] h = h
record_all (t ∷ ts) h = record_all ts (record_latency h t)

record_latency-IsConsistent :
    (h : Histogram) (t : ℤ) → IsConsistent h → IsConsistent (record_latency h t)
unfolding record_latency
record_latency-IsConsistent h t (size, total) = (
  rw (length-set h.buckets (bucket (clamp t)) (u64 (get_or h.buckets (bucket (clamp t)) 0 + 1)))
      size,
  rw (total, total_of-set h.buckets (bucket (clamp t)) 0 inside) refl,
)
  where
    inside : bucket (clamp t) < length h.buckets
    inside = omega (arith, size, bucket-in_range (clamp t))

zeros : (n : ℕ) → total_of (replicate n 0) 0 ≡ 0
unfolding total_of
zeros zero = refl
zeros (suc n) = zeros n

empty-IsConsistent : IsConsistent empty_histogram
unfolding empty_histogram
empty-IsConsistent = (length-replicate {A = ℕ} (majors * subs) 0, sym (zeros (majors * subs)))

record_all-count :
    (ts : List ℤ) (h : Histogram)
    → IsConsistent h
    → (IsConsistent (record_all ts h)) × (u64 (record_all ts h).count ≡ u64 (h.count + length ts))
unfolding record_all record_latency
record_all-count [] h good = (good, omega arith)
record_all-count (t ∷ ts) h good =
    let (kept, count) =
      record_all-count ts (record_latency h t) (record_latency-IsConsistent h t good) in
    (kept, omega (arith, count))

-- After any series of calls of `record` on an empty histogram, the count and the sum that
-- `snapshot` adds up over the buckets are both the number of calls, modulo 2 ^ 64.
pub record_all-IsConsistent :
    (ts : List ℤ)
    → ((record_all ts empty_histogram).count ≡ total_of (record_all ts empty_histogram).buckets 0)
      × (u64 (record_all ts empty_histogram).count ≡ u64 (length ts))
unfolding empty_histogram
record_all-IsConsistent ts =
    let ((_, total), count) = record_all-count ts empty_histogram empty-IsConsistent in
    (total, omega (arith, count))
