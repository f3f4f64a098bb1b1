-- ===== src/Histogram/Walk.antt =====
-- src/common/latency_histogram.hpp: the loop of `snapshot` that looks for the percentiles.
use mm_engine.Base.{
  zero, ltb→lt, ℕ, suc, ◌+◌, ◌*◌, ◌/◌, ◌^◌, ◌≤◌, ◌<◌, ◌≡◌, ◌⊎◌, refl, ap, false, inl, inr, List, [],
  ◌∷◌, ◌++◌, arith, ltb, leb, leb→le, ◌==◌, Bool-cases, u64, length, length-append, take,
}
use mathlib.Core.List.{append_assoc}
use mm_engine.Base.Int.{ℤ, pos}
use mm_engine.Histogram.Report.{buckets_below, bucket_upper-below}
use mm_engine.Histogram.{
  Histogram, Percentiles, Ranks, bucket_upper, note, walk, total_of, rank, snapshot, is_zero,
}

unfoldable pub sum : List ℕ → ℕ
sum [] = 0
sum (c ∷ cs) = c + sum cs

-- The report `p` is that of the first bucket at which the count has reached `t`.
pub record Found (counts : List ℕ) (t : ℕ) (p : ℤ) : Type 0 where
  pub at_bucket : ℕ
  pub reported : p ≡ bucket_upper at_bucket
  pub not_zero : is_zero p ≡ false
  pub before : sum (take at_bucket counts) < t
  pub reached : t ≤ sum (take (suc at_bucket) counts)

sum-append : (xs ys : List ℕ) → sum (xs ++ ys) ≡ sum xs + sum ys
unfolding sum
sum-append [] ys = omega arith
sum-append (x ∷ xs) ys = omega (arith, sum-append xs ys)

take-length : (xs ys : List ℕ) → take (length xs) (xs ++ ys) ≡ xs
take-length [] [] = refl
take-length [] (y ∷ ys) = refl
take-length (x ∷ xs) ys = ap (λ zs. x ∷ zs) (take-length xs ys)

sum-take_snoc : (xs ys : List ℕ) (c : ℕ) → sum (take (suc (length xs)) (xs ++ c ∷ ys)) ≡ sum xs + c
unfolding sum
sum-take_snoc [] ys c = omega arith
sum-take_snoc (x ∷ xs) ys c = omega (arith, sum-take_snoc xs ys c)

total_of-sum : (cs : List ℕ) (a : ℕ) → a + sum cs < 2 ^ 64 → total_of cs a ≡ a + sum cs
unfolding sum total_of
total_of-sum [] a h = omega arith
total_of-sum (c ∷ cs) a h = rw fits (omega (arith, total_of-sum cs (a + c) (omega arith)))
  where
    fits : u64 (a + c) ≡ a + c
    fits = omega arith

-- A percentile while the loop runs: not reached and 0, or found.
abbrev Seen : (counts : List ℕ) (t cum : ℕ) (p : ℤ) → Type 0
Seen counts t cum p = ((p ≡ pos 0) × (cum < t)) ⊎ Found counts t p

note-Seen :
    (pre cs : List ℕ) (c t : ℕ) (p : ℤ)
    → length pre < buckets_below
    → Seen (pre ++ c ∷ cs) t (sum pre) p
    → Seen (pre ++ c ∷ cs) t (sum pre + c) (note p (sum pre + c) t (bucket_upper (length pre)))
note-Seen pre cs c t p early (inl (none, low)) = rw none (elim (Bool-cases (leb t (sum pre + c))) [
  | inl reached ↦ rw reached (
      inr (record {
        at_bucket = length pre;
        reported = refl;
        not_zero = (bucket_upper-below (length pre) early).1;
        before = rw (take-length pre (c ∷ cs)) low;
        reached = rw (sum-take_snoc pre cs c) (leb→le _ _ reached);
      }))
  | inr short ↦ rw short (inl (refl, ground arith))
])
note-Seen pre cs c t p early (inr found) = rw found.not_zero (inr found)

-- The ranks in order, none of them above the total.
record Ordered (t : Ranks) (total : ℕ) : Type 0 where
  low : t.t50 ≤ t.t90
  high : t.t90 ≤ t.t99
  there : t.t99 ≤ total

-- Where the loop stands: `cum` samples behind it, and not yet at the last rank.
record Walks (all : List ℕ) (cum : ℕ) (t : Ranks) (out : Percentiles) : Type 0 where
  p50 : Seen all t.t50 cum out.p50
  p90 : Seen all t.t90 cum out.p90
  none_yet : out.p99 ≡ pos 0
  short : cum < t.t99

-- What the loop finds; the maximum and the count it leaves.
pub record FoundAll (all : List ℕ) (t : Ranks) (before out : Percentiles) : Type 0 where
  pub p50 : Found all t.t50 out.p50
  pub p90 : Found all t.t90 out.p90
  pub p99 : Found all t.t99 out.p99
  pub same_max : out.max ≡ before.max
  pub same_count : out.count ≡ before.count

Seen-Found : (all : List ℕ) (t cum : ℕ) (p : ℤ) → t ≤ cum → Seen all t cum p → Found all t p
Seen-Found all t cum p h (inl (_, low)) = absurd (omega arith)
Seen-Found all t cum p h (inr found) = found

noted-Seen :
    (all pre cs : List ℕ) (c t i cum : ℕ) (p : ℤ)
    → i < buckets_below
    → all ≡ pre ++ c ∷ cs
    → i ≡ length pre
    → cum ≡ sum pre
    → Seen all t cum p
    → Seen all t (cum + c) (note p (cum + c) t (bucket_upper i))
noted-Seen all pre cs c t i cum p early e ei ec s =
    rw (e, ei, ec) (note-Seen pre cs c t p (omega (arith, early, ei)) (rw (e, ec) at s))

sum-take_le : (n : ℕ) (xs ys : List ℕ) → n ≤ length xs → sum (take n (xs ++ ys)) ≤ sum xs
unfolding sum
sum-take_le zero xs ys h = omega arith
sum-take_le (suc n) [] ys h = absurd (omega arith)
sum-take_le (suc n) (x ∷ xs) ys h = omega (arith, sum-take_le n xs ys (omega arith))

-- As long as samples are missing the loop is at one of the buckets that hold them.
still_below :
    (all pre cs : List ℕ) (i cum t : ℕ)
    → all ≡ pre ++ cs
    → i ≡ length pre
    → cum ≡ sum pre
    → sum all ≤ sum (take buckets_below all)
    → t ≤ sum all
    → cum < t
    → i < buckets_below
still_below all pre cs i cum t e ei ec low there short = elim (Bool-cases (ltb i buckets_below)) [
  | inl early ↦ ltb→lt i buckets_below early
  | inr late ↦
      let within : buckets_below ≤ length pre = ground (arith, late, ei) in
      let most : sum (take buckets_below all) ≤ sum pre =
        rw e (sum-take_le buckets_below pre cs within) in
      absurd (omega (arith, most, ec, low, there, short))
]

walk-FoundAll :
    (t : Ranks) (all pre counts : List ℕ) (i cum : ℕ) (out : Percentiles)
    → all ≡ pre ++ counts
    → i ≡ length pre
    → cum ≡ sum pre
    → sum all < 2 ^ 64
    → sum all ≤ sum (take buckets_below all)
    → Ordered t (sum all)
    → Walks all cum t out
    → FoundAll all t out (walk t counts i cum out)
unfolding walk sum
walk-FoundAll t all pre [] i cum out e ei ec fits low o w =
    absurd (omega (arith, ap sum e, sum-append pre [], w.short, o.there))
walk-FoundAll t all pre (c ∷ cs) i cum out e ei ec fits low o w =
    let early : i < buckets_below =
      still_below all pre (c ∷ cs) i cum t.t99 e ei ec low o.there w.short in
    let seen : (r : ℕ) (p : ℤ)
        → Seen all r cum p
        → Seen all r (cum + c) (note p (cum + c) r (bucket_upper i)) =
      λ r p. noted-Seen all pre cs c r i cum p early e ei ec in
    rw (no_wrap, w.none_yet)
      (elim (Bool-cases (leb t.t99 (cum + c))) [
        | inl reached ↦
            let enough : t.t99 ≤ cum + c = leb→le _ _ reached in
            rw reached (record {
              p50 =
                  Seen-Found all t.t50 (cum + c) _ (omega (arith, o.low, o.high))
                    (seen t.t50 out.p50 w.p50);
              p90 =
                  Seen-Found all t.t90 (cum + c) _ (omega (arith, o.high))
                    (seen t.t90 out.p90 w.p90);
              p99 = rw reached at (
                  Seen-Found all t.t99 (cum + c) _ enough
                    (seen t.t99 (pos 0) (inl (refl, w.short))));
              same_max = refl;
              same_count = refl;
            })
        | inr more ↦
            let rest =
              walk-FoundAll t all (pre ++ c ∷ []) cs (i + 1) (cum + c)
                (record out {
                  p50 = note out.p50 (cum + c) t.t50 (bucket_upper i);
                  p90 = note out.p90 (cum + c) t.t90 (bucket_upper i);
                  p99 = pos 0;
                })
                (rw (append_assoc pre (c ∷ []) cs) e)
                (omega (arith, ei, length-append pre (c ∷ [])))
                (omega (arith, ec, sum-append pre (c ∷ []))) fits low o
                (record {
                  p50 = seen t.t50 out.p50 w.p50;
                  p90 = seen t.t90 out.p90 w.p90;
                  none_yet = refl;
                  short = ground arith;
                }) in
            rw more (record {
              p50 = rest.p50;
              p90 = rest.p90;
              p99 = rest.p99;
              same_max = rest.same_max;
              same_count = rest.same_count;
            })
      ])
  where
    no_wrap : u64 (cum + c) ≡ cum + c
    no_wrap = omega (arith, ap sum e, sum-append pre (c ∷ cs), ec)

-- The ranks that `snapshot` looks for among `n` samples.
abbrev pub ranks : ℕ → Ranks
ranks n = record { t50 = (n * 50 + 99) / 100; t90 = (n * 90 + 99) / 100; t99 = (n * 99 + 99) / 100 }

small_u64 : (x : ℕ) → x < 2 ^ 64 → u64 x ≡ x
small_u64 x h = omega arith

rank-lem : (n p : ℕ) → n * p + 99 < 2 ^ 64 → rank n p ≡ (n * p + 99) / 100
rank-lem n p h = rw (small_u64 (n * p) (omega arith), small_u64 (n * p + 99) h) refl

-- With samples in the buckets that come early enough, and fewer than 2 ^ 57, `snapshot` reports for each percentile the
-- bucket at which the count first reaches its rank, beside the maximum and the number of samples.
pub snapshot-FoundAll :
    (h : Histogram)
    → 0 < sum h.buckets
    → sum h.buckets < 2 ^ 57
    → sum h.buckets ≤ sum (take buckets_below h.buckets)
    → FoundAll h.buckets
        (ranks (sum h.buckets))
        (record { p50 = pos 0; p90 = pos 0; p99 = pos 0; max = pos h.max; count = sum h.buckets })
        (snapshot h)
unfolding snapshot sum
snapshot-FoundAll h some_there few low =
    rw
      (
        total,
        rank-lem (sum h.buckets) 50 (omega arith),
        rank-lem (sum h.buckets) 90 (omega arith),
        rank-lem (sum h.buckets) 99 (omega arith),
        some_samples,
      )
      (walk-FoundAll (ranks (sum h.buckets)) h.buckets [] h.buckets 0 0 _ refl refl refl
        (omega arith) low (record { low = omega arith; high = omega arith; there = omega arith })
        (record {
          p50 = inl (refl, omega arith);
          p90 = inl (refl, omega arith);
          none_yet = refl;
          short = omega arith;
        }))
  where
    total : total_of h.buckets 0 ≡ sum h.buckets
    total = omega (arith, total_of-sum h.buckets 0 (omega arith))

    some_samples : (sum h.buckets == 0) ≡ false
    some_samples = ground arith
