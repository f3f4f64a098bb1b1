-- ===== src/Histogram.antt =====
-- src/common/latency_histogram.hpp: the latency histogram. Its relaxed counters are read and written
-- one call at a time; an interleaving of recorders is not modelled.
pub mod Bounds
pub mod Report
pub mod Count
pub mod Walk
pub mod Counted
pub mod Percentile
use mm_engine.Base.{
  Bool, false, ℕ, zero, suc, ◌+◌, ◌-◌, ◌*◌, ◌/◌, ◌%◌, ◌^◌, List, [], ◌∷◌, ltb, leb, ◌==◌,
  if◌then◌else◌, u64, get_or, set, replicate,
}
use mm_engine.Base.Int.{ℤ, pos, negsuc}

abbrev pub majors : ℕ
majors = 64

abbrev pub subs : ℕ
subs = 32

abbrev pub sub_bits : ℕ
sub_bits = 5

pub record Histogram : Type 0 where
  pub buckets : List ℕ
  pub count : ℕ
  pub max : ℕ

unfoldable pub empty_histogram : Histogram
empty_histogram = record { buckets = replicate (majors * subs) 0; count = 0; max = 0 }

-- `v | 1`
abbrev pub or_one : ℕ → ℕ
or_one v = v / 2 * 2 + 1

-- The highest bit of `v` among the `n` lowest, which is what `63 - clz(v)` gives at `n = 64`.
unfoldable pub highest : (n : ℕ) → ℕ → ℕ
highest zero v = 0
highest (suc n) v = if leb (2 ^ n) v then n else highest n v

unfoldable pub log2_floor : ℕ → ℕ
log2_floor v = highest 64 (or_one v)

-- `if (ns < 0) ns = 0`
abbrev pub clamp : ℤ → ℕ
clamp (pos n) = n
clamp (negsuc n) = 0

-- The bucket that `record` counts a latency of `ns`, not negative, in.
unfoldable pub bucket : ℕ → ℕ
bucket ns =
    let v = or_one ns in
    let maj = log2_floor v in
    let sub = if leb sub_bits maj then v / 2 ^ (maj - sub_bits) % subs else v % subs in
    maj * subs + sub

unfoldable pub record_latency : Histogram → ℤ → Histogram
record_latency h t =
    let ns = clamp t in
    let i = bucket ns in
    record h {
      buckets = set h.buckets i (u64 (get_or h.buckets i 0 + 1));
      count = u64 (h.count + 1);
      max = if ltb h.max ns then ns else h.max;
    }

-- An `int64_t` of these bits: the 64 lowest, in two's complement.
abbrev pub as_i64 : ℕ → ℤ
as_i64 n = let w = u64 n in if ltb w (2 ^ 63) then pos w else negsuc (2 ^ 64 - 1 - w)

-- What `bucket_upper` computes, before it is cut down to 64 bits.
unfoldable pub upper_bits : ℕ → ℕ
upper_bits idx =
    let maj = idx / subs in
    let sub = idx % subs in
    if ltb maj sub_bits then 2 ^ maj + sub else (2 ^ sub_bits + sub + 1) * 2 ^ (maj - sub_bits)

-- The latency that a percentile reports for bucket `idx`.
unfoldable pub bucket_upper : ℕ → ℤ
bucket_upper idx = as_i64 (upper_bits idx)

pub record Percentiles : Type 0 where
  pub p50 : ℤ
  pub p90 : ℤ
  pub p99 : ℤ
  pub max : ℤ
  pub count : ℕ

unfoldable pub total_of : List ℕ → ℕ → ℕ
total_of [] total = total
total_of (c ∷ counts) total = total_of counts (u64 (total + c))

-- The rank of the `p`-th percentile among `total` samples.
abbrev pub rank : ℕ → ℕ → ℕ
rank total p = u64 (u64 (total * p) + 99) / 100

-- `!p`
abbrev pub is_zero : ℤ → Bool
is_zero (pos n) = n == 0
is_zero (negsuc n) = false

-- `if (!out.p && cum >= t) out.p = v`
abbrev pub note : (p : ℤ) → (cum t : ℕ) → (v : ℤ) → ℤ
note p cum t v = if is_zero p then (if leb t cum then v else p) else p

pub record Ranks : Type 0 where
  pub t50 : ℕ
  pub t90 : ℕ
  pub t99 : ℕ

-- The loop of `snapshot`, from bucket `i` on; it stops at the bucket that gives `p99`.
unfoldable pub walk : Ranks → List ℕ → (i cum : ℕ) → Percentiles → Percentiles
walk t [] i cum out = out
walk t (c ∷ counts) i cum out =
    let cum' = u64 (cum + c) in
    let v = bucket_upper i in
    let out' = record out {
      p50 = note out.p50 cum' t.t50 v;
      p90 = note out.p90 cum' t.t90 v;
      p99 = note out.p99 cum' t.t99 v;
    } in
    let rest = walk t counts (i + 1) cum' out' in
    if is_zero out.p99 then (if leb t.t99 cum' then out' else rest) else rest

unfoldable pub snapshot : Histogram → Percentiles
snapshot h =
    let total = total_of h.buckets 0 in
    let out : Percentiles = record {
      p50 = pos 0;
      p90 = pos 0;
      p99 = pos 0;
      max = pos h.max;
      count = total;
    } in
    let ranks : Ranks = record { t50 = rank total 50; t90 = rank total 90; t99 = rank total 99 } in
    if total == 0 then out else walk ranks h.buckets 0 0 out

unfoldable pub reset : Histogram → Histogram
unfolding empty_histogram
reset h = empty_histogram
