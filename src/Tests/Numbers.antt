-- ===== src/Tests/Numbers.antt =====
-- The theorems on latencies and books at concrete numbers.
use mm_engine.Base.{ℕ, ◌≤◌, take, ◌≡◌, refl, List, [], ◌∷◌, arith, u64}
use mm_engine.Base.Int.{ℤ, pos, negsuc}
use mm_engine.Double.Fixed.{thousandths, exact_sums}
use mm_engine.Events.{max_depth}
use mm_engine.Book.{apply_snapshot, vwap, vwap_avx2}
use mm_engine.Book.Laws.{levels, apply_snapshot-levels, vwap_avx2-vwap}
use mm_engine.Histogram.{
  or_one, bucket, bucket_upper, upper_bits, empty_histogram, total_of, log2_floor, highest,
  snapshot, Percentiles, record_latency, walk,
}
use mm_engine.Histogram.Percentile.{IsPercentile, snapshot-IsPercentile}
use mm_engine.Histogram.Bounds.{IsClose}
use mm_engine.Histogram.Report.{bucket_upper-bucket}
use mm_engine.Histogram.Count.{record_all, record_all-IsConsistent}
use mm_engine.Tests.Data.{quote_event, quote_book}

bucket_upper-bucket_example :
    (upper : ℕ) × (bucket_upper (bucket 1500) ≡ pos upper) × IsClose (or_one 1500) upper
bucket_upper-bucket_example = bucket_upper-bucket 1500 (omega arith)

-- 1500 ns are reported as 1504, and 31 ns as 47.
reported_as : (bucket_upper (bucket 1500) ≡ pos 1504) × (bucket_upper (bucket 31) ≡ pos 47)
unfolding bucket bucket_upper upper_bits log2_floor highest
reported_as = (refl, refl)

abbrev latencies : List ℤ
latencies = pos 120 ∷ negsuc 3 ∷ pos 1500 ∷ []

record_all-IsConsistent_example :
    ((record_all latencies empty_histogram).count
      ≡ total_of (record_all latencies empty_histogram).buckets 0)
    × (u64 (record_all latencies empty_histogram).count ≡ u64 3)
record_all-IsConsistent_example = record_all-IsConsistent latencies

abbrev fused : ℤ → ℤ → ℤ → ℤ
fused a b c = thousandths.add (thousandths.mul a b) c

vwap_avx2-vwap_example : vwap_avx2 fused quote_book ≡ vwap quote_book
vwap_avx2-vwap_example = vwap_avx2-vwap exact_sums fused (λ a b c. refl) quote_book

apply_snapshot-levels_example :
    let ob = apply_snapshot quote_book quote_event (pos 1) in
    (take ob.n_bids (levels ob.bid_px ob.bid_qty)
      ≡ take 1 (take 2 (levels quote_event.bid_px quote_event.bid_qty)))
    × (take ob.n_asks (levels ob.ask_px ob.ask_qty)
        ≡ take 1 (take 2 (levels quote_event.ask_px quote_event.ask_qty)))
    × (ob.n_bids ≤ max_depth)
    × (ob.n_asks ≤ max_depth)
apply_snapshot-levels_example = apply_snapshot-levels quote_book quote_event 1 (omega arith)

-- The slowest half of three latencies is above 120 ns, which is reported as 122.
snapshot-IsPercentile_example :
    let p = snapshot (record_all latencies empty_histogram) in
    IsPercentile latencies 50 p.p50
    × IsPercentile latencies 90 p.p90
    × IsPercentile latencies 99 p.p99
    × (p.count ≡ 3)
snapshot-IsPercentile_example =
    snapshot-IsPercentile latencies (omega arith) (omega arith)
      (omega arith, (omega arith, (omega arith, tt)))

abbrev shown : Percentiles
shown = snapshot (record_all latencies empty_histogram)

three_latencies :
    (shown.p50 ≡ pos 122) × (shown.p90 ≡ pos 1504) × (shown.p99 ≡ pos 1504) × (shown.max ≡ pos 1500)
unfolding snapshot record_all empty_histogram record_latency bucket log2_floor highest total_of walk
    bucket_upper upper_bits
three_latencies = (refl, refl, refl, refl)
