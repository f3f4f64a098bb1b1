-- ===== src/Metrics.antt =====
-- src/metrics/metrics.hpp: the counters that the threads share.
pub mod Contention
use mm_engine.Base.{ℕ, ltb, if◌then◌else◌}
use mm_engine.Histogram.{Histogram}

pub record Metrics : Type 0 where
  pub md_processing : Histogram
  pub tick_to_trade : Histogram
  pub queue_wait : Histogram
  pub md_msgs_total : ℕ
  pub md_dropped_total : ℕ
  pub orders_sent_total : ℕ
  pub cancels_sent_total : ℕ
  pub execs_total : ℕ
  pub md_queue_max : ℕ
  pub ord_queue_max : ℕ
  pub log_queue_max : ℕ

-- `track_max` on a mark that no other thread moves meanwhile.
abbrev pub track_max : (mark v : ℕ) → ℕ
track_max mark v = if ltb mark v then v else mark
