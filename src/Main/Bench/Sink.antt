-- ===== src/Main/Bench/Sink.antt =====
-- The sink of `run_bench` in src/main.cpp: what it counts.
use mm_engine.Base.{ℕ, ◌+◌, ◌≤◌, ◌≡◌, refl, List, [], ◌∷◌, arith, u64, length}
use mm_engine.Base.Int.{ℤ}
use mm_engine.Events.{OrderCmd, OrdCmdType}
use mm_engine.Metrics.{Metrics}
use mm_engine.Ring.Queue
use mm_engine.Ring.{Ring, try_pop}
use mm_engine.Ring.Refine.{Represents, try_pop_refines}
use mm_engine.Strategy.{ord_bits}
use mm_engine.Main.Bench.{sink_command, sink_all}

abbrev is_new : OrdCmdType → ℕ
is_new OrdCmdType.new = 1
is_new OrdCmdType.cancel = 0

abbrev is_cancel : OrdCmdType → ℕ
is_cancel OrdCmdType.new = 0
is_cancel OrdCmdType.cancel = 1

module _ {W : Type 0} where
  -- The new orders among commands, and the cancellations.
  unfoldable pub news : List (OrderCmd W) → ℕ
  news [] = 0
  news (c ∷ q) = is_new c.type + news q

  unfoldable pub cancels : List (OrderCmd W) → ℕ
  cancels [] = 0
  cancels (c ∷ q) = is_cancel c.type + cancels q

  -- What the sink leaves of a queue.
  pub record Sunk (q : List (OrderCmd W)) (m : Metrics) (out : Ring (OrderCmd W) × Metrics)
      : Type 0 where
    pub emptied : Represents ord_bits out.0 []
    pub orders : u64 out.1.orders_sent_total ≡ u64 (m.orders_sent_total + news q)
    pub cancelled : u64 out.1.cancels_sent_total ≡ u64 (m.cancels_sent_total + cancels q)

  sink_next-Sunk :
      (t : OrdCmdType) (c : OrderCmd W) (q : List (OrderCmd W)) (now : ℤ) (m : Metrics)
      (out : Ring (OrderCmd W) × Metrics)
      → c.type ≡ t
      → Sunk q (sink_command t c now m) out
      → Sunk (c ∷ q) m out
  unfolding news cancels sink_command
  sink_next-Sunk OrdCmdType.new c q now m out e s = record {
    emptied = s.emptied;
    orders = rw e (omega (arith, s.orders));
    cancelled = rw e (omega (arith, s.cancelled));
  }
  sink_next-Sunk OrdCmdType.cancel c q now m out e s = record {
    emptied = s.emptied;
    orders = rw e (omega (arith, s.orders));
    cancelled = rw e (omega (arith, s.cancelled));
  }

  -- With at least as many readings of the clock as there are commands, the sink empties the ring and
  -- counts each new order and each cancellation in it, modulo 2 ^ 64.
  pub sink_all-Sunk :
      (readings : List ℤ) (out : Ring (OrderCmd W)) (m : Metrics) (q : List (OrderCmd W))
      → Represents ord_bits out q
      → length q ≤ length readings
      → Sunk q m (sink_all readings out m)
  unfolding sink_all Queue.pop news cancels
  sink_all-Sunk [] out m [] r h = record {
    emptied = r;
    orders = omega arith;
    cancelled = omega arith;
  }
  sink_all-Sunk [] out m (c ∷ q) r h = absurd (omega arith)
  sink_all-Sunk (now ∷ readings) out m [] r h =
      let (nothing, after) = try_pop_refines ord_bits [] r in
      rw nothing (record { emptied = after; orders = omega arith; cancelled = omega arith })
  sink_all-Sunk (now ∷ readings) out m (c ∷ q) r h =
      let (oldest, after) = try_pop_refines ord_bits (c ∷ q) r in
      let rest =
        sink_all-Sunk readings (try_pop ord_bits out).1 (sink_command c.type c now m) q after
          (omega arith) in
      rw oldest (sink_next-Sunk c.type c q now m _ refl rest)
