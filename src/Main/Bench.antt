-- ===== src/Main/Bench.antt =====
-- `run_bench` of src/main.cpp: the producer, which is the calling thread, and the sink, which empties
-- the ring of orders. The strategy between them is that of Strategy. The numbers of the random
-- generator are arguments, as are the constants of type double.
pub mod Producer
pub mod Sink
use mm_engine.Base.{
  ℕ, ◌+◌, ◌%◌, Bool, Option, none, some, List, [], ◌∷◌, ◌++◌, ◌==◌, ◌>>=◌, ltb, if◌then◌else◌, u32,
  u64,
}
use mm_engine.Base.Int.{ℤ, ◌-ℤ◌}
use mm_engine.Double.{Double}
use mm_engine.Events.{MdEvent, OrderCmd, OrdCmdType, max_depth}
use mm_engine.Histogram.{record_latency}
use mm_engine.Metrics.{Metrics, track_max}
use mm_engine.Ring.{Ring, try_push, try_pop, size_approx}
use mm_engine.Strategy.{md_bits, ord_bits}

-- 1050.0, 0.01, 0.10 and 0.05, and `double(n)`.
pub record BenchPrices (W : Type 0) : Type 0 where
  pub base : W
  pub narrow : W
  pub wide : W
  pub step : W
  pub double : ℕ → W

-- The producer between two accesses to the ring: the number of the event, and the event that waits
-- to be pushed. `received` is what the strategy has popped.
pub record Bench (W : Type 0) : Type 0 where
  pub md : Ring (MdEvent W)
  pub i : ℕ
  pub pending : Option (MdEvent W)
  pub metrics : Metrics
  pub received : List (MdEvent W)

-- The producer's next access, with what it reads of `g_running`, the clock and the generator; or a
-- pop of the strategy.
pub data BenchTurn (W : Type 0) : Type 0 where
  produce : (running : Bool) → ℤ → W → BenchTurn W
  pop : BenchTurn W

abbrev pub five_levels {ℓ} : {A : Type ℓ} → (ℕ → A) → List A
five_levels f = f 0 ∷ f 1 ∷ f 2 ∷ f 3 ∷ f 4 ∷ []

module _ {W : Type 0} where
  -- The end of a turn of the loop.
  abbrev pub advance : Bench W → Ring (MdEvent W) → Bench W
  advance b ring = record b {
    md = ring;
    i = b.i + 1;
    pending = none;
    metrics = record b.metrics {
      md_queue_max = track_max b.metrics.md_queue_max (size_approx ring);
    };
  }

  -- `while (!md.try_push(ev)) { if (!g_running) break; }`
  abbrev pub push_pending : Bool → Bench W → MdEvent W → Bench W
  push_pending running b ev =
      let (done, ring) = try_push md_bits b.md ev in
      if done then advance b ring else (if running then record b { md = ring } else advance b ring)

  abbrev pub receive : Option (MdEvent W) → Bench W → Ring (MdEvent W) → Bench W
  receive none b ring = record b { md = ring }
  receive (some ev) b ring = record b { md = ring; received = b.received ++ ev ∷ [] }

module _ {W : Type 0} ⦃d : Double W⦄ (prices : BenchPrices W) (n_syms n_msgs : ℕ) where
  open d use {nought, add, sub, mul}

  abbrev offset : ℕ → W
  offset level = mul (prices.double level) prices.step

  -- The event of turn `i`; `none` is the remainder by 0, when there are no symbols.
  unfoldable pub bench_event : ℕ → (now : ℤ) → (jig : W) → Option (MdEvent W)
  bench_event i now jig =
      let mid = add prices.base jig in
      let half = if i % 7 == 0 then prices.narrow else prices.wide in
      let qty = five_levels (λ level. prices.double (10 + level)) in
      if n_syms == 0
      then none
      else some (record {
        t_recv_ns = now;
        symbol_id = u32 (i % n_syms);
        n_bids = max_depth;
        n_asks = max_depth;
        bid_px = five_levels (λ level. sub (sub mid half) (offset level));
        bid_qty = qty;
        ask_px = five_levels (λ level. add (add mid half) (offset level));
        ask_qty = qty;
        last_px = nought;
        seq = u32 i;
      })

  abbrev pub start_event : Bool → Bench W → (now : ℤ) → (jig : W) → Option (Bench W)
  start_event running b now jig =
      if ltb b.i n_msgs
      then (if running
          then (bench_event b.i now jig >>= λ ev. some (record b {
            pending = some ev;
            metrics = record b.metrics { md_msgs_total = u64 (b.metrics.md_msgs_total + 1) };
          }))
          else some b)
      else some b

  abbrev pub produce_next :
      Option (MdEvent W) → Bool → Bench W → (now : ℤ) → (jig : W) → Option (Bench W)
  produce_next none running b now jig = start_event running b now jig
  produce_next (some ev) running b now jig = some (push_pending running b ev)

  unfoldable pub bench_turn : Bench W → BenchTurn W → Option (Bench W)
  bench_turn b (BenchTurn.produce running now jig) = produce_next b.pending running b now jig
  bench_turn b BenchTurn.pop = let (out, ring) = try_pop md_bits b.md in some (receive out b ring)

  unfoldable pub bench_turns : List (BenchTurn W) → Bench W → Option (Bench W)
  bench_turns [] b = some b
  bench_turns (t ∷ ts) b = bench_turn b t >>= bench_turns ts

module _ {W : Type 0} where
  -- The sink's work on a command, at a reading of the clock.
  unfoldable pub sink_command : OrdCmdType → OrderCmd W → (now : ℤ) → Metrics → Metrics
  sink_command OrdCmdType.new c now m = record m {
    tick_to_trade = record_latency m.tick_to_trade (now -ℤ c.t_md_ns);
    orders_sent_total = u64 (m.orders_sent_total + 1);
  }
  sink_command OrdCmdType.cancel c now m = record m {
    cancels_sent_total = u64 (m.cancels_sent_total + 1);
  }

  abbrev pub sink_next :
      Option (OrderCmd W) × Ring (OrderCmd W)
      → (now : ℤ) → Metrics
      → (Ring (OrderCmd W) → Metrics → Ring (OrderCmd W) × Metrics)
      → Ring (OrderCmd W) × Metrics
  sink_next (none, out) now m rest = (out, m)
  sink_next (some c, out) now m rest = rest out (sink_command c.type c now m)

  -- The loop `while (out.try_pop(c))`, which reads the clock at most once for each command and stops
  -- when `readings` run out.
  unfoldable pub sink_all :
      (readings : List ℤ) → Ring (OrderCmd W) → Metrics → Ring (OrderCmd W) × Metrics
  sink_all [] out m = (out, m)
  sink_all (now ∷ readings) out m = sink_next (try_pop ord_bits out) now m (sink_all readings)
