-- ===== src/Server.antt =====
-- src/metrics/metrics_server.hpp: the thread that hands the counters to Prometheus once a second. The
-- library is a parameter: its gauges and counters, and what the code calls on them. A round takes the
-- values that it reads as one `Metrics`, of which nothing says that they were there at one moment.
-- Registration, the line printed and sleeping are left out.
pub mod Gauges
pub mod Totals
use mm_engine.Base.{
  ℕ, ◌+◌, Option, none, some, List, [], ◌∷◌, ◌++◌, ◌>>=◌, if◌then◌else◌, codes, same_text, sub_u64,
}
use mm_engine.Base.Int.{ℤ}
use mm_engine.Double.{Double}
use mm_engine.Histogram.{Percentiles, snapshot}
use mm_engine.Metrics.{Metrics}

-- What the server uses of prometheus-cpp, on gauges `G` and counters `C`; and `double(n)` on a
-- `uint64_t` and on an `int64_t`.
pub record Prometheus (W G C : Type 0) : Type 0 where
  pub new_gauge : G
  pub new_counter : C
  pub set : G → W → G
  pub value : C → W
  pub increment : C → W → C
  pub double : ℕ → W
  pub signed : ℤ → W

pub record Counters (C : Type 0) : Type 0 where
  pub md : C
  pub drop : C
  pub orders : C
  pub cxl : C
  pub exec : C

-- `gauges` is the map from names to gauges; `last_md` is the variable of `run`.
pub record MetricsServer (G C : Type 0) : Type 0 where
  pub gauges : List (List ℕ × G)
  pub tps : G
  pub counters : Counters C
  pub md_queue : G
  pub ord_queue : G
  pub log_queue : G
  pub last_md : ℕ

abbrev pub md_processing : List ℕ
md_processing = codes "md_processing"

abbrev pub tick_to_trade : List ℕ
tick_to_trade = codes "tick_to_trade"

abbrev pub queue_wait : List ℕ
queue_wait = codes "queue_wait"

-- The names of the gauges of a flow.
abbrev pub p50_of : List ℕ → List ℕ
p50_of flow = flow ++ codes ":p50"

abbrev pub p90_of : List ℕ → List ℕ
p90_of flow = flow ++ codes ":p90"

abbrev pub p99_of : List ℕ → List ℕ
p99_of flow = flow ++ codes ":p99"

abbrev pub max_of : List ℕ → List ℕ
max_of flow = flow ++ codes ":max"

module _ {W G C : Type 0} ⦃d : Double W⦄ (prom : Prometheus W G C) where
  abbrev flow_gauges : List ℕ → List (List ℕ × G) → List (List ℕ × G)
  flow_gauges flow rest =
      (p50_of flow, prom.new_gauge)
      ∷ (p90_of flow, prom.new_gauge)
      ∷ (p99_of flow, prom.new_gauge)
      ∷ (max_of flow, prom.new_gauge)
      ∷ rest

  -- The constructor, and the start of `run`.
  unfoldable pub metrics_server : MetricsServer G C
  metrics_server = record {
    gauges = flow_gauges md_processing (flow_gauges tick_to_trade (flow_gauges queue_wait []));
    tps = prom.new_gauge;
    counters = record {
      md = prom.new_counter;
      drop = prom.new_counter;
      orders = prom.new_counter;
      cxl = prom.new_counter;
      exec = prom.new_counter;
    };
    md_queue = prom.new_gauge;
    ord_queue = prom.new_gauge;
    log_queue = prom.new_gauge;
    last_md = 0;
  }

  -- `gauges_[key]->Set(x)`; a name that is not in the map would give a null pointer: `none`.
  unfoldable pub set_gauge : List ℕ → W → List (List ℕ × G) → Option (List (List ℕ × G))
  set_gauge key x [] = none
  set_gauge key x ((name, g) ∷ gauges) =
      let rest = set_gauge key x gauges in
      if same_text name key
      then some ((name, prom.set g x) ∷ gauges)
      else (rest >>= λ gs. some ((name, g) ∷ gs))

  unfoldable pub publish : List ℕ → Percentiles → List (List ℕ × G) → Option (List (List ℕ × G))
  publish flow p gauges = do
    g50 ← set_gauge (p50_of flow) (prom.signed p.p50) gauges
    g90 ← set_gauge (p90_of flow) (prom.signed p.p90) g50
    g99 ← set_gauge (p99_of flow) (prom.signed p.p99) g90
    set_gauge (max_of flow) (prom.signed p.max) g99

  unfoldable pub set_counter : C → (target : W) → C
  set_counter c target =
      let cur = prom.value c in if d.lt cur target then prom.increment c (d.sub target cur) else c

  abbrev pub set_counters : Counters C → Metrics → Counters C
  set_counters c m = record {
    md = set_counter c.md (prom.double m.md_msgs_total);
    drop = set_counter c.drop (prom.double m.md_dropped_total);
    orders = set_counter c.orders (prom.double m.orders_sent_total);
    cxl = set_counter c.cxl (prom.double m.cancels_sent_total);
    exec = set_counter c.exec (prom.double m.execs_total);
  }

  -- One round of `run`, on the values that it reads.
  unfoldable pub publish_round : MetricsServer G C → Metrics → Option (MetricsServer G C)
  publish_round s m = do
    processing ← publish md_processing (snapshot m.md_processing) s.gauges
    trade ← publish tick_to_trade (snapshot m.tick_to_trade) processing
    wait ← publish queue_wait (snapshot m.queue_wait) trade
    some (record {
      gauges = wait;
      tps = prom.set s.tps (prom.double (sub_u64 m.md_msgs_total s.last_md));
      counters = set_counters s.counters m;
      md_queue = prom.set s.md_queue (prom.double m.md_queue_max);
      ord_queue = prom.set s.ord_queue (prom.double m.ord_queue_max);
      log_queue = prom.set s.log_queue (prom.double m.log_queue_max);
      last_md = m.md_msgs_total;
    })

  -- The loop of `run`, for as many rounds as there are readings.
  unfoldable pub run_server : List Metrics → MetricsServer G C → Option (MetricsServer G C)
  run_server [] s = some s
  run_server (m ∷ ms) s = publish_round s m >>= run_server ms
