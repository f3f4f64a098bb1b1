-- ===== src/Server/Gauges.antt =====
-- src/metrics/metrics_server.hpp: what the gauges show after a round.
use mm_engine.Base.{ℕ, ◌+◌, ◌≡◌, refl, some, List, [], ◌∷◌, ◌++◌, same_text, get_or, sub_u64}
use mm_engine.Base.Int.{ℤ, pos}
use mm_engine.Double.{Double}
use mm_engine.Histogram.{Percentiles, snapshot}
use mm_engine.Metrics.{Metrics}
use mm_engine.Server.{
  Prometheus, MetricsServer, md_processing, tick_to_trade, queue_wait, p50_of, p90_of, p99_of,
  max_of, set_gauge, publish, set_counters, publish_round, metrics_server,
}

-- The names of the gauges, flow by flow.
abbrev names_of : List ℕ → List (List ℕ)
names_of flow = p50_of flow ∷ p90_of flow ∷ p99_of flow ∷ max_of flow ∷ []

abbrev names : List (List ℕ)
names = names_of md_processing ++ names_of tick_to_trade ++ names_of queue_wait

-- The figures that go with the names.
abbrev figures_of : Percentiles → List ℤ
figures_of p = p.p50 ∷ p.p90 ∷ p.p99 ∷ p.max ∷ []

abbrev pub figures : Metrics → List ℤ
figures m =
    figures_of (snapshot m.md_processing)
    ++ figures_of (snapshot m.tick_to_trade)
    ++ figures_of (snapshot m.queue_wait)

-- The map in which the gauge at place `i` of the names is `g i`.
abbrev label {ℓ} : {G : Type ℓ} → (ℕ → G) → (i : ℕ) → List (List ℕ) → List (List ℕ × G)
label g i [] = []
label g i (name ∷ more) = (name, g i) ∷ label g (i + 1) more

abbrev pub table {ℓ} : {G : Type ℓ} → (ℕ → G) → List (List ℕ × G)
table g = label g 0 names

module _ {W G C : Type 0} ⦃d : Double W⦄ (prom : Prometheus W G C) where
  pub metrics_server-table : (metrics_server prom).gauges ≡ table (λ i. prom.new_gauge)
  unfolding metrics_server
  metrics_server-table = refl

  -- The gauges once each is set to its figure.
  abbrev pub updated : (ℕ → G) → Metrics → ℕ → G
  updated g m i = prom.set (g i) (prom.signed (get_or (figures m) i (pos 0)))

  -- What the server is after a round.
  abbrev pub shown : (ℕ → G) → MetricsServer G C → Metrics → MetricsServer G C
  shown g s m = record {
    gauges = table (updated g m);
    tps = prom.set s.tps (prom.double (sub_u64 m.md_msgs_total s.last_md));
    counters = set_counters prom s.counters m;
    md_queue = prom.set s.md_queue (prom.double m.md_queue_max);
    ord_queue = prom.set s.ord_queue (prom.double m.ord_queue_max);
    log_queue = prom.set s.log_queue (prom.double m.log_queue_max);
    last_md = m.md_msgs_total;
  }

  -- With the gauges of the constructor, whatever they show, a round sets each of the twelve to its
  -- flow's percentile or maximum, the throughput to the messages since the last round, the queues
  -- to their marks, and goes on with the same gauges.
  pub publish_round-shown :
      (g : ℕ → G) (s : MetricsServer G C) (m : Metrics)
      → s.gauges ≡ table g
      → publish_round prom s m ≡ some (shown g s m)
  unfolding publish_round publish set_gauge same_text
  publish_round-shown g s m built = rw built refl
