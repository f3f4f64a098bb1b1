-- ===== src/Server/Totals.antt =====
-- src/metrics/metrics_server.hpp: what the counters show after any number of rounds.
use mm_engine.Base.{
  ℕ, ◌<◌, ◌^◌, ◌≡◌, refl, ◌∙◌, ap, true, inl, inr, some, List, [], ◌∷◌, All, arith, ltb, ltb→lt,
  sub_u64, Option, Bool-cases, ◌>>=◌,
}
use mm_engine.Double.{Double}
use mm_engine.Metrics.{Metrics, track_max}
use mm_engine.Server.{
  Prometheus, Counters, MetricsServer, metrics_server, set_counter, set_counters, publish_round,
  run_server,
}
use mm_engine.Server.Gauges.{table, updated, shown, metrics_server-table, publish_round-shown}

-- Integers that a double holds exactly.
abbrev pub Exact : ℕ → Type 0
Exact n = n < 2 ^ 53

-- What the counters and the doubles of such integers keep to: an increment that is positive adds up,
-- and doubles of exact integers compare and subtract as the integers do.
pub record IsCounting {W G C : Type 0} ⦃d : Double W⦄ (prom : Prometheus W G C) : Type 0 where
  pub new_value : prom.value prom.new_counter ≡ prom.double 0
  pub value_increment :
      (c : C) (x : W)
      → d.lt d.nought x ≡ true
      → prom.value (prom.increment c x) ≡ d.add (prom.value c) x
  pub double_lt : (m n : ℕ) → Exact m → Exact n → d.lt (prom.double m) (prom.double n) ≡ ltb m n
  pub sub_positive :
      (m n : ℕ)
      → Exact m
      → Exact n
      → m < n
      → d.lt d.nought (d.sub (prom.double n) (prom.double m)) ≡ true
  pub add_sub :
      (m n : ℕ)
      → Exact m
      → Exact n
      → d.add (prom.double m) (d.sub (prom.double n) (prom.double m)) ≡ prom.double n

-- The totals of the code, in the order of the counters.
abbrev pub totals : Metrics → Counters ℕ
totals m = record {
  md = m.md_msgs_total;
  drop = m.md_dropped_total;
  orders = m.orders_sent_total;
  cxl = m.cancels_sent_total;
  exec = m.execs_total;
}

abbrev pub AllExact : Counters ℕ → Type 0
AllExact n = Exact n.md × Exact n.drop × Exact n.orders × Exact n.cxl × Exact n.exec

-- The higher of two totals, counter by counter.
abbrev pub raise : Counters ℕ → Counters ℕ → Counters ℕ
raise n t = record {
  md = track_max n.md t.md;
  drop = track_max n.drop t.drop;
  orders = track_max n.orders t.orders;
  cxl = track_max n.cxl t.cxl;
  exec = track_max n.exec t.exec;
}

-- The highest totals among readings.
unfoldable pub highest_totals : Counters ℕ → List Metrics → Counters ℕ
highest_totals n [] = n
highest_totals n (m ∷ ms) = highest_totals (raise n (totals m)) ms

-- What `last_md` is after readings.
unfoldable pub last_total : ℕ → List Metrics → ℕ
last_total n [] = n
last_total n (m ∷ ms) = last_total m.md_msgs_total ms

abbrev pub no_totals : Counters ℕ
no_totals = record { md = 0; drop = 0; orders = 0; cxl = 0; exec = 0 }

track_max-Exact : (n t : ℕ) → Exact n → Exact t → Exact (track_max n t)
track_max-Exact n t h k = ground (arith, h, k)

raise-AllExact : (n t : Counters ℕ) → AllExact n → AllExact t → AllExact (raise n t)
raise-AllExact n t (a, b, c, e, f) (a', b', c', e', f') = (
  track_max-Exact n.md t.md a a',
  track_max-Exact n.drop t.drop b b',
  track_max-Exact n.orders t.orders c c',
  track_max-Exact n.cxl t.cxl e e',
  track_max-Exact n.exec t.exec f f',
)

highest_totals-AllExact :
    (ms : List Metrics) (n : Counters ℕ)
    → AllExact n
    → All (λ (m : Metrics). AllExact (totals m)) ms
    → AllExact (highest_totals n ms)
unfolding highest_totals
highest_totals-AllExact [] n h a = h
highest_totals-AllExact (m ∷ ms) n h (k, a) =
    highest_totals-AllExact ms (raise n (totals m)) (raise-AllExact n (totals m) h k) a

module _ {W G C : Type 0} ⦃d : Double W⦄ (prom : Prometheus W G C) where
  abbrev Shows : C → ℕ → Type 0
  Shows c n = prom.value c ≡ prom.double n

  abbrev pub AllShow : Counters C → Counters ℕ → Type 0
  AllShow c n =
      Shows c.md n.md
      × Shows c.drop n.drop
      × Shows c.orders n.orders
      × Shows c.cxl n.cxl
      × Shows c.exec n.exec

  module _ (laws : IsCounting prom) where
    set_counter-Shows :
        (c : C) (n t : ℕ)
        → Exact n
        → Exact t
        → Shows c n
        → Shows (set_counter prom c (prom.double t)) (track_max n t)
    unfolding set_counter
    set_counter-Shows c n t h k e = elim (Bool-cases (ltb n t)) [
      | inl less ↦
          rw (e, laws.double_lt n t h k, less)
            (laws.value_increment c _ (laws.sub_positive n t h k (ltb→lt n t less))
              ∙ (ap (λ x. d.add x (d.sub (prom.double t) (prom.double n))) e
                  ∙ laws.add_sub n t h k))
      | inr enough ↦ rw (e, laws.double_lt n t h k, enough) e
    ]

    set_counters-AllShow :
        (c : Counters C) (n : Counters ℕ) (m : Metrics)
        → AllExact n
        → AllExact (totals m)
        → AllShow c n
        → AllShow (set_counters prom c m) (raise n (totals m))
    set_counters-AllShow c n m (h, h1, h2, h3, h4) (k, k1, k2, k3, k4) (e, e1, e2, e3, e4) = (
      set_counter-Shows c.md n.md m.md_msgs_total h k e,
      set_counter-Shows c.drop n.drop m.md_dropped_total h1 k1 e1,
      set_counter-Shows c.orders n.orders m.orders_sent_total h2 k2 e2,
      set_counter-Shows c.cxl n.cxl m.cancels_sent_total h3 k3 e3,
      set_counter-Shows c.exec n.exec m.execs_total h4 k4 e4,
    )

    -- After some rounds: the gauges are those of the constructor, and the counters show the totals.
    record Ran (ms : List Metrics) (n : Counters ℕ) (last : ℕ) (o : Option (MetricsServer G C))
        : Type 0 where
      after : MetricsServer G C
      is : o ≡ some after
      gauges : ℕ → G
      built : after.gauges ≡ table gauges
      counters : AllShow after.counters (highest_totals n ms)
      last_is : after.last_md ≡ last_total last ms

    run_server-Ran :
        (ms : List Metrics) (g : ℕ → G) (s : MetricsServer G C) (n : Counters ℕ)
        → s.gauges ≡ table g
        → AllExact n
        → All (λ (m : Metrics). AllExact (totals m)) ms
        → AllShow s.counters n
        → Ran ms n s.last_md (run_server prom ms s)
    unfolding run_server highest_totals last_total
    run_server-Ran [] g s n built h a e = record {
      after = s;
      is = refl;
      gauges = g;
      built = built;
      counters = e;
      last_is = refl;
    }
    run_server-Ran (m ∷ ms) g s n built h (k, a) e =
        let rest =
          run_server-Ran ms (updated prom g m) (shown prom g s m) (raise n (totals m)) refl
            (raise-AllExact n (totals m) h k) a (set_counters-AllShow s.counters n m h k e) in
        record {
          after = rest.after;
          is = ap (λ o. o >>= run_server prom ms) (publish_round-shown prom g s m built) ∙ rest.is;
          gauges = rest.gauges;
          built = rest.built;
          counters = rest.counters;
          last_is = rest.last_is;
        }

    -- After the rounds on `ms` from its start and one on `m`, none of which fails: each counter shows
    -- the highest total that was read; each of the twelve gauges of latencies was last set to its
    -- flow's percentile or maximum in `m`, and that of the throughput to the messages since the round
    -- before, modulo 2 ^ 64. No total reaches 2 ^ 53.
    pub run_server-shows :
        (ms : List Metrics) (m : Metrics)
        → All (λ (m : Metrics). AllExact (totals m)) ms
        → AllExact (totals m)
        → (s : MetricsServer G C) × (s' : MetricsServer G C) × (run_server prom ms
              (metrics_server prom)
            ≡ some s)
          × (publish_round prom s m ≡ some s')
          × AllShow s'.counters (raise (highest_totals no_totals ms) (totals m))
          × ((g : ℕ → G) × (s'.gauges ≡ table (updated prom g m)))
          × (s'.tps ≡ prom.set s.tps (prom.double (sub_u64 m.md_msgs_total (last_total 0 ms))))
    unfolding metrics_server
    run_server-shows ms m a k =
        let zero_exact : Exact 0 = omega arith in
        let zeros : AllExact no_totals =
          (zero_exact, zero_exact, zero_exact, zero_exact, zero_exact) in
        let e = laws.new_value in
        let ran =
          run_server-Ran ms (λ i. prom.new_gauge) (metrics_server prom) no_totals
            (metrics_server-table prom) zeros a (e, e, e, e, e) in
        (
          ran.after,
          shown prom ran.gauges ran.after m,
          ran.is,
          publish_round-shown prom ran.gauges ran.after m ran.built,
          set_counters-AllShow ran.after.counters (highest_totals no_totals ms) m
              (highest_totals-AllExact ms no_totals zeros a) k ran.counters,
          (ran.gauges, refl),
          ap (λ last. prom.set ran.after.tps (prom.double (sub_u64 m.md_msgs_total last)))
              ran.last_is,
        )
