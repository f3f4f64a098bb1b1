-- ===== src/Tests/Servers.antt =====
-- The theorems on the metrics server at concrete totals.
use mm_engine.Base.{ℕ, ◌*◌, ◌≡◌, refl, some, [], ◌∷◌, arith}
use mm_engine.Base.Int.{ℤ, pos, ◌+ℤ◌, ◌*ℤ◌, int_laws, -ℤ_parts}
use mm_engine.Double.Fixed.{thousandths}
use mm_engine.Metrics.{Metrics}
use mm_engine.Server.{Prometheus, MetricsServer, metrics_server, publish_round, run_server}
use mm_engine.Server.Gauges.{table, updated}
use mm_engine.Server.Totals.{
  IsCounting, totals, AllShow, highest_totals, no_totals, run_server-shows, raise, last_total,
}
use mm_engine.Tests.Data.{no_metrics}

-- A gauge and a counter that are their values.
abbrev plain : Prometheus ℤ ℤ ℤ
plain = record {
  new_gauge = pos 0;
  new_counter = pos 0;
  set = λ g x. x;
  value = λ c. c;
  increment = λ c x. c +ℤ x;
  double = λ n. pos (n * 1000);
  signed = λ n. n *ℤ pos 1000;
}

counting : IsCounting plain
counting = record {
  new_value = refl;
  value_increment = λ c x h. refl;
  double_lt = λ m n h k. ground arith;
  sub_positive = λ m n h k l. ground (arith, -ℤ_parts (pos (n * 1000)) (pos (m * 1000)));
  add_sub = λ m n h k. omega int_laws;
}

abbrev five : Metrics
five = record no_metrics { md_msgs_total = 5; orders_sent_total = 2 }

abbrev nine : Metrics
nine = record no_metrics { md_msgs_total = 9; orders_sent_total = 2 }

-- The second round finds four messages more.
run_server-shows_example :
    (s : MetricsServer ℤ ℤ) × (s' : MetricsServer ℤ ℤ) × (run_server plain
        (five ∷ [])
        (metrics_server plain)
      ≡ some s)
    × (publish_round plain s nine ≡ some s')
    × AllShow plain s'.counters (raise (highest_totals no_totals (five ∷ [])) (totals nine))
    × ((g : ℕ → ℤ) × (s'.gauges ≡ table (updated plain g nine)))
    × (s'.tps ≡ plain.set s.tps (plain.double 4))
unfolding last_total
run_server-shows_example =
    run_server-shows plain counting (five ∷ []) nine
      ((omega arith, omega arith, omega arith, omega arith, omega arith), tt)
      (omega arith, omega arith, omega arith, omega arith, omega arith)
