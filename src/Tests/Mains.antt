-- ===== src/Tests/Mains.antt =====
-- The theorems on the parts of main.cpp, and on the engine as a whole, at concrete inputs.
use mm_engine.Base.{ℕ, ◌≡◌, refl, true, none, some, List, [], ◌∷◌, ◌++◌, arith, codes, All}
use mm_engine.Base.Int.{ℤ, pos}
use mm_engine.Double.Fixed.{thousandths}
use mm_engine.Main.{password_key, read_password}
use mm_engine.Main.Password.{read_password-first}
use mm_engine.Main.Bench.{BenchPrices, Bench, BenchTurn, bench_turns}
use mm_engine.Main.Bench.Producer.{InOrder, bench_start, bench_in_order}
use mm_engine.Fix.Inbound.{SnapshotMsg, ExecMsg}
use mm_engine.Fix.Dispatch.{Incoming}
use mm_engine.Engine.{Engine, Storage, Turn, engine, run_engine}
use mm_engine.Engine.Safety.{Admissible, Safe, run_engine-total}
use mm_engine.Engine.Wire.{wire_ids}
use mm_engine.Engine.Ascending.{Ascending, Differ, texts}
use mm_engine.Engine.Identifiers.{identifiers_on_wire}
use mm_engine.Tests.Data.{
  settings, gg, no_metrics, quote_event, a_report, a_command, a_record, a_snapshot, readings,
}

-- "#", "password=ab" and a carriage return.
read_password-first_example :
    read_password (codes "#" ∷ (password_key ++ (codes "ab" ++ 13 ∷ [])) ∷ []) ≡ codes "ab"
read_password-first_example =
    read_password-first (codes "#" ∷ []) (codes "ab") (13 ∷ []) [] (refl, tt) refl (refl, tt)

abbrev prices : BenchPrices ℤ
prices = record {
  base = pos 1050000;
  narrow = pos 10;
  wide = pos 100;
  step = pos 50;
  double = λ n. pos n;
}

abbrev bench_run : List (BenchTurn ℤ)
bench_run =
    BenchTurn.produce true (pos 1) (pos 3)
    ∷ BenchTurn.produce true (pos 2) (pos 4)
    ∷ BenchTurn.pop
    ∷ []

bench_in_order_example :
    (b : Bench ℤ) × (bench_turns prices 2 9 bench_run (bench_start quote_event no_metrics) ≡ some b)
    × InOrder b
bench_in_order_example =
    bench_in_order prices 2 9 quote_event no_metrics bench_run (λ e. absurd (omega (arith, e))) refl
      (refl, (refl, (tt, tt)))

abbrev storage : Storage ℤ
storage = record {
  event = quote_event;
  report = a_report;
  command = a_command;
  log = a_record;
  snapshot = a_snapshot;
}

abbrev report_msg : ExecMsg ℤ
report_msg = record {
  cl_ord_id = some (codes "7000");
  exec_type = none;
  is_partial = none;
  is_buy = some true;
  symbol = some gg;
  last_px = none;
  last_qty = none;
  leaves_qty = none;
  order_id = none;
}

abbrev snapshot_msg : SnapshotMsg ℤ
snapshot_msg = record { symbol = some gg; count = some (pos 0); entries = [] }

abbrev turns : List (Turn ℤ)
turns =
    Turn.logon
    ∷ Turn.message (pos 1) (Incoming.snapshot snapshot_msg)
    ∷ Turn.message (pos 2) (Incoming.report report_msg)
    ∷ Turn.rounds readings
    ∷ Turn.send (pos 3 ∷ [])
    ∷ []

admissible : All (Admissible settings) turns
admissible = (tt, (tt, ((0, omega arith, refl), (tt, (tt, tt)))))

run_engine-total_example :
    (e : Engine ℤ) × (run_engine settings turns
        (engine settings storage no_metrics (codes "ab") 7000000 7000001)
      ≡ some e)
    × Safe settings e
run_engine-total_example =
    run_engine-total settings storage no_metrics (codes "ab") 7000000 7000001 turns admissible

identifiers_on_wire_example :
    (e : Engine ℤ) × (ns : List ℕ) × (run_engine settings turns
        (engine settings storage no_metrics (codes "ab") 7000000 7000001)
      ≡ some e)
    × Ascending 0 10 ns
    × (wire_ids e.sent ≡ texts 7000 ns)
    × Differ (wire_ids e.sent)
identifiers_on_wire_example =
    identifiers_on_wire settings storage no_metrics (codes "ab") 7000000 7000001 turns admissible
      (omega arith)
