-- ===== src/Tests/Fills.antt =====
-- The strategy takes a fill and an acknowledgement.
use mm_engine.Base.{ℕ, ◌≡◌, refl, true, false, some, List, [], ◌∷◌, arith, length, codes}
use mm_engine.Base.Int.{ℤ, pos}
use mm_engine.Double.Fixed.{thousandths}
use mm_engine.Events.{ExecEvent, ExecKind}
use mm_engine.Ring.Queue
use mm_engine.Ring.{try_push}
use mm_engine.Ring.Refine.{Represents, empty-Represents, try_push_refines}
use mm_engine.Strategy.{MarketMaker, exec_bits, store_bits, log_bits}
use mm_engine.Strategy.Loop.{market_maker, drain, fill_log}
use mm_engine.Strategy.Fills.{Recorded, drain-Recorded}
use mm_engine.Persister.{Look}
use mm_engine.Logger.{header}
use mm_engine.Engine.History.{Remembered, fills-Remembered}
use mm_engine.Tests.Data.{maker, a_report, a_record, a_snapshot}

abbrev a_fill : ExecEvent ℤ
a_fill = record a_report { kind = ExecKind.filled; last_px = pos 101000; last_qty = pos 10000 }

abbrev filled_maker : MarketMaker ℤ
filled_maker = record maker {
  exec = (try_push exec_bits (try_push exec_bits maker.exec a_report).1 a_fill).1;
}

two_reports : Represents exec_bits filled_maker.exec (a_report ∷ a_fill ∷ [])
unfolding market_maker Queue.push
two_reports =
    (try_push_refines exec_bits
      (try_push_refines exec_bits (empty-Represents exec_bits a_report (omega arith)) a_report).1
      a_fill).1

no_trades : Represents store_bits filled_maker.trades []
unfolding market_maker
no_trades = empty-Represents store_bits a_report (omega arith)

no_logs : Represents log_bits filled_maker.log []
unfolding market_maker
no_logs = empty-Represents log_bits a_record (omega arith)

eight_rows : length filled_maker.oms ≡ 8
unfolding market_maker
eight_rows = refl

drain-Recorded_example :
    Recorded filled_maker.oms
      (a_report ∷ a_fill ∷ [])
      (a_fill ∷ [])
      (fill_log a_fill ∷ [])
      (drain 3 filled_maker)
drain-Recorded_example =
    drain-Recorded 3 filled_maker (a_report ∷ a_fill ∷ []) [] [] two_reports no_trades no_logs
      (omega arith, (omega arith, tt)) eight_rows (omega arith)

abbrev off_look : Look
off_look = record { running = false; begins = true; begins_late = true }

no_snaps : Represents store_bits maker.snaps []
unfolding market_maker
no_snaps = empty-Represents store_bits a_snapshot (omega arith)

-- Every price prints as "1.0".
abbrev one_text : ℕ → ℤ → List ℕ
one_text n x = codes "1.0"

fills-Remembered_example :
    Remembered one_text 3 filled_maker
      (a_report ∷ a_fill ∷ [])
      maker.snaps
      0
      9
      (some header)
      (off_look ∷ [])
      (true ∷ [])
fills-Remembered_example =
    fills-Remembered one_text 3 filled_maker (a_report ∷ a_fill ∷ []) maker.snaps 0 9 (some header)
      (off_look ∷ []) (true ∷ []) two_reports no_trades no_logs no_snaps
      (omega arith, (omega arith, tt)) ((refl, refl), tt) eight_rows (omega arith) (omega arith)
