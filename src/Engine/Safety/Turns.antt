-- ===== src/Engine/Safety/Turns.antt =====
-- What each turn of a thread of src/main.cpp does to what waits in the rings and to the tables.
use mm_engine.Base.{◌+◌, ◌≡◌, refl, ◌∙◌, Option, none, some, List, [], ◌∷◌, arith, All, u32}
use mm_engine.Base.Int.{ℤ}
use mm_engine.Double.{Double}
use mm_engine.Config.{EngineConfig}
use mm_engine.Events.{MdEvent}
use mm_engine.Ring.Queue
use mm_engine.Ring.Elements.{Carries, try_push-Carries}
use mm_engine.Strategy.{Readings, exec_bits, md_bits, ord_bits}
use mm_engine.Strategy.Total.{Sized, ReportListed, SnapshotListed, round-total}
use mm_engine.Strategy.Rounds.{Fed}
use mm_engine.Strategy.Listed.{CommandListed, round-commands}
use mm_engine.Fix.{FixApp}
use mm_engine.Fix.Inbound.{
  SnapshotMsg, ExecMsg, parse_snapshot, deliver, deliver_if, on_snapshot, on_report, exec_event,
}
use mm_engine.Fix.Outbound.{Message}
use mm_engine.Engine.{Engine, Turn, lend, give_back, with_maker, report_fuel, turn}
use mm_engine.Engine.Tables.{
  Tabled, NamesKnown, parse_snapshot-SnapshotListed, exec_event-ReportListed,
}
use mm_engine.Engine.Sending.{send_all-Sends}

module _ {W : Type 0} ⦃d : Double W⦄ (cfg : EngineConfig W) where
  -- What waits in the rings names symbols of the table, and the tables have their sizes.
  pub record Safe (e : Engine W) : Type 0 where
    pub reports : Carries exec_bits ReportListed e.maker.exec
    pub snapshots : Carries md_bits SnapshotListed e.maker.md
    pub commands : Carries ord_bits CommandListed e.maker.out
    pub sized : Sized e.maker
    pub tabled : Tabled cfg e.app

  -- A turn that leaves the strategy's tables and its ring of orders.
  pub received :
      (e : Engine W) (app : FixApp W) (messages : List (Message W))
      → Safe e
      → Carries exec_bits ReportListed app.exec
      → Carries md_bits SnapshotListed app.md
      → app.symbols ≡ e.app.symbols
      → app.n_symbols ≡ e.app.n_symbols
      → Safe (give_back e app messages)
  received e app messages s reports snapshots same_symbols same_n = record {
    reports = reports;
    snapshots = snapshots;
    commands = s.commands;
    sized = record { quotes = s.sized.quotes; all_books = s.sized.all_books };
    tabled = record {
      symbols = same_symbols ∙ s.tabled.symbols;
      n_symbols = same_n ∙ s.tabled.n_symbols;
    };
  }

  pub snapshot-Safe :
      (e : Engine W) (t0 : ℤ) (msg : SnapshotMsg W)
      → Safe e
      → Safe (give_back e (on_snapshot (lend e) t0 msg) [])
  unfolding on_snapshot deliver
  snapshot-Safe e t0 msg s = go (parse_snapshot app t0 msg) refl
    where
      app : FixApp W
      app = record (lend e) { md_seq = u32 ((lend e).md_seq + 1) }

      tabled : Tabled cfg app
      tabled = record { symbols = s.tabled.symbols; n_symbols = s.tabled.n_symbols }

      go :
          (o : Option (MdEvent W))
          → parse_snapshot app t0 msg ≡ o
          → Safe (give_back e (deliver_if app o) [])
      go none is = received e app [] s s.reports s.snapshots refl refl
      go (some ev) is =
          received e (deliver app ev) [] s s.reports
            (try_push-Carries md_bits SnapshotListed ev
              (parse_snapshot-SnapshotListed cfg app t0 msg ev tabled is) s.snapshots)
            refl refl

  pub report-Safe :
      (e : Engine W) (now : ℤ) (msg : ExecMsg W)
      → NamesKnown cfg msg.symbol
      → Safe e
      → Safe (give_back e (on_report (lend e) now msg) [])
  unfolding on_report
  report-Safe e now msg k s =
      received e (on_report (lend e) now msg) [] s
        (try_push-Carries exec_bits ReportListed (exec_event (lend e) now msg)
          (exec_event-ReportListed cfg (lend e) now msg
            (record { symbols = s.tabled.symbols; n_symbols = s.tabled.n_symbols }) k)
          s.reports)
        s.snapshots refl refl

  -- A round of the strategy.
  pub rounds-Safe :
      (e : Engine W) (now : Readings)
      → Safe e
      → (e' : Engine W) × (turn cfg e (Turn.rounds now) ≡ some e') × Safe e'
  unfolding turn Queue.pop
  rounds-Safe e now s =
      let (m, is, no_reports, snapshots, sized) =
        round-total cfg report_fuel e.maker now s.reports.waiting s.snapshots.waiting
          s.reports.holds s.snapshots.holds s.reports.all s.snapshots.all s.sized
          (omega (arith, s.reports.holds.fits)) in
      let fed : Fed ReportListed e.maker.exec = record {
        waiting = s.reports.waiting;
        holds = s.reports.holds;
        all_reported = s.reports.all;
      } in
      (
        with_maker e m,
        rw is refl,
        record {
          reports = record { waiting = []; holds = no_reports; all = tt };
          snapshots = record {
            waiting = (Queue.pop s.snapshots.waiting).1;
            holds = snapshots;
            all = pop-All s.snapshots.waiting s.snapshots.all;
          };
          commands =
              round-commands cfg ReportListed report_fuel e.maker now fed s.sized.quotes s.commands
                is;
          sized = sized;
          tabled = s.tabled;
        },
      )
    where
      pop-All : (q : List (MdEvent W)) → All SnapshotListed q → All SnapshotListed (Queue.pop q).1
      pop-All [] a = a
      pop-All (x ∷ q) (_, a) = a

  pub send-Safe :
      (e : Engine W) (readings : List ℤ)
      → Safe e
      → (e' : Engine W) × (turn cfg e (Turn.send readings) ≡ some e') × Safe e'
  unfolding turn
  send-Safe e readings s =
      let sends =
        send_all-Sends cfg readings e.maker.out (lend e) s.commands
          (record { symbols = s.tabled.symbols; n_symbols = s.tabled.n_symbols }) in
      (
        with_maker (give_back e sends.after sends.messages)
            (record e.maker { out = sends.out; metrics = sends.after.metrics }),
        rw sends.is refl,
        record {
          reports = s.reports;
          snapshots = s.snapshots;
          commands = sends.commands;
          sized = record { quotes = s.sized.quotes; all_books = s.sized.all_books };
          tabled = record {
            symbols = sends.symbols ∙ s.tabled.symbols;
            n_symbols = sends.n_symbols ∙ s.tabled.n_symbols;
          };
        },
      )
