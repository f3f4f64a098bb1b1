-- ===== src/Engine/Safety.antt =====
-- The engine of src/main.cpp: its tables, and what waits in its rings, under any turns.
mod Turns
use mm_engine.Base.{ℕ, ◌≡◌, refl, ap, ◌∙◌, some, List, [], ◌∷◌, arith, ◌>>=◌, All}
use mm_engine.Double.{Double}
use mm_engine.Config.{EngineConfig}
use mm_engine.Metrics.{Metrics}
use mm_engine.Ring.Refine.{empty-Represents}
use mm_engine.Strategy.{exec_bits, md_bits, ord_bits}
use mm_engine.Strategy.Loop.{market_maker}
use mm_engine.Fix.{fix_app}
use mm_engine.Fix.Dispatch.{Incoming, from_app}
use mm_engine.Fix.Outbound.{on_logon, on_logout, set_password}
use mm_engine.Engine.{Engine, Turn, Storage, engine, lend, turn, run_engine}
use mm_engine.Engine.Tables.{NamesKnown}
pub use Turns.{Safe}
use Turns.{received, snapshot-Safe, report-Safe, rounds-Safe, send-Safe}

module _ {W : Type 0} ⦃d : Double W⦄ (cfg : EngineConfig W) where
  abbrev pub Admissible : Turn W → Type 0
  Admissible (Turn.message now (Incoming.report msg)) = NamesKnown cfg msg.symbol
  Admissible _ = Unit

  -- Any turn.
  turn-Safe :
      (e : Engine W) (t : Turn W)
      → Admissible t
      → Safe cfg e
      → (e' : Engine W) × (turn cfg e t ≡ some e') × Safe cfg e'
  unfolding turn from_app on_logon on_logout
  turn-Safe e (Turn.message now (Incoming.snapshot msg)) k s =
      (_, refl, snapshot-Safe cfg e now msg s)
  turn-Safe e (Turn.message now (Incoming.report msg)) k s =
      (_, refl, report-Safe cfg e now msg k s)
  turn-Safe e (Turn.message now Incoming.other) k s =
      (_, refl, received cfg e (lend e) [] s s.reports s.snapshots refl refl)
  turn-Safe e Turn.logon k s = (_, refl, received cfg e _ _ s s.reports s.snapshots refl refl)
  turn-Safe e Turn.logout k s = (_, refl, received cfg e _ _ s s.reports s.snapshots refl refl)
  turn-Safe e (Turn.rounds now) k s = rounds-Safe cfg e now s
  turn-Safe e (Turn.send readings) k s = send-Safe cfg e readings s
  turn-Safe e (Turn.stored log snaps trades) k s = (
    _,
    refl,
    record {
      reports = s.reports;
      snapshots = s.snapshots;
      commands = s.commands;
      sized = record { quotes = s.sized.quotes; all_books = s.sized.all_books };
      tabled = s.tabled;
    },
  )

  run_engine-Safe :
      (ts : List (Turn W)) (e : Engine W)
      → All Admissible ts
      → Safe cfg e
      → (e' : Engine W) × (run_engine cfg ts e ≡ some e') × Safe cfg e'
  unfolding run_engine
  run_engine-Safe [] e a s = (e, refl, s)
  run_engine-Safe (t ∷ ts) e (k, a) s =
      let (e₁, is, s₁) = turn-Safe e t k s in
      let (e', rest, s') = run_engine-Safe ts e₁ a s₁ in
      (e', ap (λ o. o >>= run_engine cfg ts) is ∙ rest, s')

  engine-Safe :
      (a : Storage W) (metrics : Metrics) (password : List ℕ) (made started : ℕ)
      → Safe cfg (engine cfg a metrics password made started)
  unfolding engine market_maker fix_app set_password
  engine-Safe a metrics password made started = record {
    reports = record {
      waiting = [];
      holds = empty-Represents exec_bits a.report (omega arith);
      all = tt;
    };
    snapshots = record {
      waiting = [];
      holds = empty-Represents md_bits a.event (omega arith);
      all = tt;
    };
    commands = record {
      waiting = [];
      holds = empty-Represents ord_bits a.command (omega arith);
      all = tt;
    };
    sized = record { quotes = refl; all_books = refl };
    tabled = record { symbols = refl; n_symbols = refl };
  }

  -- From what `main` makes in live mode on, whatever comes in, in whatever order the threads take
  -- their turns: if every report names no symbol or one of the first eight of the settings, no turn
  -- reads outside a table, and all that waits in the rings of snapshots, reports and commands names
  -- symbols of the table.
  pub run_engine-total :
      (a : Storage W) (metrics : Metrics) (password : List ℕ) (made started : ℕ)
      (ts : List (Turn W))
      → All Admissible ts
      → (e : Engine W) × (run_engine cfg ts (engine cfg a metrics password made started) ≡ some e)
        × Safe cfg e
  run_engine-total a metrics password made started ts admissible =
      run_engine-Safe ts (engine cfg a metrics password made started) admissible
        (engine-Safe a metrics password made started)
