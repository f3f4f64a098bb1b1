-- ===== src/Fix/Dispatch.antt =====
-- src/fix/fix_app.hpp: `fromApp`, which hands a message to its handler. `crack` is QuickFIX's; a
-- message of any other type makes it throw, and `fromApp` drops it.
use mm_engine.Base.Int.{ℤ}
use mm_engine.Double.{Double}
use mm_engine.Fix.{FixApp}
use mm_engine.Fix.Inbound.{SnapshotMsg, ExecMsg, on_snapshot, on_report}

pub data Incoming (W : Type 0) : Type 0 where
  snapshot : SnapshotMsg W → Incoming W
  report : ExecMsg W → Incoming W
  other : Incoming W

module _ {W : Type 0} ⦃d : Double W⦄ where
  unfoldable pub from_app : FixApp W → (now : ℤ) → Incoming W → FixApp W
  from_app app now (Incoming.snapshot msg) = on_snapshot app now msg
  from_app app now (Incoming.report msg) = on_report app now msg
  from_app app now Incoming.other = app
