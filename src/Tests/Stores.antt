-- ===== src/Tests/Stores.antt =====
-- The persister's theorems with one snapshot and one trade in the rings.
use mm_engine.Base.{◌≡◌, refl, true, false, [], ◌∷◌, arith}
use mm_engine.Base.Int.{ℤ}
use mm_engine.Ring.Queue
use mm_engine.Ring.{empty, try_push}
use mm_engine.Ring.Refine.{Represents, empty-Represents, try_push_refines}
use mm_engine.Strategy.{store_bits}
use mm_engine.Persister.{Persister, Look, snap_entry, trade_entry, store_round, run_persister}
use mm_engine.Persister.Shutdown.{StoredAll, all_entries, run_persister-StoredAll}
use mm_engine.Persister.Keys.{key_lt, keys_in_order}
use mm_engine.Persister.Rounds.{store_round-lost}
use mm_engine.Tests.Data.{a_report, a_snapshot}

abbrev persister : Persister ℤ
persister = record {
  snaps = (try_push store_bits (empty 12 a_snapshot) a_snapshot).1;
  trades = (try_push store_bits (empty 12 a_report) a_report).1;
  snap_seq = 4;
  trade_seq = 9;
}

one_snapshot : Represents store_bits persister.snaps (a_snapshot ∷ [])
unfolding Queue.push
one_snapshot =
    (try_push_refines store_bits (empty-Represents store_bits a_snapshot (omega arith))
      a_snapshot).1

one_trade : Represents store_bits persister.trades (a_report ∷ [])
unfolding Queue.push
one_trade =
    (try_push_refines store_bits (empty-Represents store_bits a_report (omega arith)) a_report).1

abbrev on_look : Look
on_look = record { running = true; begins = true; begins_late = true }

abbrev off_look : Look
off_look = record { running = false; begins = true; begins_late = true }

run_persister-StoredAll_example :
    StoredAll
      (all_entries persister (a_snapshot ∷ []) (a_report ∷ []))
      (run_persister 2 (on_look ∷ off_look ∷ off_look ∷ []) persister)
run_persister-StoredAll_example =
    run_persister-StoredAll 2 (on_look ∷ []) off_look off_look persister (a_snapshot ∷ [])
      (a_report ∷ []) ((refl, refl), tt) (refl, refl) refl refl one_snapshot one_trade (omega arith)
      (omega arith)

-- Number 9 stands before number 10.
keys_in_order_example :
    (key_lt (trade_entry 9 a_report).0 (trade_entry 10 a_report).0 ≡ true)
    × (key_lt (snap_entry 9 a_snapshot).0 (snap_entry 10 a_snapshot).0 ≡ true)
keys_in_order_example =
    keys_in_order 9 10 a_report a_report a_snapshot a_snapshot (omega arith) (omega arith) refl

store_round-lost_example :
    ((store_round 1 false false persister).0 ≡ [])
    × Represents store_bits (store_round 1 false false persister).1.snaps []
    × Represents store_bits (store_round 1 false false persister).1.trades []
unfolding Queue.pop
store_round-lost_example =
    store_round-lost 0 persister (a_snapshot ∷ []) (a_report ∷ []) one_snapshot one_trade
