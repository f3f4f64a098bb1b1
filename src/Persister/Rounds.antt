-- ===== src/Persister/Rounds.antt =====
-- src/storage/lmdb_persister.hpp: what a round stores, and what it loses.
use mm_engine.Base.{
  ℕ, zero, suc, ◌+◌, ◌<◌, ◌≡◌, refl, ap, Bool, true, false, List, [], ◌∷◌, ◌++◌, ◌||◌, u64, length,
  arith,
}
use mathlib.Core.Path.{ap₂}
use mm_engine.Events.{BookSnapshot, ExecEvent}
use mm_engine.Ring.Queue
use mm_engine.Ring.{Ring, try_pop}
use mm_engine.Ring.Refine.{Represents, try_pop_refines}
use mm_engine.Strategy.{store_bits}
use mm_engine.Persister.{Persister, snap_entry, trade_entry, store_loop, store_round}

module _ {A B : Type 0} (entry : ℕ → A → B) where
  -- The entries for a queue, numbered from `seq` on.
  abbrev pub entries : ℕ → List A → List B
  entries seq [] = []
  entries seq (a ∷ q) = entry seq a ∷ entries (u64 (seq + 1)) q

  store_all :
      (begins : Bool) (fuel : ℕ) (ring : Ring A) (q : List A) (seq : ℕ) (txn : Bool)
      → (txn || begins) ≡ true
      → Represents store_bits ring q
      → length q < fuel
      → let b = store_loop entry begins fuel ring seq txn in
        (b.puts ≡ entries seq q) × Represents store_bits b.ring []
  unfolding store_loop Queue.pop
  store_all begins zero ring q seq txn ok r h = absurd (omega arith)
  store_all begins (suc fuel) ring [] seq txn ok r h =
      let (nothing, after) = try_pop_refines store_bits [] r in rw nothing (refl, after)
  store_all begins (suc fuel) ring (a ∷ q) seq txn ok r h =
      let (oldest, after) = try_pop_refines store_bits (a ∷ q) r in
      let (puts, emptied) =
        store_all begins fuel (try_pop store_bits ring).1 q (u64 (seq + 1)) true refl after
          (omega arith) in
      rw (oldest, ok) (ap (λ t. entry seq a ∷ t) puts, emptied)

  -- With no transaction the loop stops at the first item, which it has popped.
  store_none :
      (fuel : ℕ) (ring : Ring A) (q : List A) (seq : ℕ)
      → Represents store_bits ring q
      → let b = store_loop entry false (suc fuel) ring seq false in
        (b.puts ≡ []) × (b.txn ≡ false) × Represents store_bits b.ring (Queue.pop q).1
  unfolding store_loop Queue.pop
  store_none fuel ring [] seq r =
      let (nothing, after) = try_pop_refines store_bits [] r in rw nothing (refl, refl, after)
  store_none fuel ring (a ∷ q) seq r =
      let (oldest, after) = try_pop_refines store_bits (a ∷ q) r in rw oldest (refl, refl, after)

or_true : (b : Bool) → (b || true) ≡ true
or_true true = refl
or_true false = refl

module _ {W : Type 0} where
  -- When transactions begin and there is fuel for one turn more than there are items in either ring,
  -- a round puts every snapshot and then every trade, in the order of their rings and under
  -- consecutive numbers, and empties both rings.
  pub store_round-entries :
      (fuel : ℕ) (p : Persister W) (snaps : List (BookSnapshot W)) (trades : List (ExecEvent W))
      → Represents store_bits p.snaps snaps
      → Represents store_bits p.trades trades
      → length snaps < fuel
      → length trades < fuel
      → let (puts, p') = store_round fuel true true p in
        (puts ≡ entries snap_entry p.snap_seq snaps ++ entries trade_entry p.trade_seq trades)
        × Represents store_bits p'.snaps []
        × Represents store_bits p'.trades []
  unfolding store_round
  store_round-entries fuel p snaps trades r r' h h' =
      let (first, no_snaps) =
        store_all snap_entry true fuel p.snaps snaps p.snap_seq false refl r h in
      let (second, no_trades) =
        store_all trade_entry true fuel p.trades trades p.trade_seq
          (store_loop snap_entry true fuel p.snaps p.snap_seq false).txn (or_true _) r' h' in
      (ap₂ (λ xs ys. xs ++ ys) first second, no_snaps, no_trades)

  -- When no transaction begins, a round puts nothing and takes the oldest item off each ring.
  pub store_round-lost :
      (fuel : ℕ) (p : Persister W) (snaps : List (BookSnapshot W)) (trades : List (ExecEvent W))
      → Represents store_bits p.snaps snaps
      → Represents store_bits p.trades trades
      → let (puts, p') = store_round (suc fuel) false false p in
        (puts ≡ [])
        × Represents store_bits p'.snaps (Queue.pop snaps).1
        × Represents store_bits p'.trades (Queue.pop trades).1
  unfolding store_round
  store_round-lost fuel p snaps trades r r' =
      let (first, no_txn, snaps_left) = store_none snap_entry fuel p.snaps snaps p.snap_seq r in
      let (second, _, trades_left) = store_none trade_entry fuel p.trades trades p.trade_seq r' in
      rw no_txn (ap₂ (λ xs ys. xs ++ ys) first second, snaps_left, trades_left)
