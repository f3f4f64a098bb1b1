-- ===== src/Persister.antt =====
-- src/storage/lmdb_persister.hpp: the persister's two rings, `open` and the loop of `run`. LMDB is outside:
-- which of its calls succeed is an argument, and a round gives what it puts, under which keys,
-- in the transaction that it commits.
pub mod Rounds
pub mod Shutdown
pub mod Keys
use mm_engine.Base.{
  ℕ, zero, suc, ◌+◌, ◌-◌, Bool, true, false, Option, none, some, List, [], ◌∷◌, ◌++◌, ◌||◌,
  if◌then◌else◌, ltb, u64, length, replicate,
}
use mm_engine.Events.{BookSnapshot, ExecEvent}
use mm_engine.Ring.{Ring, try_push, try_pop, size_approx}
use mm_engine.Strategy.{store_bits}
use mm_engine.Fix.Outbound.{decimal}

pub record Persister (W : Type 0) : Type 0 where
  pub snaps : Ring (BookSnapshot W)
  pub trades : Ring (ExecEvent W)
  pub snap_seq : ℕ
  pub trade_seq : ℕ

-- A value that is put.
pub data Stored (W : Type 0) : Type 0 where
  snapshot : BookSnapshot W → Stored W
  trade : ExecEvent W → Stored W

-- `%010llu`
abbrev pub padded : ℕ → List ℕ
padded n = replicate (10 - length (decimal n)) 48 ++ decimal n

module _ {W : Type 0} where
  -- "ob|", the symbol, "|" and the number; "tr|" and the number.
  abbrev pub snap_entry : ℕ → BookSnapshot W → List ℕ × Stored W
  snap_entry seq s =
      ((111 ∷ 98 ∷ 124 ∷ []) ++ decimal s.symbol_id ++ (124 ∷ []) ++ padded seq, Stored.snapshot s)

  abbrev pub trade_entry : ℕ → ExecEvent W → List ℕ × Stored W
  trade_entry seq e = ((116 ∷ 114 ∷ 124 ∷ []) ++ padded seq, Stored.trade e)

  unfoldable pub push_snapshot : Persister W → BookSnapshot W → Bool × Persister W
  push_snapshot p s =
      let (done, ring) = try_push store_bits p.snaps s in (done, record p { snaps = ring })

  unfoldable pub push_trade : Persister W → ExecEvent W → Bool × Persister W
  push_trade p e =
      let (done, ring) = try_push store_bits p.trades e in (done, record p { trades = ring })

-- What an inner loop leaves: its puts, its ring, the next number, and whether there is a transaction.
pub record Batch (A B : Type 0) : Type 0 where
  pub puts : List B
  pub ring : Ring A
  pub seq : ℕ
  pub txn : Bool

module _ {A B : Type 0} (entry : ℕ → A → B) (begins : Bool) where
  abbrev pub put_first : B → Batch A B → Batch A B
  put_first b batch = record batch { puts = b ∷ batch.puts }

  -- The body of an inner loop on what the pop gave; an item popped when no transaction begins is
  -- dropped.
  abbrev pub store_next :
      Option A → Ring A → (seq : ℕ) → (txn : Bool) → (Ring A → ℕ → Bool → Batch A B) → Batch A B
  store_next none ring seq txn rest = record { puts = []; ring = ring; seq = seq; txn = txn }
  store_next (some a) ring seq txn rest =
      if txn || begins
      then put_first (entry seq a) (rest ring (u64 (seq + 1)) true)
      else record { puts = []; ring = ring; seq = seq; txn = false }

  -- An inner loop, for at most `fuel` items.
  unfoldable pub store_loop : (fuel : ℕ) → Ring A → (seq : ℕ) → (txn : Bool) → Batch A B
  store_loop zero ring seq txn = record { puts = []; ring = ring; seq = seq; txn = txn }
  store_loop (suc fuel) ring seq txn =
      let (out, ring') = try_pop store_bits ring in store_next out ring' seq txn (store_loop fuel)

module _ {W : Type 0} where
  -- One round of `run`: the snapshots, then the trades, in one transaction; `begins` and
  -- `begins_late` are the outcomes of `mdb_txn_begin` in the two loops.
  unfoldable pub store_round :
      (fuel : ℕ)
      → (begins begins_late : Bool) → Persister W
      → List (List ℕ × Stored W) × Persister W
  store_round fuel begins begins_late p =
      let first = store_loop snap_entry begins fuel p.snaps p.snap_seq false in
      let second = store_loop trade_entry begins_late fuel p.trades p.trade_seq first.txn in
      (
        first.puts ++ second.puts,
        record {
          snaps = first.ring;
          trades = second.ring;
          snap_seq = first.seq;
          trade_seq = second.seq;
        },
      )

-- What the loop of `run` reads of the flag at its head, and the outcomes of `mdb_txn_begin` in the
-- round after it.
pub record Look : Type 0 where
  pub running : Bool
  pub begins : Bool
  pub begins_late : Bool

module _ {W : Type 0} where
  -- `running || snap_ring_.size_approx() || trade_ring_.size_approx()`
  abbrev pub keeps_on : Bool → Persister W → Bool
  keeps_on running p = running || (ltb 0 (size_approx p.snaps) || ltb 0 (size_approx p.trades))

  -- The loop of `run`, for as many rounds as there are looks: whether it has ended, what it has put,
  -- and the rings.
  unfoldable pub run_persister :
      (fuel : ℕ) → List Look → Persister W → Bool × List (List ℕ × Stored W) × Persister W
  run_persister fuel [] p = (false, [], p)
  run_persister fuel (l ∷ looks) p =
      let (puts, p') = store_round fuel l.begins l.begins_late p in
      let (ended, later, last) = run_persister fuel looks p' in
      if keeps_on l.running p then (ended, puts ++ later, last) else (true, [], p)

-- The calls of LMDB that `open` makes after `mdb_env_create`.
pub data LmdbCall : Type 0 where
  set_mapsize env_open txn_begin dbi_open txn_abort txn_commit : LmdbCall

-- Which calls of `open` succeed.
pub record Outcomes : Type 0 where
  pub created : Bool
  pub opened : Bool
  pub begun : Bool
  pub found : Bool

unfoldable pub open_lmdb : Outcomes → Bool × List LmdbCall
open_lmdb o =
    let begin = LmdbCall.set_mapsize ∷ LmdbCall.env_open ∷ LmdbCall.txn_begin ∷ [] in
    if o.created
    then (if o.opened
        then (if o.begun
            then (if o.found
                then (true, begin ++ LmdbCall.dbi_open ∷ LmdbCall.txn_commit ∷ [])
                else (false, begin ++ LmdbCall.dbi_open ∷ LmdbCall.txn_abort ∷ []))
            else (false, begin))
        else (false, LmdbCall.set_mapsize ∷ LmdbCall.env_open ∷ []))
    else (false, [])
