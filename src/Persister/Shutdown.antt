-- ===== src/Persister/Shutdown.antt =====
-- src/storage/lmdb_persister.hpp: the loop of `run` when the engine stops.
use mathlib.Core.List.{append-nil}
use mm_engine.Base.{
  ℕ, ◌+◌, ◌<◌, ◌≡◌, refl, ◌∙◌, Bool, true, false, List, [], ◌∷◌, ◌++◌, length, arith, All,
  Bool-cases, inl, inr,
}
use mathlib.Core.Path.{ap₂}
use mm_engine.Events.{BookSnapshot, ExecEvent}
use mm_engine.Ring.Refine.{Represents, size_approx_lem}
use mm_engine.Strategy.{store_bits}
use mm_engine.Persister.{
  Persister, Stored, Look, snap_entry, trade_entry, store_round, keeps_on, run_persister,
}
use mm_engine.Persister.Rounds.{entries, store_round-entries}

-- Transactions begin.
abbrev pub Begins : Look → Type 0
Begins l = (l.begins ≡ true) × (l.begins_late ≡ true)

module _ {W : Type 0} where
  -- The entries of both queues, the snapshots first.
  abbrev pub all_entries :
      Persister W → List (BookSnapshot W) → List (ExecEvent W) → List (List ℕ × Stored W)
  all_entries p snaps trades =
      entries snap_entry p.snap_seq snaps ++ entries trade_entry p.trade_seq trades

  pub record StoredAll (puts : List (List ℕ × Stored W))
      (out : Bool × List (List ℕ × Stored W) × Persister W) : Type 0 where
    pub ended : out.0 ≡ true
    pub stored : out.1 ≡ puts
    pub no_snaps : Represents store_bits out.2.snaps []
    pub no_trades : Represents store_bits out.2.trades []

  round_stores :
      (fuel : ℕ) (l : Look) (p : Persister W) (snaps : List (BookSnapshot W))
      (trades : List (ExecEvent W))
      → Begins l
      → Represents store_bits p.snaps snaps
      → Represents store_bits p.trades trades
      → length snaps < fuel
      → length trades < fuel
      → let (puts, p') = store_round fuel l.begins l.begins_late p in
        (puts ≡ all_entries p snaps trades)
        × Represents store_bits p'.snaps []
        × Represents store_bits p'.trades []
  round_stores fuel l p snaps trades (b, b') r r' h h' =
      rw (b, b') (store_round-entries fuel p snaps trades r r' h h')

  keeps_on-empty :
      (running : Bool) (p : Persister W)
      → Represents store_bits p.snaps []
      → Represents store_bits p.trades []
      → keeps_on running p ≡ running
  keeps_on-empty true p r r' = refl
  keeps_on-empty false p r r' =
      rw ((size_approx_lem store_bits r).0, (size_approx_lem store_bits r').0) refl

  keeps_on-cases :
      (running : Bool) (p : Persister W) (snaps : List (BookSnapshot W))
      (trades : List (ExecEvent W))
      → Represents store_bits p.snaps snaps
      → Represents store_bits p.trades trades
      → 0 < length snaps + length trades
      → keeps_on running p ≡ true
  keeps_on-cases true p snaps trades r r' h = refl
  keeps_on-cases false p snaps trades r r' h =
      rw ((size_approx_lem store_bits r).0, (size_approx_lem store_bits r').0) (ground arith)

  -- A round, and then a rest with nothing to put.
  joined :
      {puts : List (List ℕ × Stored W)} (xs : List (List ℕ × Stored W))
      {rest : Bool × List (List ℕ × Stored W) × Persister W}
      → puts ≡ xs
      → StoredAll [] rest
      → StoredAll xs (rest.0, puts ++ rest.1, rest.2)
  joined xs e s = record {
    ended = s.ended;
    stored = ap₂ (λ us vs. us ++ vs) e s.stored ∙ append-nil xs;
    no_snaps = s.no_snaps;
    no_trades = s.no_trades;
  }

  run_persister-empty :
      (fuel : ℕ) (looks later : List Look) (l : Look) (p : Persister W)
      → 0 < fuel
      → All Begins looks
      → l.running ≡ false
      → Represents store_bits p.snaps []
      → Represents store_bits p.trades []
      → StoredAll [] (run_persister fuel (looks ++ l ∷ later) p)
  unfolding run_persister
  run_persister-empty fuel [] later l p h b stop r r' =
      rw (keeps_on-empty l.running p r r', stop)
        (record { ended = refl; stored = refl; no_snaps = r; no_trades = r' })
  run_persister-empty fuel (k ∷ looks) later l p h (b, bs) stop r r' =
      let (puts, no_snaps, no_trades) = round_stores fuel k p [] [] b r r' h h in
      let rest =
        run_persister-empty fuel looks later l (store_round fuel k.begins k.begins_late p).1 h bs
          stop no_snaps no_trades in
      rw (keeps_on-empty k.running p r r') (elim (Bool-cases k.running) [
        | inl running ↦ rw running (joined [] puts rest)
        | inr stopped ↦
            rw stopped (record { ended = refl; stored = refl; no_snaps = r; no_trades = r' })
      ])

  run_persister-full :
      (fuel : ℕ) (k : Look) (looks later : List Look) (l : Look) (p : Persister W)
      (snaps : List (BookSnapshot W)) (trades : List (ExecEvent W))
      → Begins k
      → All Begins looks
      → l.running ≡ false
      → Represents store_bits p.snaps snaps
      → Represents store_bits p.trades trades
      → length snaps < fuel
      → length trades < fuel
      → keeps_on k.running p ≡ true
      → StoredAll (all_entries p snaps trades) (run_persister fuel (k ∷ (looks ++ l ∷ later)) p)
  unfolding run_persister
  run_persister-full fuel k looks later l p snaps trades b bs stop r r' h h' on =
      let (puts, no_snaps, no_trades) = round_stores fuel k p snaps trades b r r' h h' in
      let rest =
        run_persister-empty fuel looks later l (store_round fuel k.begins k.begins_late p).1
          (omega arith) bs stop no_snaps no_trades in
      rw on (joined (all_entries p snaps trades) puts rest)

  run_persister-first :
      (fuel : ℕ) (k : Look) (looks later : List Look) (l : Look) (p : Persister W)
      (snaps : List (BookSnapshot W)) (trades : List (ExecEvent W))
      → Begins k
      → All Begins looks
      → l.running ≡ false
      → Represents store_bits p.snaps snaps
      → Represents store_bits p.trades trades
      → length snaps < fuel
      → length trades < fuel
      → StoredAll (all_entries p snaps trades) (run_persister fuel (k ∷ (looks ++ l ∷ later)) p)
  run_persister-first fuel k looks later l p [] [] b bs stop r r' h h' =
      run_persister-empty fuel (k ∷ looks) later l p h (b, bs) stop r r'
  run_persister-first fuel k looks later l p (s ∷ snaps) trades b bs stop r r' h h' =
      run_persister-full fuel k looks later l p (s ∷ snaps) trades b bs stop r r' h h'
        (keeps_on-cases k.running p (s ∷ snaps) trades r r' (omega arith))
  run_persister-first fuel k looks later l p [] (t ∷ trades) b bs stop r r' h h' =
      run_persister-full fuel k looks later l p [] (t ∷ trades) b bs stop r r' h h'
        (keeps_on-cases k.running p [] (t ∷ trades) r r' (omega arith))

  -- Once the engine has stopped and no one pushes any more, the loop ends at the second look at the
  -- flag at the latest, whatever it read before, and has put every snapshot and then every trade, in
  -- the order of their rings and under consecutive numbers, if transactions begin and there is fuel
  -- for one turn more than there are items in either ring. Both rings are empty then.
  pub run_persister-StoredAll :
      (fuel : ℕ) (looks : List Look) (stop last : Look) (p : Persister W)
      (snaps : List (BookSnapshot W)) (trades : List (ExecEvent W))
      → All Begins looks
      → Begins stop
      → stop.running ≡ false
      → last.running ≡ false
      → Represents store_bits p.snaps snaps
      → Represents store_bits p.trades trades
      → length snaps < fuel
      → length trades < fuel
      → StoredAll (all_entries p snaps trades) (run_persister fuel (looks ++ stop ∷ last ∷ []) p)
  run_persister-StoredAll fuel [] stop last p snaps trades bs b stops over r r' h h' =
      run_persister-first fuel stop [] [] last p snaps trades b tt over r r' h h'
  run_persister-StoredAll fuel (k ∷ looks) stop last p snaps trades (c, bs) b stops over r r' h h' =
      run_persister-first fuel k looks (last ∷ []) stop p snaps trades c bs stops r r' h h'
