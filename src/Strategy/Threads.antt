-- ===== src/Strategy/Threads.antt =====
-- The strategy thread of src/strategy/market_maker.hpp beside the other threads of src/main.cpp: the
-- FIX reader fills its rings, the sender empties the ring of orders, the logger and the persister
-- empty theirs.
mod Steps
use mathlib.Core.List.{append_assoc, append-nil}
use mm_engine.Base.{
  ◌*◌, arith, ℕ, u64, ◌<◌, ◌+◌, ◌≤◌, ◌≡◌, refl, sym, ◌∙◌, true, ◌^◌, List, [], ◌++◌, subst,
}
use mm_engine.Double.{Double}
use mm_engine.Config.{EngineConfig}
use mm_engine.Events.{OrderCmd, OrdSide, ExecEvent}
use mm_engine.Oms.{Quote}
use mm_engine.Ring.{try_pop}
use mm_engine.Ring.Refine.{Represents}
use mm_engine.Strategy.{MarketMaker, ord_bits}
use mm_engine.Strategy.View.{View, done}
use mm_engine.Strategy.Refine.{Views, Follows}
use mm_engine.Strategy.Steps.{join}
use mm_engine.Strategy.Rounds.{Fed, round-Follows}
use mm_engine.Strategy.Ids.{Numbered, Acts-Numbered}
use mm_engine.Strategy.Working.{orders, free_slot, NotFinal, one_working_order}
use mm_engine.Strategy.Stuck.{NamesOther, Holds, in_flight, in_flight_waits}
pub use Steps.{to_list, Run, start, rounds, reported, quoted, sender, stored}
use Steps.{sender-Views, reported-Fed, moved, relabel}

module _ {W : Type 0} ⦃d : Double W⦄ (cfg : EngineConfig W) (Reported : ExecEvent W → Type 0) where
  -- However the threads interleave, from a state with a view in the protocol on, what the sender
  -- has taken, the quotes and the seed follow the view through acts of the protocol, which take the
  -- admissible reports alone and use up at most two numbers a round; and all reports in the ring
  -- stay admissible.
  pub Run-Follows :
      {taken : List (OrderCmd W)} {m : MarketMaker W} {v : View W} {n : ℕ} {ts : List (OrderCmd W)}
      {m' : MarketMaker W}
      → Fed Reported m.exec
      → Views taken m v
      → Run cfg Reported m n ts m'
      → Follows cfg Reported (taken ++ ts) (2 * n) v m' × Fed Reported m'.exec
  Run-Follows {taken} {v = v} f x start =
      ((0, v, done, relabel cfg Reported (sym (append-nil taken)) x, omega arith), f)
  Run-Follows {taken} f x (rounds {ts} fuel now path step) =
      let ((n, w, p, y, few), g) = Run-Follows f x path in
      let ((k, u, q, z, few'), h) = round-Follows cfg Reported (taken ++ ts) fuel now g y step in
      let (j, r, sum) = join cfg Reported (taken ++ ts) p q in
      ((j, u, r, z, omega (arith, sum, few, few')), h)
  Run-Follows f x (reported e ok path) =
      let ((n, w, p, y, few), g) = Run-Follows f x path in
      ((n, w, p, moved cfg Reported _ _ _ _ _ _ y, few), reported-Fed cfg Reported e ok g)
  Run-Follows f x (quoted ev path) =
      let ((n, w, p, y, few), g) = Run-Follows f x path in
      ((n, w, p, moved cfg Reported _ _ _ _ _ _ y, few), g)
  Run-Follows {taken} f x (sender {ts} {a} path) =
      let ((n, w, p, y, few), g) = Run-Follows f x path in
      (
        (
          n,
          w,
          p,
          relabel cfg Reported (append_assoc taken ts (to_list (try_pop ord_bits a.out).0))
              (sender-Views cfg Reported y),
          few,
        ),
        g,
      )
  Run-Follows f x (stored log snaps trades metrics path) =
      let ((n, w, p, y, few), g) = Run-Follows f x path in
      ((n, w, p, moved cfg Reported _ _ _ _ _ _ y, few), g)

module _ {W : Type 0} where
  -- The view of a state of which the sender has taken nothing yet.
  view_of : (m : MarketMaker W) → List (OrderCmd W) → View W
  view_of m q = record { oms = m.oms; sent = q; seed = m.cl_ord_seed }

  view_of-Views :
      {m : MarketMaker W} {q : List (OrderCmd W)}
      → Represents ord_bits m.out q
      → Views [] m (view_of m q)
  unfolding view_of
  view_of-Views {m} {q} r = record {
    same_oms = refl;
    same_seed = refl;
    queue = q;
    holds = r;
    history = refl;
  }

abbrev pub AnyReport : {W : Type 0} → ExecEvent W → Type 0
AnyReport e = Unit {0}

module _ {W : Type 0} ⦃d : Double W⦄ (cfg : EngineConfig W) where
  -- From an empty ring of orders on, the commands that the sender takes and those still in the ring
  -- carry identifiers that the seed has counted off, in that order and no number twice, however the
  -- threads interleave: each is the seed and a number, modulo 2 ^ 64, where the numbers rise from
  -- command to command and stay below what the seed has moved on by, which is at most two a round.
  pub identifiers_in_order :
      {m : MarketMaker W} {n : ℕ} {ts : List (OrderCmd W)} {m' : MarketMaker W}
      → Represents ord_bits m.out []
      → Fed AnyReport m.exec
      → m.cl_ord_seed < 2 ^ 64
      → Run cfg AnyReport m n ts m'
      → (q : List (OrderCmd W)) × (hi : ℕ) × (hi ≤ 2 * n)
        × Represents ord_bits m'.out q
        × (m'.cl_ord_seed ≡ u64 (m.cl_ord_seed + hi))
        × Numbered m.cl_ord_seed 0 hi (ts ++ q)
  unfolding view_of
  identifiers_in_order {m} r f lt run =
      let ((hi, w, p, y, few), _) = Run-Follows cfg AnyReport f (view_of-Views r) run in
      let (seed_is, numbered) = Acts-Numbered m.cl_ord_seed p refl lt refl in
      (y.queue, hi, few, y.holds, sym y.same_seed ∙ seed_is, rw y.history numbered)

module _ {W : Type 0} ⦃d : Double W⦄ (cfg : EngineConfig W) (s : ℕ) (side : OrdSide) where
  -- While no final report comes for a symbol, the commands that the sender takes and those still in
  -- the ring hold at most one new order for a side of it beyond those that were in the ring to
  -- begin with, and none beyond if the slot was taken to begin with, however the threads
  -- interleave.
  pub at_most_one_order :
      {m : MarketMaker W} {q : List (OrderCmd W)} {n : ℕ} {ts : List (OrderCmd W)}
      {m' : MarketMaker W}
      → Represents ord_bits m.out q
      → Fed (NotFinal s side) m.exec
      → Run cfg (NotFinal s side) m n ts m'
      → (q' : List (OrderCmd W)) × Represents ord_bits m'.out q'
        × (orders s side (ts ++ q') ≤ orders s side q + free_slot s side m.oms)
  unfolding view_of
  at_most_one_order {m} {q} r f run =
      let ((_, w, p, y, _), _) = Run-Follows cfg (NotFinal s side) f (view_of-Views r) run in
      (y.queue, y.holds, rw y.history (one_working_order s side p))

  -- An order in flight, new or being cancelled, stays in its slot as it is, however the threads
  -- interleave, until a report for its symbol names the identifier that the slot holds.
  pub in_flight_until_named :
      (o : Quote W) {m : MarketMaker W} {q : List (OrderCmd W)} {n : ℕ} {ts : List (OrderCmd W)}
      {m' : MarketMaker W}
      → Represents ord_bits m.out q
      → Fed (NamesOther s side o) m.exec
      → Run cfg (NamesOther s side o) m n ts m'
      → in_flight o.state ≡ true
      → Holds s side o m.oms
      → Holds s side o m'.oms
  unfolding view_of
  in_flight_until_named o {m} r f run busy h =
      let ((_, w, p, y, _), _) = Run-Follows cfg (NamesOther s side o) f (view_of-Views r) run in
      subst (λ oms. Holds s side o oms) y.same_oms (in_flight_waits s side o p busy h)
