-- ===== src/Strategy/Rounds.antt =====
-- The rounds of `MarketMaker::run` in src/strategy/market_maker.hpp, with the other threads at the
-- far ends of its rings, keep to the order protocol of View.antt.
use mathlib.Core.Option.{some-injective}
use mm_engine.Base.{
  ℕ, zero, suc, ◌≡◌, sym, ◌∙◌, ap, subst, some, List, [], ◌∷◌, arith, ◌>>=◌, >>=-eq-some, All,
}
use mm_engine.Double.{Double}
use mm_engine.Config.{EngineConfig}
use mm_engine.Events.{OrderCmd, ExecEvent}
use mm_engine.Oms.{on_exec}
use mm_engine.Ring.Queue
use mm_engine.Ring.{Ring, try_pop}
use mm_engine.Ring.Refine.{Represents, try_pop_refines}
use mm_engine.Strategy.{MarketMaker, Readings, exec_bits, md_bits, log_record}
use mm_engine.Strategy.Loop.{note_fill, take_report, take_next, drain, round}
use mm_engine.Strategy.View.{View, done}
use mm_engine.Strategy.Steps.{join, and_then, take_report-Follows, take_event-Follows, with_md}
use mm_engine.Strategy.Frame.{take_event-Kept}
use mm_engine.Strategy.Refine.{Views, Follows}

module _ {W : Type 0} ⦃d : Double W⦄ where
  -- One turn of the inner loop, with nothing and with something in the ring of reports.
  pub drain_empty :
      (fuel : ℕ) (m : MarketMaker W)
      → Represents exec_bits m.exec []
      → (drain (suc fuel) m ≡ some (record m { exec = (try_pop exec_bits m.exec).1 }))
        × Represents exec_bits (try_pop exec_bits m.exec).1 []
  unfolding drain Queue.pop
  drain_empty fuel m r =
      let (nothing, after) = try_pop_refines exec_bits [] r in
      (
        ap (λ out. take_next out (record m { exec = (try_pop exec_bits m.exec).1 }) (drain fuel))
            nothing,
        after,
      )

  pub drain_more :
      (fuel : ℕ) (m : MarketMaker W) {e : ExecEvent W} (q : List (ExecEvent W))
      → Represents exec_bits m.exec (e ∷ q)
      → (drain (suc fuel) m
          ≡ (take_report (record m { exec = (try_pop exec_bits m.exec).1 }) e >>= drain fuel))
        × Represents exec_bits (try_pop exec_bits m.exec).1 q
  unfolding drain Queue.pop
  drain_more fuel m {e} q r =
      let (oldest, after) = try_pop_refines exec_bits (e ∷ q) r in
      (
        ap (λ out. take_next out (record m { exec = (try_pop exec_bits m.exec).1 }) (drain fuel))
            oldest,
        after,
      )

module _ {W : Type 0} (Reported : ExecEvent W → Type 0) where
  -- The reports that wait in the ring are all admissible.
  pub record Fed (r : Ring (ExecEvent W)) : Type 0 where
    pub waiting : List (ExecEvent W)
    pub holds : Represents exec_bits r waiting
    pub all_reported : All Reported waiting

module _ {W : Type 0} ⦃d : Double W⦄ (cfg : EngineConfig W) (Reported : ExecEvent W → Type 0)
    (taken : List (OrderCmd W)) where
  take_report-exec :
      (m : MarketMaker W) (e : ExecEvent W) {m' : MarketMaker W}
      → take_report m e ≡ some m'
      → m'.exec ≡ m.exec
  unfolding take_report note_fill log_record
  take_report-exec m e h =
      let (oms, got, is) = >>=-eq-some (on_exec m.oms e) _ h in
      rw (← some-injective _ _ is) (ground arith)

  with_exec :
      {m : MarketMaker W} {v : View W} (r : Ring (ExecEvent W))
      → Views taken m v
      → Views taken (record m { exec = r }) v
  with_exec r x = record {
    same_oms = x.same_oms;
    same_seed = x.same_seed;
    queue = x.queue;
    holds = x.holds;
    history = x.history;
  }

  pub drain-Follows :
      (fuel : ℕ) {m : MarketMaker W} {v : View W} {m' : MarketMaker W} (q : List (ExecEvent W))
      → Represents exec_bits m.exec q
      → All Reported q
      → Views taken m v
      → drain fuel m ≡ some m'
      → Follows cfg Reported taken 0 v m' × Fed Reported m'.exec
  unfolding drain
  drain-Follows zero {v = v} q r a x e =
      rw (← some-injective _ _ e)
        ((0, v, done, x, omega arith), record { waiting = q; holds = r; all_reported = a })
  drain-Follows (suc fuel) {m} {v} [] r a x e =
      let (same, after) = drain_empty fuel m r in
      rw (← some-injective _ _ (sym same ∙ e)) (
        (0, v, done, with_exec _ x, omega arith),
        record { waiting = []; holds = after; all_reported = tt },
      )
  drain-Follows (suc fuel) {m} (e1 ∷ q) r (ok, a) x e =
      let (same, after) = drain_more fuel m q r in
      let (m1, took, rest) = >>=-eq-some (take_report _ e1) _ (sym same ∙ e) in
      let (n, w, p, y, few) = take_report-Follows cfg Reported taken e1 ok (with_exec _ x) took in
      let (more, fed) =
        drain-Follows fuel q
          (subst (λ ring. Represents exec_bits ring q) (sym (take_report-exec _ e1 took)) after) a y
          rest in
      let (k, u, p', z, few') = more in
      let (j, p'', sum) = join cfg Reported taken p p' in
      ((j, u, p'', z, omega (arith, sum, few, few')), fed)

  -- The commands that one round of `run` sends, and what it does to the quotes, are acts of the
  -- protocol, which use up at most two numbers, and the reports that it leaves in the ring are admissible if all were before.
  pub round-Follows :
      (fuel : ℕ) {m : MarketMaker W} {v : View W} (now : Readings) {m' : MarketMaker W}
      → Fed Reported m.exec
      → Views taken m v
      → round cfg fuel m now ≡ some m'
      → Follows cfg Reported taken 2 v m' × Fed Reported m'.exec
  unfolding round
  round-Follows fuel {m} now f x e =
      let (m1, drained, rest) = >>=-eq-some (drain fuel m) _ e in
      let (follows, fed) = drain-Follows fuel f.waiting f.holds f.all_reported x drained in
      (
        and_then cfg Reported taken follows λ w y.
            take_event-Follows cfg Reported taken (try_pop md_bits m1.md).0 now
              (with_md cfg Reported taken _ y) rest,
        subst (λ ring. Fed Reported ring)
            (sym (
              (take_event-Kept cfg (try_pop md_bits m1.md).0
                (record m1 { md = (try_pop md_bits m1.md).1 }) now rest).exec_kept))
            fed,
      )
