-- ===== src/Strategy/Listed.antt =====
-- The commands of src/strategy/market_maker.hpp name symbols of the table.
use mm_engine.Base.{
  ℕ, ◌<◌, ◌≡◌, refl, sym, ◌∙◌, subst, inl, inr, some, [], ◌∷◌, arith, length, length-set, get_elem?,
  get_elem?-lt, All, All-append, Option-cases,
}
use mathlib.Core.Option.{some-injective}
use mm_engine.Double.{Double}
use mm_engine.Config.{EngineConfig}
use mm_engine.Events.{OrderCmd, ExecEvent, max_symbols}
use mm_engine.Oms.{OrderManager, put_quote, on_exec, report_row}
use mm_engine.Ring.Elements.{Carries}
use mm_engine.Strategy.{MarketMaker, Readings, ord_bits}
use mm_engine.Strategy.Loop.{round}
use mm_engine.Strategy.View.{View, Act, waste, send, report, Acts, done, next}
use mm_engine.Strategy.Refine.{Views}
use mm_engine.Strategy.Rounds.{Fed, round-Follows}

module _ {W : Type 0} where
  abbrev pub CommandListed : OrderCmd W → Type 0
  CommandListed c = c.symbol_id < max_symbols

  -- A view whose commands name symbols of its table.
  record ListedView (v : View W) : Type 0 where
    rows : length v.oms ≡ max_symbols
    commands : All CommandListed v.sent

module _ {W : Type 0} ⦃d : Double W⦄ where
  on_exec-length :
      (oms : OrderManager W) (e : ExecEvent W) {oms' : OrderManager W}
      → on_exec oms e ≡ some oms'
      → length oms' ≡ length oms
  unfolding on_exec
  on_exec-length oms e h = elim (Option-cases (get_elem? oms e.symbol_id)) [
    | inl outside ↦ absurd (cc (rw (on_exec, outside) at h))
    | inr (row, at) ↦
        rw (← some-injective _ _ (rw (on_exec, at) at h))
          (length-set oms e.symbol_id (report_row e row))
  ]

module _ {W : Type 0} ⦃d : Double W⦄ {Reported : ExecEvent W → Type 0} where
  Act-ListedView : {v w : View W} → Act Reported v w → ListedView v → ListedView w
  Act-ListedView waste l = record { rows = l.rows; commands = l.commands }
  Act-ListedView {v} (send s side row c q' at step (named, _, _)) l = record {
    rows = length-set v.oms s (put_quote row side q') ∙ l.rows;
    commands =
        All-append CommandListed v.sent (c ∷ []) l.commands
          (omega (arith, named, get_elem?-lt v.oms s at, l.rows), tt);
  }
  Act-ListedView {v} (report e oms ok got) l = record {
    rows = on_exec-length v.oms e got ∙ l.rows;
    commands = l.commands;
  }

  Acts-ListedView :
      {v : View W} {n : ℕ} {w : View W} → Acts Reported v n w → ListedView v → ListedView w
  Acts-ListedView done l = l
  Acts-ListedView (next before act) l = Act-ListedView act (Acts-ListedView before l)

module _ {W : Type 0} ⦃d : Double W⦄ (cfg : EngineConfig W) (Reported : ExecEvent W → Type 0) where
  -- A round leaves in the ring of orders commands that name symbols of the table, if all did before.
  pub round-commands :
      (fuel : ℕ) (m : MarketMaker W) (now : Readings) {m' : MarketMaker W}
      → Fed Reported m.exec
      → length m.oms ≡ max_symbols
      → Carries ord_bits CommandListed m.out
      → round cfg fuel m now ≡ some m'
      → Carries ord_bits CommandListed m'.out
  round-commands fuel m now f size c e =
      let v : View W = record { oms = m.oms; sent = c.waiting; seed = m.cl_ord_seed } in
      let x : Views [] m v = record {
        same_oms = refl;
        same_seed = refl;
        queue = c.waiting;
        holds = c.holds;
        history = refl;
      } in
      let ((n, w, p, y, _), _) = round-Follows cfg Reported [] fuel now f x e in
      let l = Acts-ListedView p (record { rows = size; commands = c.all }) in
      record {
        waiting = y.queue;
        holds = y.holds;
        all = subst (λ cs. All CommandListed cs) (sym y.history) l.commands;
      }
