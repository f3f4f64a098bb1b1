-- ===== src/Fix/Reports.antt =====
-- An execution report from src/fix/fix_app.hpp on its way into src/oms/order_manager.hpp.
use mm_engine.Base.{
  ℕ, zero, suc, ◌≤◌, ◌≡◌, refl, ◌∙◌, none, some, List, [], ◌∷◌, arith, get_elem?, length,
}
use mm_engine.Base.Int.{ℤ}
use mm_engine.Double.{Double}
use mm_engine.Events.{ExecEvent, max_symbols}
use mm_engine.Oms.{OrderManager, on_exec}
use mm_engine.Fix.{FixApp, symbol_id, no_symbol}
use mm_engine.Fix.Inbound.{ExecMsg, exec_event}

beyond : {A : Type 0} (xs : List A) (i : ℕ) → length xs ≤ i → get_elem? xs i ≡ none
beyond [] i h = refl
beyond (x ∷ xs) zero h = absurd (omega arith)
beyond (x ∷ xs) (suc i) h = beyond xs i (omega arith)

module _ {W : Type 0} ⦃d : Double W⦄ where
  event_symbol :
      (app : FixApp W) (now : ℤ) (msg : ExecMsg W) {s : List ℕ}
      → msg.symbol ≡ some s
      → (exec_event app now msg).symbol_id ≡ symbol_id app s
  unfolding exec_event
  event_symbol app now msg es = rw es refl

  on_exec-outside :
      (oms : OrderManager W) (e : ExecEvent W)
      → get_elem? oms e.symbol_id ≡ none
      → on_exec oms e ≡ none
  unfolding on_exec
  on_exec-outside oms e h = rw (on_exec, h) refl

  -- A report on a symbol that is not in the application's table makes the order manager read outside
  -- its array of quotes.
  pub unknown_symbol-on_exec :
      (app : FixApp W) (now : ℤ) (msg : ExecMsg W) (s : List ℕ) (oms : OrderManager W)
      → msg.symbol ≡ some s
      → symbol_id app s ≡ no_symbol
      → length oms ≡ max_symbols
      → on_exec oms (exec_event app now msg) ≡ none
  unknown_symbol-on_exec app now msg s oms es unknown size =
      on_exec-outside oms _
        (beyond oms _ (omega (arith, size, event_symbol app now msg es ∙ unknown)))
