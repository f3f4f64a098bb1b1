-- ===== src/Strategy/Stuck.antt =====
-- src/oms/order_manager.hpp finds a quote by the identifier of its order alone. An order in flight
-- waits for a report that names it.
use mm_engine.Base.{
  ℕ, ◌≡◌, ◌≢◌, refl, sym, ◌∙◌, ap, inl, inr, Bool, true, false, some, arith, get_elem?, set,
  get_elem?-set_lem,
}
use mm_engine.Double.{Double}
use mm_engine.Events.{OrderCmd, OrdSide, unset, buy, sell, ExecEvent}
use mm_engine.Oms.{Quote, QuoteState, Row, OrderManager, quote_of, put_quote, report_row}
use mm_engine.Strategy.View.{
  View, Transition, place, pull, Act, waste, send, report, Acts, done, next,
}
use mm_engine.Strategy.Working.{on_exec-rows}

abbrev pub in_flight : QuoteState → Bool
in_flight QuoteState.pending_new = true
in_flight QuoteState.pending_cancel = true
in_flight _ = false

module _ {W : Type 0} ⦃d : Double W⦄ where
  report_row-other :
      (side : OrdSide) (e : ExecEvent W) (row : Row W)
      → (quote_of row side).cl_ord_id ≢ e.cl_ord_id
      → quote_of (report_row e row) side ≡ quote_of row side
  unfolding report_row
  report_row-other buy e row h = ground arith
  report_row-other _ e row h = ground arith

  Transition-other :
      (side sd : OrdSide) (row : Row W) {c : OrderCmd W} {q' : Quote W}
      → in_flight (quote_of row side).state ≡ true
      → Transition (quote_of row sd) c q'
      → quote_of (put_quote row sd q') side ≡ quote_of row side
  Transition-other buy buy row f (place st ty e) = ground arith
  Transition-other buy unset row f (place st ty e) = refl
  Transition-other buy sell row f (place st ty e) = refl
  Transition-other unset buy row f (place st ty e) = refl
  Transition-other unset unset row f (place st ty e) = ground arith
  Transition-other unset sell row f (place st ty e) = ground arith
  Transition-other sell buy row f (place st ty e) = refl
  Transition-other sell unset row f (place st ty e) = ground arith
  Transition-other sell sell row f (place st ty e) = ground arith
  Transition-other buy buy row f (pull st ty o e) = ground arith
  Transition-other buy unset row f (pull st ty o e) = refl
  Transition-other buy sell row f (pull st ty o e) = refl
  Transition-other unset buy row f (pull st ty o e) = refl
  Transition-other unset unset row f (pull st ty o e) = ground arith
  Transition-other unset sell row f (pull st ty o e) = ground arith
  Transition-other sell buy row f (pull st ty o e) = refl
  Transition-other sell unset row f (pull st ty o e) = ground arith
  Transition-other sell sell row f (pull st ty o e) = ground arith

module _ {W : Type 0} ⦃d : Double W⦄ (s : ℕ) (side : OrdSide) (q : Quote W) where
  -- A report for this symbol names another order.
  abbrev pub NamesOther : ExecEvent W → Type 0
  NamesOther e = e.symbol_id ≡ s → q.cl_ord_id ≢ e.cl_ord_id

  -- The quote of the slot is `q`.
  abbrev pub Holds : OrderManager W → Type 0
  Holds oms = (row : Row W) × (get_elem? oms s ≡ some row) × (quote_of row side ≡ q)

  write_keeps :
      (oms : OrderManager W) (i : ℕ) {old : Row W} (new : Row W)
      → get_elem? oms i ≡ some old
      → (i ≡ s → quote_of old side ≡ q → quote_of new side ≡ q)
      → Holds oms
      → Holds (set oms i new)
  write_keeps oms i {old} new at keep (row, here, is) = elim (get_elem?-set_lem oms i new s at) [
    | inl (e, there) ↦ (new, there, keep e (ap (λ r. quote_of r side) (found e) ∙ is))
    | inr (apart, there) ↦ (row, there ∙ here, is)
  ]
    where
      found : i ≡ s → old ≡ row
      found e = ground (arith, at, here)

  Act-Holds :
      {v w : View W} → Act NamesOther v w → in_flight q.state ≡ true → Holds v.oms → Holds w.oms
  Act-Holds waste f h = h
  Act-Holds {v} (send sym sd row c q' at step _) f h =
      write_keeps v.oms sym (put_quote row sd q') at
        (λ _ is. Transition-other side sd row (rw is f) step ∙ is) h
  Act-Holds {v} (report e oms ok got) f h =
      let (row, at, new) = on_exec-rows v.oms e got in
      rw new (
        write_keeps v.oms e.symbol_id (report_row e row) at
          (λ here is. report_row-other side e row (rw is (ok here)) ∙ is) h)

  -- An order in flight, new or being cancelled, stays exactly as it is through any acts of the
  -- strategy and any reports but those for its symbol that name its identifier.
  pub in_flight_waits :
      {v : View W} {n : ℕ} {w : View W}
      → Acts NamesOther v n w
      → in_flight q.state ≡ true
      → Holds v.oms
      → Holds w.oms
  in_flight_waits done f h = h
  in_flight_waits (next path act) f h = Act-Holds act f (in_flight_waits path f h)
