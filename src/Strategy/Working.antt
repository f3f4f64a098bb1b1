-- ===== src/Strategy/Working.antt =====
-- The one working order of each symbol and side, in every sequence of acts of View.antt.
use mm_engine.Base.{
  ℕ, ◌+◌, ◌≤◌, ◌≡◌, ◌≢◌, sym, ◌∙◌, ap, ◌⊎◌, inl, inr, Bool, true, false, ◌&&◌, Option, none, some,
  List, [], ◌∷◌, ◌++◌, arith, get_elem?, set, get_elem?-set_lem, if◌then◌else◌, ◌==◌, Option-cases,
}
use mm_engine.Double.{Double}
use mm_engine.Events.{OrderCmd, OrdCmdType, OrdSide, unset, buy, sell, ExecEvent, ExecKind}
use mm_engine.Oms.{
  Quote, Row, OrderManager, quote_of, put_quote, on_exec, report_row, report_quote, is_none,
}
use mm_engine.Strategy.View.{
  View, Transition, place, pull, Act, waste, send, report, Acts, done, next,
}

-- The reports that free a slot.
abbrev pub is_final : ExecKind → Bool
is_final ExecKind.filled = true
is_final ExecKind.canceled = true
is_final ExecKind.rejected = true
is_final _ = false

abbrev pub is_buy : OrdSide → Bool
is_buy buy = true
is_buy _ = false

abbrev pub is_new : OrdCmdType → Bool
is_new OrdCmdType.new = true
is_new OrdCmdType.cancel = false

abbrev pub same : Bool → Bool → Bool
same true b = b
same false true = false
same false false = true

module _ {W : Type 0} (s : ℕ) (side : OrdSide) where
  -- The orders among the commands for one symbol and side.
  abbrev pub orders : List (OrderCmd W) → ℕ
  orders [] = 0
  orders (c ∷ cs) =
      (if is_new c.type && (c.symbol_id == s && same (is_buy c.side) (is_buy side)) then 1 else 0)
      + orders cs

  orders-append : (xs ys : List (OrderCmd W)) → orders (xs ++ ys) ≡ orders xs + orders ys
  orders-append [] ys = omega arith
  orders-append (x ∷ xs) ys = omega (arith, orders-append xs ys)

  abbrev pub free_row : Row W → ℕ
  free_row row = if is_none (quote_of row side).state then 1 else 0

  abbrev free_at : Option (Row W) → ℕ
  free_at none = 0
  free_at (some row) = free_row row

  -- 1 if the slot of that symbol and side is free, and 0 if an order works there.
  abbrev pub free_slot : OrderManager W → ℕ
  free_slot oms = free_at (get_elem? oms s)

module _ {W : Type 0} ⦃d : Double W⦄ where
  report_quote-busy :
      (kind : ExecKind) (e : ExecEvent W) (q : Quote W)
      → is_final kind ≡ false
      → is_none (report_quote kind e q).state ≡ true
      → is_none q.state ≡ true
  unfolding report_quote
  report_quote-busy ExecKind.new e q h n = cc
  report_quote-busy ExecKind.filled e q h n = absurd (cc)
  report_quote-busy ExecKind.canceled e q h n = absurd (cc)
  report_quote-busy ExecKind.rejected e q h n = absurd (cc)
  report_quote-busy _ e q h n = n

  report_row-free :
      (s : ℕ) (side : OrdSide) (e : ExecEvent W) (row : Row W)
      → is_final e.kind ≡ false
      → free_row s side (report_row e row) ≤ free_row s side row
  unfolding report_row
  report_row-free s buy e row h = ground (arith, report_quote-busy e.kind e row.bid h)
  report_row-free s _ e row h = ground (arith, report_quote-busy e.kind e row.ask h)

  -- What a report does to the array of rows.
  pub on_exec-rows :
      (oms : OrderManager W) (e : ExecEvent W) {new : OrderManager W}
      → on_exec oms e ≡ some new
      → (row : Row W) × (get_elem? oms e.symbol_id ≡ some row)
        × (new ≡ set oms e.symbol_id (report_row e row))
  unfolding on_exec
  on_exec-rows oms e h = elim (Option-cases (get_elem? oms e.symbol_id)) [
    | inl none_there ↦ absurd (cc (rw (none_there, on_exec) at h))
    | inr (row, there) ↦ (row, there, ground arith)
  ]

  free_slot-set :
      (s : ℕ) (side : OrdSide) (oms : OrderManager W) (i : ℕ) {row : Row W} (new : Row W)
      → get_elem? oms i ≡ some row
      → ((i ≡ s)
          × (free_slot s side (set oms i new) ≡ free_row s side new)
          × (free_slot s side oms ≡ free_row s side row))
        ⊎ ((i ≢ s) × (free_slot s side (set oms i new) ≡ free_slot s side oms))
  free_slot-set s side oms i new at = elim (get_elem?-set_lem oms i new s at) [
    | inl (e, here) ↦ inl (
      e,
      ap (free_at s side) here,
      ap (λ (j : ℕ). free_at s side (get_elem? oms j)) (sym e) ∙ ap (free_at s side) at,
    )
    | inr (apart, there) ↦ inr (apart, ap (free_at s side) there)
  ]

  -- A command for another side leaves a slot as free as it was; one for it keeps the sum.
  Transition-free :
      (s : ℕ) (side sd : OrdSide) (row : Row W) (c : OrderCmd W) (q' : Quote W)
      → Transition (quote_of row sd) c q'
      → c.side ≡ sd
      → c.symbol_id ≡ s
      → orders s side (c ∷ []) + free_row s side (put_quote row sd q') ≤ free_row s side row
  Transition-free s buy buy row c q' (place st ty e) h k = ground arith
  Transition-free s buy unset row c q' (place st ty e) h k = ground arith
  Transition-free s buy sell row c q' (place st ty e) h k = ground arith
  Transition-free s unset sd row c q' (place st ty e) h k = ground arith
  Transition-free s sell sd row c q' (place st ty e) h k = ground arith
  Transition-free s buy sd row c q' (pull st ty o e) h k = ground arith
  Transition-free s unset sd row c q' (pull st ty o e) h k = ground arith
  Transition-free s sell sd row c q' (pull st ty o e) h k = ground arith

  -- The orders sent for another symbol do not count.
  orders-other :
      (s : ℕ) (side : OrdSide) (c : OrderCmd W) → c.symbol_id ≢ s → orders s side (c ∷ []) ≡ 0
  orders-other s side c h = ground arith

module _ {W : Type 0} ⦃d : Double W⦄ (s : ℕ) (side : OrdSide) where
  -- A report for this symbol is not a final one.
  abbrev pub NotFinal : ExecEvent W → Type 0
  NotFinal e = e.symbol_id ≡ s → is_final e.kind ≡ false

  Act-orders :
      {v w : View W}
      → Act NotFinal v w
      → orders s side w.sent + free_slot s side w.oms
        ≤ orders s side v.sent + free_slot s side v.oms
  Act-orders waste = omega arith
  Act-orders {v} (send sym sd row c q' at step (k, h, _)) =
      elim (free_slot-set s side v.oms sym (put_quote row sd q') at) [
        | inl (e, new, old) ↦ omega (
          arith,
          orders-append s side v.sent (c ∷ []),
          Transition-free s side sd row c q' step h (k ∙ e),
        )
        | inr (apart, kept) ↦ omega (
          arith,
          orders-append s side v.sent (c ∷ []),
          orders-other s side c (λ e. apart (sym' k e)),
        )
      ]
    where
      sym' : c.symbol_id ≡ sym → c.symbol_id ≡ s → sym ≡ s
      sym' p q = cc
  Act-orders {v} (report e oms ok got) =
      let (row, at, new) = on_exec-rows v.oms e got in
      rw new (elim (free_slot-set s side v.oms e.symbol_id (report_row e row) at) [
        | inl (here, after, before) ↦ omega (arith, report_row-free s side e row (ok here))
        | inr (apart, kept) ↦ omega arith
      ])

  -- While no final report comes for a symbol, one side of it gets one new order at most, and none
  -- if its slot is not free to begin with, through any acts of the strategy and other reports.
  pub one_working_order :
      {v : View W} {n : ℕ} {w : View W}
      → Acts NotFinal v n w
      → orders s side w.sent ≤ orders s side v.sent + free_slot s side v.oms
  one_working_order path = omega (arith, Acts-orders path)
    where
      Acts-orders :
          {v : View W} {n : ℕ} {w : View W}
          → Acts NotFinal v n w
          → orders s side w.sent + free_slot s side w.oms
            ≤ orders s side v.sent + free_slot s side v.oms
      Acts-orders done = omega arith
      Acts-orders (next path act) = omega (arith, Acts-orders path, Act-orders act)
