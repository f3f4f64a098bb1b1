-- ===== src/Oms.antt =====
-- src/oms/order_manager.hpp: one working quote for each symbol and side. The result `none` is an
-- access outside the array of quotes.
use mm_engine.Base.{
  ℕ, Bool, true, false, Option, none, some, List, ◌==◌, ◌||◌, if◌then◌else◌, get_elem?, set,
  replicate,
}
use mm_engine.Double.{Double}
use mm_engine.Events.{OrdSide, buy, ExecKind, ExecEvent}

-- `none_yet` is `QuoteState::None`.
pub data QuoteState : Type 0 where
  none_yet pending_new live pending_cancel : QuoteState

pub record Quote (W : Type 0) : Type 0 where
  pub state : QuoteState
  pub cl_ord_id : ℕ
  pub price : W
  pub qty : W
  pub exch_order_id : List ℕ

-- The two quotes of one symbol.
pub record Row (W : Type 0) : Type 0 where
  pub bid : Quote W
  pub ask : Quote W

abbrev pub OrderManager : Type 0 → Type 0
OrderManager W = List (Row W)

abbrev pub is_none : QuoteState → Bool
is_none QuoteState.none_yet = true
is_none _ = false

module _ {W : Type 0} where
  -- `side == OrdSide::Buy ? 0 : 1`
  abbrev pub quote_of : Row W → OrdSide → Quote W
  quote_of row buy = row.bid
  quote_of row _ = row.ask

  abbrev pub put_quote : Row W → OrdSide → Quote W → Row W
  put_quote row buy q = record row { bid = q }
  put_quote row _ q = record row { ask = q }

  abbrev pub active : Quote W → Bool
  active q = if is_none q.state then false else true

  unfoldable pub any_active : OrderManager W → ℕ → Option Bool
  any_active oms sym = elim (get_elem? oms sym) [
    | none ↦ none
    | some row ↦ some (active row.bid || active row.ask)
  ]

module _ {W : Type 0} ⦃d : Double W⦄ where
  abbrev pub free_quote : Quote W
  free_quote = record {
    state = QuoteState.none_yet;
    cl_ord_id = 0;
    price = d.nought;
    qty = d.nought;
    exch_order_id = replicate 24 0;
  }

  -- The switch on the kind of report.
  unfoldable pub report_quote : ExecKind → ExecEvent W → Quote W → Quote W
  report_quote ExecKind.new e q = record q { state = QuoteState.live; exch_order_id = e.order_id }
  report_quote ExecKind.part_fill e q = record q { qty = e.leaves_qty }
  report_quote ExecKind.filled e q = free_quote
  report_quote ExecKind.canceled e q = free_quote
  report_quote ExecKind.rejected e q = free_quote
  report_quote _ e q = q

  -- The loop over the two sides, which stops at the first whose identifier is the report's.
  unfoldable pub report_row : ExecEvent W → Row W → Row W
  report_row e row =
      if row.bid.cl_ord_id == e.cl_ord_id
      then record row { bid = report_quote e.kind e row.bid }
      else (if row.ask.cl_ord_id == e.cl_ord_id
          then record row { ask = report_quote e.kind e row.ask }
          else row)

  unfoldable pub on_exec : OrderManager W → ExecEvent W → Option (OrderManager W)
  unfolding report_row
  on_exec oms e = elim (get_elem? oms e.symbol_id) [
    | none ↦ none
    | some row ↦ some (set oms e.symbol_id (report_row e row))
  ]
