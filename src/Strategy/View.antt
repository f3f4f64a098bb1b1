-- ===== src/Strategy/View.antt =====
-- The order protocol of src/strategy/market_maker.hpp and src/oms/order_manager.hpp, apart from
-- prices, rings and clocks: what a round may do to the quotes and which commands it may send.
use mm_engine.Base.{ℕ, ◌+◌, ◌≡◌, some, List, [], ◌∷◌, ◌++◌, u64, get_elem?, set}
use mm_engine.Double.{Double}
use mm_engine.Events.{OrderCmd, OrdCmdType, OrdSide, ExecEvent}
use mm_engine.Oms.{Quote, QuoteState, Row, OrderManager, quote_of, put_quote, on_exec}

-- The quotes, every command sent so far, and the identifier of the next one.
pub record View (W : Type 0) : Type 0 where
  pub oms : OrderManager W
  pub sent : List (OrderCmd W)
  pub seed : ℕ

module _ {W : Type 0} where
  -- The command `c` that takes the quote `q` to `q'`.
  pub data Transition (q : Quote W) (c : OrderCmd W) (q' : Quote W) : Type 0 where
    place :
        q.state ≡ QuoteState.none_yet
        → c.type ≡ OrdCmdType.new
        → q' ≡ record q {
          state = QuoteState.pending_new;
          cl_ord_id = c.cl_ord_id;
          price = c.price;
          qty = c.qty;
        }
        → Transition q c q'
    pull :
        q.state ≡ QuoteState.live
        → c.type ≡ OrdCmdType.cancel
        → c.orig_cl_ord_id ≡ q.cl_ord_id
        → q' ≡ record q { state = QuoteState.pending_cancel }
        → Transition q c q'

module _ {W : Type 0} ⦃d : Double W⦄ (Reported : ExecEvent W → Type 0) where
  -- A number that is used up with no command, a command sent, or a report taken.
  pub data Act (v : View W) : View W → Type 0 where
    waste : Act v (record v { seed = u64 (v.seed + 1) })
    send :
        (sym : ℕ) (side : OrdSide) (row : Row W) (c : OrderCmd W) (q' : Quote W)
        → get_elem? v.oms sym ≡ some row
        → Transition (quote_of row side) c q'
        → (c.symbol_id ≡ sym) × (c.side ≡ side) × (c.cl_ord_id ≡ v.seed)
        → Act v (record {
          oms = set v.oms sym (put_quote row side q');
          sent = v.sent ++ c ∷ [];
          seed = u64 (v.seed + 1);
        })
    report :
        (e : ExecEvent W) (oms : OrderManager W)
        → Reported e
        → on_exec v.oms e ≡ some oms
        → Act v (record v { oms = oms })

  -- How many numbers an act uses up.
  abbrev pub draws : {v w : View W} → Act v w → ℕ
  draws waste = 1
  draws (send s side row c q' at step is) = 1
  draws (report e oms ok got) = 0

  -- A sequence of acts that use up `n` numbers.
  pub data Acts (v : View W) : ℕ → View W → Type 0 where
    done : Acts v 0 v
    next : {n : ℕ} {w u : View W} → Acts v n w → (act : Act w u) → Acts v (draws act + n) u
