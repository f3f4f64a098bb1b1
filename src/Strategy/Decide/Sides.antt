-- ===== src/Strategy/Decide/Sides.antt =====
-- One side of `MarketMaker::decide` in src/strategy/market_maker.hpp: what becomes of its quote, and
-- which commands that takes.
use mathlib.Core.List.{append-nil}
use mm_engine.Base.{
  ℕ, ◌+◌, ◌^◌, ◌≤◌, ◌<◌, ◌≡◌, refl, inl, inr, Bool, true, false, some, List, [], ◌∷◌, ◌++◌, arith,
  get_elem?, lt→ltb, length, get_elem?-lt, get_elem?-set_self, Bool-cases, if◌then◌else◌, u64,
}
use mm_engine.Base.Int.{ℤ}
use mm_engine.Double.{Double}
use mm_engine.Config.{EngineConfig}
use mm_engine.Events.{OrderCmd, OrdCmdType, OrdSide, buy}
use mm_engine.Oms.{QuoteState, Quote, Row, quote_of, put_quote}
use mm_engine.Ring.Queue
use mm_engine.Ring.{try_push}
use mm_engine.Ring.Refine.{Represents, try_push_refines}
use mm_engine.Strategy.{
  MarketMaker, ord_bits, log_record, send_new, send_cancel, cancel_row, requote_row,
}

module _ {W : Type 0} ⦃d : Double W⦄ (cfg : EngineConfig W) where
  -- A new order, and a request to cancel the order of a quote.
  abbrev pub order_at : (sym : ℕ) → OrdSide → (px : W) → (id : ℕ) → (t_md now : ℤ) → OrderCmd W
  order_at sym side px id t_md now = record {
    type = OrdCmdType.new;
    side = side;
    symbol_id = sym;
    price = px;
    qty = cfg.order_qty;
    cl_ord_id = id;
    orig_cl_ord_id = 0;
    t_md_ns = t_md;
    t_decided_ns = now;
  }

  abbrev pub cancel_of : Quote W → (sym : ℕ) → OrdSide → (id : ℕ) → (t_md now : ℤ) → OrderCmd W
  cancel_of q sym side id t_md now = record {
    type = OrdCmdType.cancel;
    side = side;
    symbol_id = sym;
    price = d.nought;
    qty = q.qty;
    cl_ord_id = id;
    orig_cl_ord_id = q.cl_ord_id;
    t_md_ns = t_md;
    t_decided_ns = now;
  }

  -- The quote once a new order is on its way.
  abbrev pub placed : Quote W → (px : W) → (id : ℕ) → Quote W
  placed q px id = record q {
    state = QuoteState.pending_new;
    cl_ord_id = id;
    price = px;
    qty = cfg.order_qty;
  }

  -- Closer to the price than half a tick.
  abbrev pub near : Quote W → W → Bool
  near q px = d.lt (d.fabs (d.sub q.price px)) (d.mul cfg.tick_size d.half)

  -- What becomes of a quote that the strategy wants at the price `px`, and what it sends for that.
  abbrev pub wanted_quote : QuoteState → Quote W → (px : W) → (id : ℕ) → Quote W
  wanted_quote QuoteState.none_yet q px id = placed q px id
  wanted_quote QuoteState.live q px id =
      if near q px then q else record q { state = QuoteState.pending_cancel }
  wanted_quote _ q px id = q

  abbrev pub wanted :
      QuoteState
      → Quote W
      → (sym : ℕ) → OrdSide
      → (px : W) → (id : ℕ) → (t_md now : ℤ) → List (OrderCmd W)
  wanted QuoteState.none_yet q sym side px id t_md now = order_at sym side px id t_md now ∷ []
  wanted QuoteState.live q sym side px id t_md now =
      if near q px then [] else cancel_of q sym side id t_md now ∷ []
  wanted _ q sym side px id t_md now = []

  -- The same for a quote that the strategy wants gone.
  abbrev pub pulled : QuoteState → Quote W → Quote W
  pulled QuoteState.live q = record q { state = QuoteState.pending_cancel }
  pulled _ q = q

  abbrev pub pulls :
      QuoteState → Quote W → (sym : ℕ) → OrdSide → (id : ℕ) → (t_md now : ℤ) → List (OrderCmd W)
  pulls QuoteState.live q sym side id t_md now = cancel_of q sym side id t_md now ∷ []
  pulls _ q sym side id t_md now = []

  -- The identifier of the next command.
  abbrev pub id_after : ℕ → List (OrderCmd W) → ℕ
  id_after id [] = id
  id_after id (c ∷ cs) = u64 (id + 1)

  put-quote_of : (row : Row W) (side : OrdSide) → put_quote row side (quote_of row side) ≡ row
  put-quote_of row buy = refl
  put-quote_of row _ = refl

  -- What one side of `decide` leaves of the state `m`, where the order ring stands for `queue`: the
  -- quote `q'` in its slot, and the commands `cs` at the end of the queue.
  pub record Leaves (m : MarketMaker W) (queue : List (OrderCmd W)) (s : ℕ) (row : Row W)
      (side : OrdSide) (q' : Quote W) (cs : List (OrderCmd W)) (m' : MarketMaker W) : Type 0 where
    pub slot : get_elem? m'.oms s ≡ some (put_quote row side q')
    pub sent : Represents ord_bits m'.out (queue ++ cs)
    pub seed : m'.cl_ord_seed ≡ id_after m.cl_ord_seed cs

  unchanged :
      (m : MarketMaker W) (queue : List (OrderCmd W)) (s : ℕ) (row : Row W) (side : OrdSide)
      → get_elem? m.oms s ≡ some row
      → Represents ord_bits m.out queue
      → Leaves m queue s row side (quote_of row side) [] m
  unchanged m queue s row side at r = record {
    slot = rw (put-quote_of row side) at;
    sent = rw (append-nil queue) r;
    seed = refl;
  }

  push_with_room :
      (m : MarketMaker W) (queue : List (OrderCmd W)) (c : OrderCmd W)
      → Represents ord_bits m.out queue
      → length queue < 2 ^ ord_bits
      → ((try_push ord_bits m.out c).0 ≡ true)
        × Represents ord_bits (try_push ord_bits m.out c).1 (queue ++ c ∷ [])
  unfolding Queue.push
  push_with_room m queue c r room =
      rw (lt→ltb (length queue) (2 ^ ord_bits) room) at (try_push_refines ord_bits r c)

  module _ (wet : cfg.dry_run ≡ false) (s : ℕ) (side : OrdSide) where
    send_new-Leaves :
        (m : MarketMaker W) (queue : List (OrderCmd W)) (row : Row W) (px : W) (t_md now : ℤ)
        → get_elem? m.oms s ≡ some row
        → Represents ord_bits m.out queue
        → length queue < 2 ^ ord_bits
        → Leaves m queue s row side
            (placed (quote_of row side) px m.cl_ord_seed)
            (order_at s side px m.cl_ord_seed t_md now ∷ [])
            (send_new cfg m row s side px t_md now)
    unfolding send_new log_record
    send_new-Leaves m queue row px t_md now at r room =
        let (ok, after) =
          push_with_room m queue (order_at s side px m.cl_ord_seed t_md now) r room in
        rw (wet, ok)
          (record {
            slot = get_elem?-set_self m.oms s _ (get_elem?-lt m.oms s at);
            sent = after;
            seed = refl;
          })

    send_cancel-Leaves :
        (m : MarketMaker W) (queue : List (OrderCmd W)) (row : Row W) (t_md now : ℤ)
        → get_elem? m.oms s ≡ some row
        → Represents ord_bits m.out queue
        → length queue < 2 ^ ord_bits
        → Leaves m queue s row side
            (record (quote_of row side) { state = QuoteState.pending_cancel })
            (cancel_of (quote_of row side) s side m.cl_ord_seed t_md now ∷ [])
            (send_cancel cfg m row s side t_md now)
    unfolding send_cancel log_record
    send_cancel-Leaves m queue row t_md now at r room =
        let (ok, after) =
          push_with_room m queue (cancel_of (quote_of row side) s side m.cl_ord_seed t_md now) r
            room in
        rw (wet, ok)
          (record {
            slot = get_elem?-set_self m.oms s _ (get_elem?-lt m.oms s at);
            sent = after;
            seed = refl;
          })

    pub cancel_row-Leaves :
        (st : QuoteState) (m : MarketMaker W) (queue : List (OrderCmd W)) (row : Row W)
        (t_md now : ℤ)
        → get_elem? m.oms s ≡ some row
        → Represents ord_bits m.out queue
        → length queue < 2 ^ ord_bits
        → Leaves m queue s row side
            (pulled st (quote_of row side))
            (pulls st (quote_of row side) s side m.cl_ord_seed t_md now)
            (cancel_row cfg st m row s side t_md now)
    unfolding cancel_row
    cancel_row-Leaves QuoteState.live m queue row t_md now at r room =
        send_cancel-Leaves m queue row t_md now at r room
    cancel_row-Leaves _ m queue row t_md now at r room = unchanged m queue s row side at r

    pub requote_row-Leaves :
        (st : QuoteState) (m : MarketMaker W) (queue : List (OrderCmd W)) (row : Row W) (px : W)
        (t_md now : ℤ)
        → get_elem? m.oms s ≡ some row
        → Represents ord_bits m.out queue
        → length queue < 2 ^ ord_bits
        → Leaves m queue s row side
            (wanted_quote st (quote_of row side) px m.cl_ord_seed)
            (wanted st (quote_of row side) s side px m.cl_ord_seed t_md now)
            (requote_row cfg st m row s side px t_md now)
    unfolding requote_row cancel_row
    requote_row-Leaves QuoteState.none_yet m queue row px t_md now at r room =
        send_new-Leaves m queue row px t_md now at r room
    requote_row-Leaves QuoteState.live m queue row px t_md now at r room =
        elim (Bool-cases (near (quote_of row side) px)) [
          | inl there ↦ rw there (unchanged m queue s row side at r)
          | inr moved ↦ rw moved (send_cancel-Leaves m queue row t_md now at r room)
        ]
    requote_row-Leaves _ m queue row px t_md now at r room = unchanged m queue s row side at r

  pub wanted-length :
      (st : QuoteState) (q : Quote W) (sym : ℕ) (side : OrdSide) (px : W) (id : ℕ) (t_md now : ℤ)
      → length (wanted st q sym side px id t_md now) ≤ 1
  wanted-length QuoteState.none_yet q sym side px id t_md now = omega arith
  wanted-length QuoteState.live q sym side px id t_md now = elim (Bool-cases (near q px)) [
    | inl there ↦ rw there (omega arith)
    | inr moved ↦ rw moved (omega arith)
  ]
  wanted-length _ q sym side px id t_md now = omega arith

  pub pulls-length :
      (st : QuoteState) (q : Quote W) (sym : ℕ) (side : OrdSide) (id : ℕ) (t_md now : ℤ)
      → length (pulls st q sym side id t_md now) ≤ 1
  pulls-length QuoteState.live q sym side id t_md now = omega arith
  pulls-length _ q sym side id t_md now = omega arith
