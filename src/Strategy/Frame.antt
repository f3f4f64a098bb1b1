-- ===== src/Strategy/Frame.antt =====
-- What the decision on a snapshot in src/strategy/market_maker.hpp leaves alone: the ring of
-- reports and the sizes of the tables.
use mathlib.Core.Option.{some-injective}
use mm_engine.Base.{
  ℕ, ◌≡◌, refl, ◌∙◌, inl, inr, Option, none, some, arith, get_elem?, length, length-set,
  >>=-eq-some, Bool-cases,
}
use mm_engine.Base.Int.{ℤ}
use mm_engine.Double.{Double}
use mm_engine.Config.{EngineConfig}
use mm_engine.Events.{OrdSide, buy, sell, MdEvent}
use mm_engine.Book.{OrderBook, has_bba, apply_snapshot}
use mm_engine.Strategy.{MarketMaker, Readings, log_record, requote, cancel_side}
use mm_engine.Strategy.Loop.{
  decide, our_bid, is_wide, would_cross, take_snapshot, take_event, react, booked, snapshot_due,
  push_snapshots,
}
use mm_engine.Strategy.{send_new, send_cancel, cancel_row, requote_row, already_there}
use mm_engine.Oms.{QuoteState, Row, quote_of}

module _ {W : Type 0} where
  pub record Kept (m m' : MarketMaker W) : Type 0 where
    pub exec_kept : m'.exec ≡ m.exec
    pub md_kept : m'.md ≡ m.md
    pub quotes_kept : length m'.oms ≡ length m.oms
    pub books_kept : length m'.books ≡ length m.books

  unchanged : (m : MarketMaker W) → Kept m m
  unchanged m = record { exec_kept = refl; md_kept = refl; quotes_kept = refl; books_kept = refl }

  pub both : {a b c : MarketMaker W} → Kept a b → Kept b c → Kept a c
  both h k = record {
    exec_kept = k.exec_kept ∙ h.exec_kept;
    md_kept = k.md_kept ∙ h.md_kept;
    quotes_kept = k.quotes_kept ∙ h.quotes_kept;
    books_kept = k.books_kept ∙ h.books_kept;
  }

module _ {W : Type 0} ⦃d : Double W⦄ (cfg : EngineConfig W) where
  pub booked-Kept :
      (m : MarketMaker W) (ev : MdEvent W) (ob : OrderBook W) (now : Readings)
      → Kept m (booked cfg m ev ob now)
  booked-Kept m ev ob now = record {
    exec_kept = refl;
    md_kept = refl;
    quotes_kept = refl;
    books_kept = length-set m.books ev.symbol_id ob;
  }

  send_new-Kept :
      (m : MarketMaker W) (row : Row W) (s : ℕ) (side : OrdSide) (px : W) (t_md now : ℤ)
      → Kept m (send_new cfg m row s side px t_md now)
  unfolding send_new log_record
  send_new-Kept m row s side px t_md now = record {
    exec_kept = ground arith;
    md_kept = ground arith;
    quotes_kept = grind (arith, length-set);
    books_kept = ground arith;
  }

  send_cancel-Kept :
      (m : MarketMaker W) (row : Row W) (s : ℕ) (side : OrdSide) (t_md now : ℤ)
      → Kept m (send_cancel cfg m row s side t_md now)
  unfolding send_cancel log_record
  send_cancel-Kept m row s side t_md now = record {
    exec_kept = ground arith;
    md_kept = ground arith;
    quotes_kept = grind (arith, length-set);
    books_kept = ground arith;
  }

  cancel_row-Kept :
      (st : QuoteState) (m : MarketMaker W) (row : Row W) (s : ℕ) (side : OrdSide) (t_md now : ℤ)
      → Kept m (cancel_row cfg st m row s side t_md now)
  unfolding cancel_row
  cancel_row-Kept QuoteState.live m row s side t_md now = send_cancel-Kept m row s side t_md now
  cancel_row-Kept _ m row s side t_md now = unchanged m

  requote_row-Kept :
      (st : QuoteState) (m : MarketMaker W) (row : Row W) (s : ℕ) (side : OrdSide) (px : W)
      (t_md now : ℤ)
      → Kept m (requote_row cfg st m row s side px t_md now)
  unfolding requote_row
  requote_row-Kept QuoteState.live m row s side px t_md now =
      elim (Bool-cases (already_there cfg (quote_of row side) px)) [
        | inl there ↦ rw there (unchanged m)
        | inr moved ↦ rw moved (cancel_row-Kept QuoteState.live m row s side t_md now)
      ]
  requote_row-Kept QuoteState.none_yet m row s side px t_md now =
      send_new-Kept m row s side px t_md now
  requote_row-Kept _ m row s side px t_md now = unchanged m

  pub cancel_side-Kept :
      (m : MarketMaker W) (s : ℕ) (side : OrdSide) (t_md now : ℤ) {m' : MarketMaker W}
      → cancel_side cfg m s side t_md now ≡ some m'
      → Kept m m'
  unfolding cancel_side
  cancel_side-Kept m s side t_md now e =
      let (row, at, is) = >>=-eq-some (get_elem? m.oms s) _ e in
      rw (← some-injective _ _ is) (cancel_row-Kept (quote_of row side).state m row s side t_md now)

  pub requote-Kept :
      (m : MarketMaker W) (s : ℕ) (side : OrdSide) (px : W) (t_md now : ℤ) {m' : MarketMaker W}
      → requote cfg m s side px t_md now ≡ some m'
      → Kept m m'
  unfolding requote
  requote-Kept m s side px t_md now e =
      let (row, at, is) = >>=-eq-some (get_elem? m.oms s) _ e in
      rw (← some-injective _ _ is)
        (requote_row-Kept (quote_of row side).state m row s side px t_md now)

  decide-Kept :
      (m : MarketMaker W) (s : ℕ) (ob : OrderBook W) (t_md t_buy t_sell : ℤ) {m' : MarketMaker W}
      → decide cfg m s ob t_md t_buy t_sell ≡ some m'
      → Kept m m'
  unfolding decide
  decide-Kept m s ob t_md t_buy t_sell e = elim (Bool-cases (is_wide cfg ob)) [
    | inl wide ↦ elim (Bool-cases (would_cross cfg ob)) [
      | inl cross ↦ rw (← some-injective _ _ (rw (wide, cross) at e)) (unchanged m)
      | inr open_ ↦
          let (m1, first, second) =
            >>=-eq-some (requote cfg m s buy (our_bid cfg ob) t_md t_buy) _
              (rw (wide, open_) at e) in
          both (requote-Kept m s buy _ t_md t_buy first)
            (requote-Kept m1 s sell _ t_md t_sell second)
    ]
    | inr narrow ↦
        let (m1, first, second) =
          >>=-eq-some (cancel_side cfg m s buy t_md t_buy) _ (rw narrow at e) in
        both (cancel_side-Kept m s buy t_md t_buy first)
          (cancel_side-Kept m1 s sell t_md t_sell second)
  ]

  pub snapshot_due-Kept : (m : MarketMaker W) (t_deq : ℤ) → Kept m (snapshot_due cfg m t_deq)
  unfolding snapshot_due push_snapshots
  snapshot_due-Kept m t_deq = record {
    exec_kept = ground arith;
    md_kept = ground arith;
    quotes_kept = ground arith;
    books_kept = ground arith;
  }

  pub react-Kept :
      (m : MarketMaker W) (ev : MdEvent W) (ob : OrderBook W) (now : Readings) {m' : MarketMaker W}
      → react cfg m ev ob now ≡ some m'
      → Kept m m'
  react-Kept m ev ob now e = elim (Bool-cases (has_bba ob)) [
    | inl quoted ↦ decide-Kept m ev.symbol_id ob _ _ _ (rw quoted at e)
    | inr lacks ↦ rw (← some-injective _ _ (rw lacks at e)) (unchanged m)
  ]

  pub take_event-Kept :
      (out : Option (MdEvent W)) (m : MarketMaker W) (now : Readings) {m' : MarketMaker W}
      → take_event cfg out m now ≡ some m'
      → Kept m m'
  unfolding take_snapshot
  take_event-Kept none m now e = rw (← some-injective _ _ e) (unchanged m)
  take_event-Kept (some ev) m now e =
      let (old, at, rest) = >>=-eq-some (get_elem? m.books ev.symbol_id) _ e in
      let ob = apply_snapshot old ev cfg.book_depth in
      let (m1, chosen, is) = >>=-eq-some (react cfg (booked cfg m ev ob now) ev ob now) _ rest in
      rw (← some-injective _ _ is) (
        both (both (booked-Kept m ev ob now) (react-Kept _ ev ob now chosen))
          (snapshot_due-Kept m1 now.t_deq))
