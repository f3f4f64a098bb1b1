-- ===== src/Strategy/Total.antt =====
-- A round of `MarketMaker::run` in src/strategy/market_maker.hpp, when what waits in its rings names
-- symbols of the table.
use mm_engine.Base.{
  ℕ, zero, suc, ◌<◌, ◌≡◌, refl, sym, ◌∙◌, ap, subst, inl, inr, some, List, [], ◌∷◌, arith,
  get_elem?, get_elem?-some, set, length, length-set, ◌>>=◌, Bool-cases, All,
}
use mm_engine.Base.Int.{ℤ}
use mm_engine.Double.{Double}
use mm_engine.Config.{EngineConfig}
use mm_engine.Events.{OrdSide, buy, sell, ExecEvent, MdEvent, max_symbols}
use mm_engine.Book.{OrderBook, has_bba, apply_snapshot}
use mm_engine.Oms.{OrderManager, Row, on_exec, report_row}
use mm_engine.Ring.Queue
use mm_engine.Ring.{try_pop}
use mm_engine.Ring.Refine.{Represents, try_pop_refines}
use mm_engine.Strategy.{MarketMaker, Readings, exec_bits, md_bits, log_record, requote, cancel_side}
use mm_engine.Strategy.Loop.{
  decide, our_bid, our_ask, is_wide, would_cross, note_fill, take_report, drain, take_snapshot,
  take_event, react, booked, round,
}
use mm_engine.Strategy.Rounds.{drain_empty, drain_more}
use mm_engine.Strategy.Frame.{Kept, requote-Kept, cancel_side-Kept, take_event-Kept}

module _ {W : Type 0} where
  -- The tables of quotes and books have their sizes.
  pub record Sized (m : MarketMaker W) : Type 0 where
    pub quotes : length m.oms ≡ max_symbols
    pub all_books : length m.books ≡ max_symbols

  Kept-Sized : {m m' : MarketMaker W} → Kept m m' → Sized m → Sized m'
  Kept-Sized k s = record {
    quotes = k.quotes_kept ∙ s.quotes;
    all_books = k.books_kept ∙ s.all_books;
  }

  abbrev pub ReportListed : ExecEvent W → Type 0
  ReportListed e = e.symbol_id < max_symbols

  abbrev pub SnapshotListed : MdEvent W → Type 0
  SnapshotListed e = e.symbol_id < max_symbols

module _ {W : Type 0} ⦃d : Double W⦄ (cfg : EngineConfig W) where
  requote-total :
      (m : MarketMaker W) (s : ℕ) (side : OrdSide) (px : W) (t_md now : ℤ)
      → s < length m.oms
      → (m' : MarketMaker W) × (requote cfg m s side px t_md now ≡ some m')
  unfolding requote
  requote-total m s side px t_md now h = let (row, at) = get_elem?-some m.oms s h in rw at (_, refl)

  cancel_side-total :
      (m : MarketMaker W) (s : ℕ) (side : OrdSide) (t_md now : ℤ)
      → s < length m.oms
      → (m' : MarketMaker W) × (cancel_side cfg m s side t_md now ≡ some m')
  unfolding cancel_side
  cancel_side-total m s side t_md now h =
      let (row, at) = get_elem?-some m.oms s h in rw at (_, refl)

  decide-total :
      (m : MarketMaker W) (s : ℕ) (ob : OrderBook W) (t_md t_buy t_sell : ℤ)
      → s < length m.oms
      → (m' : MarketMaker W) × (decide cfg m s ob t_md t_buy t_sell ≡ some m')
  unfolding decide
  decide-total m s ob t_md t_buy t_sell h = elim (Bool-cases (is_wide cfg ob)) [
    | inl wide ↦ elim (Bool-cases (would_cross cfg ob)) [
      | inl cross ↦ rw (wide, cross) (m, refl)
      | inr apart ↦
          let (m1, first) = requote-total m s buy (our_bid cfg ob) t_md t_buy h in
          rw (wide, apart, first)
            (requote-total m1 s sell (our_ask cfg ob) t_md t_sell
              (omega (arith, (requote-Kept cfg m s buy _ t_md t_buy first).quotes_kept)))
    ]
    | inr narrow ↦
        let (m1, first) = cancel_side-total m s buy t_md t_buy h in
        rw (narrow, first)
          (cancel_side-total m1 s sell t_md t_sell
            (omega (arith, (cancel_side-Kept cfg m s buy t_md t_buy first).quotes_kept)))
  ]

  react-total :
      (m : MarketMaker W) (ev : MdEvent W) (ob : OrderBook W) (now : Readings)
      → ev.symbol_id < length m.oms
      → (m' : MarketMaker W) × (react cfg m ev ob now ≡ some m')
  react-total m ev ob now h = elim (Bool-cases (has_bba ob)) [
    | inl quoted ↦ rw quoted (decide-total m ev.symbol_id ob _ _ _ h)
    | inr lacks ↦ rw lacks (m, refl)
  ]

  take_snapshot-total :
      (m : MarketMaker W) (ev : MdEvent W) (now : Readings)
      → SnapshotListed ev
      → Sized m
      → (m' : MarketMaker W) × (take_snapshot cfg m ev now ≡ some m')
  unfolding take_snapshot
  take_snapshot-total m ev now h s =
      let (old, at) = get_elem?-some m.books ev.symbol_id (omega (arith, s.all_books)) in
      let ob = apply_snapshot old ev cfg.book_depth in
      let (m1, chosen) = react-total (booked cfg m ev ob now) ev ob now (omega (arith, s.quotes)) in
      rw (at, chosen) (_, refl)

module _ {W : Type 0} ⦃d : Double W⦄ where
  note_fill-fields :
      (m : MarketMaker W) (e : ExecEvent W)
      → let m' = note_fill m e in
        (m'.exec ≡ m.exec) × (m'.md ≡ m.md) × (m'.oms ≡ m.oms) × (m'.books ≡ m.books)
  unfolding note_fill log_record
  note_fill-fields m e = ground arith

  pub on_exec-total :
      (oms : OrderManager W) (e : ExecEvent W) {row : Row W}
      → get_elem? oms e.symbol_id ≡ some row
      → on_exec oms e ≡ some (set oms e.symbol_id (report_row e row))
  unfolding on_exec
  on_exec-total oms e at = rw (on_exec, at) refl

  take_report-total :
      (m : MarketMaker W) (e : ExecEvent W)
      → ReportListed e
      → Sized m
      → (m' : MarketMaker W) × (take_report m e ≡ some m')
        × (m'.exec ≡ m.exec)
        × (m'.md ≡ m.md)
        × Sized m'
  unfolding take_report
  take_report-total m e h s =
      let (row, at) = get_elem?-some m.oms e.symbol_id (omega (arith, s.quotes)) in
      let oms = set m.oms e.symbol_id (report_row e row) in
      let (same_exec, same_md, same_oms, same_books) =
        note_fill-fields (record m { oms = oms }) e in
      (
        note_fill (record m { oms = oms }) e,
        ap (λ o. o >>= λ t. some (note_fill (record m { oms = t }) e)) (on_exec-total m.oms e at),
        same_exec,
        same_md,
        record {
          quotes =
              ap length same_oms ∙ (length-set m.oms e.symbol_id (report_row e row) ∙ s.quotes);
          all_books = ap length same_books ∙ s.all_books;
        },
      )

  -- With fuel for one turn more than there are reports the inner loop takes them all.
  drain-total :
      (fuel : ℕ) (m : MarketMaker W) (q : List (ExecEvent W))
      → Represents exec_bits m.exec q
      → All ReportListed q
      → length q < fuel
      → Sized m
      → (m' : MarketMaker W) × (drain fuel m ≡ some m')
        × Represents exec_bits m'.exec []
        × (m'.md ≡ m.md)
        × Sized m'
  drain-total zero m q r a h s = absurd (omega arith)
  drain-total (suc fuel) m [] r a h s =
      let (same, after) = drain_empty fuel m r in
      (_, same, after, refl, record { quotes = s.quotes; all_books = s.all_books })
  drain-total (suc fuel) m (e ∷ q) r (ok, a) h s =
      let (same, after) = drain_more fuel m q r in
      let m₀ : MarketMaker W = record m { exec = (try_pop exec_bits m.exec).1 } in
      let (m₁, took, same_exec, same_md, s₁) =
        take_report-total m₀ e ok (record { quotes = s.quotes; all_books = s.all_books }) in
      let (m', rest, emptied, md_kept, s') =
        drain-total fuel m₁ q (subst (λ ring. Represents exec_bits ring q) (sym same_exec) after) a
          (omega arith) s₁ in
      (m', same ∙ (ap (λ o. o >>= drain fuel) took ∙ rest), emptied, md_kept ∙ same_md, s')

module _ {W : Type 0} ⦃d : Double W⦄ (cfg : EngineConfig W) where
  take_event-total :
      (m : MarketMaker W) (evs : List (MdEvent W)) (now : Readings)
      → All SnapshotListed evs
      → Sized m
      → (m' : MarketMaker W) × (take_event cfg (Queue.pop evs).0 m now ≡ some m')
        × (m'.exec ≡ m.exec)
        × (m'.md ≡ m.md)
        × Sized m'
  unfolding Queue.pop
  take_event-total m [] now a s = (m, refl, refl, refl, s)
  take_event-total m (ev ∷ evs) now (ok, a) s =
      let (m', is) = take_snapshot-total cfg m ev now ok s in
      let kept = take_event-Kept cfg (some ev) m now is in
      (m', is, kept.exec_kept, kept.md_kept, Kept-Sized kept s)

  -- When the reports and the snapshots that wait in the rings name symbols of the table, and there
  -- is fuel for one turn more than there are reports, a round reads inside its tables: it gives a
  -- state, in which no report waits, the oldest snapshot is taken and the tables have their sizes.
  pub round-total :
      (fuel : ℕ) (m : MarketMaker W) (now : Readings) (q : List (ExecEvent W))
      (evs : List (MdEvent W))
      → Represents exec_bits m.exec q
      → Represents md_bits m.md evs
      → All ReportListed q
      → All SnapshotListed evs
      → Sized m
      → length q < fuel
      → (m' : MarketMaker W) × (round cfg fuel m now ≡ some m')
        × Represents exec_bits m'.exec []
        × Represents md_bits m'.md (Queue.pop evs).1
        × Sized m'
  unfolding round
  round-total fuel m now q evs r v a b s h =
      let (m₁, drained, emptied, same_md, s₁) = drain-total fuel m q r a h s in
      let (oldest, later) =
        try_pop_refines md_bits evs (subst (λ ring. Represents md_bits ring evs) (sym same_md) v) in
      let m₂ : MarketMaker W = record m₁ { md = (try_pop md_bits m₁.md).1 } in
      let (m', is, same_exec, md_kept, s') =
        take_event-total m₂ evs now b (record { quotes = s₁.quotes; all_books = s₁.all_books }) in
      (
        m',
        rw (drained, oldest) is,
        subst (λ ring. Represents exec_bits ring []) (sym same_exec) emptied,
        subst (λ ring. Represents md_bits ring (Queue.pop evs).1) (sym md_kept) later,
        s',
      )
