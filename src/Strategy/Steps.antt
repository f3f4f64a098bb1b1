-- ===== src/Strategy/Steps.antt =====
-- The decision on a snapshot and the taking of a report, in src/strategy/market_maker.hpp, keep to
-- the order protocol of View.antt.
use mathlib.Core.Option.{some-injective}
use mm_engine.Base.{
  ℕ, ◌+◌, arith, ◌≡◌, refl, inl, inr, Option, none, some, List, get_elem?, >>=-eq-some, Bool-cases,
}
use mm_engine.Base.Int.{ℤ, ltb_ℤ}
use mm_engine.Double.{Double}
use mm_engine.Config.{EngineConfig}
use mm_engine.Events.{OrderCmd, buy, sell, ExecEvent, MdEvent}
use mm_engine.Book.{OrderBook, has_bba, apply_snapshot}
use mm_engine.Oms.{on_exec}
use mm_engine.Ring.{Ring}
use mm_engine.Strategy.{MarketMaker, Readings, requote, cancel_side}
use mm_engine.Strategy.Loop.{
  decide, our_bid, is_wide, would_cross, note_fill, fill_log, take_report, take_snapshot,
  take_event, react, booked, snapshot_due, push_snapshots, is_fill,
}
use mm_engine.Strategy.View.{View, report, draws, Acts, done, next}
use mm_engine.Strategy.Refine.{
  Views, log_record-Views, Follows, requote-Follows, cancel_side-Follows,
}

module _ {W : Type 0} ⦃d : Double W⦄ (cfg : EngineConfig W) (Reported : ExecEvent W → Type 0)
    (taken : List (OrderCmd W)) where
  pub join :
      {v : View W} {n : ℕ} {w : View W} {k : ℕ} {u : View W}
      → Acts Reported v n w
      → Acts Reported w k u
      → (j : ℕ) × Acts Reported v j u × (j ≡ n + k)
  join {n = n} p done = (n, p, omega arith)
  join p (next q act) =
      let (j, r, sum) = join p q in (draws Reported act + j, next r act, omega (arith, sum))

  -- What follows from a state that follows.
  pub and_then :
      {a b : ℕ} {v : View W} {m m' : MarketMaker W}
      → Follows cfg Reported taken a v m
      → ((w : View W) → Views taken m w → Follows cfg Reported taken b w m')
      → Follows cfg Reported taken (a + b) v m'
  and_then (n, w, p, x, few) f =
      let (k, u, q, y, few') = f w x in
      let (j, r, sum) = join p q in (j, u, r, y, omega (arith, sum, few, few'))

  decide-Follows :
      {m : MarketMaker W} {v : View W} (s : ℕ) (ob : OrderBook W) (t_md t_buy t_sell : ℤ)
      {m' : MarketMaker W}
      → Views taken m v
      → decide cfg m s ob t_md t_buy t_sell ≡ some m'
      → Follows cfg Reported taken 2 v m'
  unfolding decide
  decide-Follows {m} {v} s ob t_md t_buy t_sell x e = elim (Bool-cases (is_wide cfg ob)) [
    | inl wide ↦ elim (Bool-cases (would_cross cfg ob)) [
      | inl cross ↦ rw (← some-injective _ _ (rw (wide, cross) at e)) (0, v, done, x, omega arith)
      | inr open_ ↦
          let (m1, first, second) =
            >>=-eq-some (requote cfg m s buy (our_bid cfg ob) t_md t_buy) _
              (rw (wide, open_) at e) in
          and_then (requote-Follows cfg Reported taken s buy _ t_md t_buy x first)
            λ w y. requote-Follows cfg Reported taken s sell _ t_md t_sell y second
    ]
    | inr narrow ↦
        let (m1, first, second) =
          >>=-eq-some (cancel_side cfg m s buy t_md t_buy) _ (rw narrow at e) in
        and_then (cancel_side-Follows cfg Reported taken s buy t_md t_buy x first)
          λ w y. cancel_side-Follows cfg Reported taken s sell t_md t_sell y second
  ]

  note_fill-Views :
      {m : MarketMaker W} {v : View W} (e : ExecEvent W)
      → Views taken m v
      → Views taken (note_fill m e) v
  unfolding note_fill
  note_fill-Views {m} {v} e x = elim (Bool-cases (is_fill e.kind)) [
    | inl fill ↦ rw fill (
        log_record-Views (fill_log e) (record {
          same_oms = x.same_oms;
          same_seed = x.same_seed;
          queue = x.queue;
          holds = x.holds;
          history = x.history;
        }))
    | inr other ↦ rw other x
  ]

  pub take_report-Follows :
      {m : MarketMaker W} {v : View W} (e : ExecEvent W) {m' : MarketMaker W}
      → Reported e
      → Views taken m v
      → take_report m e ≡ some m'
      → Follows cfg Reported taken 0 v m'
  unfolding take_report
  take_report-Follows {m} {v} e ok x h =
      let (oms, got, is) = >>=-eq-some (on_exec m.oms e) _ h in
      rw (← some-injective _ _ is) (
        0,
        record v { oms = oms },
        next done (report e oms ok (rw x.same_oms got)),
        note_fill-Views e (record {
          same_oms = refl;
          same_seed = x.same_seed;
          queue = x.queue;
          holds = x.holds;
          history = x.history;
        }),
        omega arith,
      )

  push_snapshots-Views :
      {m : MarketMaker W} {v : View W} (t_deq : ℤ)
      → Views taken m v
      → Views taken (snapshot_due cfg m t_deq) v
  unfolding snapshot_due push_snapshots
  push_snapshots-Views {m} t_deq x = elim (Bool-cases (ltb_ℤ t_deq m.next_snapshot_ns)) [
    | inl early ↦ rw early x
    | inr due ↦ rw due (record {
      same_oms = x.same_oms;
      same_seed = x.same_seed;
      queue = x.queue;
      holds = x.holds;
      history = x.history;
    })
  ]

  booked-Views :
      {m : MarketMaker W} {v : View W} (ev : MdEvent W) (ob : OrderBook W) (now : Readings)
      → Views taken m v
      → Views taken (booked cfg m ev ob now) v
  booked-Views ev ob now x = record {
    same_oms = x.same_oms;
    same_seed = x.same_seed;
    queue = x.queue;
    holds = x.holds;
    history = x.history;
  }

  pub with_md :
      {m : MarketMaker W} {v : View W} (r : Ring (MdEvent W))
      → Views taken m v
      → Views taken (record m { md = r }) v
  with_md r x = record {
    same_oms = x.same_oms;
    same_seed = x.same_seed;
    queue = x.queue;
    holds = x.holds;
    history = x.history;
  }

  react-Follows :
      {m : MarketMaker W} {v : View W} (ev : MdEvent W) (ob : OrderBook W) (now : Readings)
      {m' : MarketMaker W}
      → Views taken m v
      → react cfg m ev ob now ≡ some m'
      → Follows cfg Reported taken 2 v m'
  react-Follows {v = v} ev ob now x e = elim (Bool-cases (has_bba ob)) [
    | inl both ↦ decide-Follows ev.symbol_id ob ev.t_recv_ns now.t_buy now.t_sell x (rw both at e)
    | inr lacks ↦ rw (← some-injective _ _ (rw lacks at e)) (0, v, done, x, omega arith)
  ]

  take_snapshot-Follows :
      {m : MarketMaker W} {v : View W} (ev : MdEvent W) (now : Readings) {m' : MarketMaker W}
      → Views taken m v
      → take_snapshot cfg m ev now ≡ some m'
      → Follows cfg Reported taken 2 v m'
  unfolding take_snapshot
  take_snapshot-Follows {m} {v} ev now x e =
      let (old, at, rest) = >>=-eq-some (get_elem? m.books ev.symbol_id) _ e in
      let ob = apply_snapshot old ev cfg.book_depth in
      let (m1, chosen, is) = >>=-eq-some (react cfg (booked cfg m ev ob now) ev ob now) _ rest in
      rw (← some-injective _ _ is) (
        and_then {b = 0} (react-Follows ev ob now (booked-Views ev ob now x) chosen)
          λ w y. (0, w, done, push_snapshots-Views now.t_deq y, omega arith))

  pub take_event-Follows :
      (out : Option (MdEvent W)) {m : MarketMaker W} {v : View W} (now : Readings)
      {m' : MarketMaker W}
      → Views taken m v
      → take_event cfg out m now ≡ some m'
      → Follows cfg Reported taken 2 v m'
  take_event-Follows none {v = v} now x e = rw (← some-injective _ _ e) (0, v, done, x, omega arith)
  take_event-Follows (some ev) now x e = take_snapshot-Follows ev now x e
