-- ===== src/Strategy/Refine.antt =====
-- The functions of src/strategy/market_maker.hpp keep to the order protocol of View.antt.
use mathlib.Core.List.{append_assoc}
use mathlib.Core.Option.{some-injective}
use mm_engine.Base.{
  ℕ, ◌+◌, ◌^◌, ◌≤◌, arith, ◌≡◌, refl, sym, ◌∙◌, ◌⊎◌, inl, inr, true, false, some, List, [], ◌∷◌,
  ◌++◌, u64, get_elem?, set, ltb, length, >>=-eq-some, Bool-cases,
}
use mm_engine.Base.Int.{ℤ}
use mm_engine.Double.{Double}
use mm_engine.Config.{EngineConfig}
use mm_engine.Events.{OrderCmd, OrdSide, ExecEvent, LogRecord}
use mm_engine.Oms.{Quote, QuoteState, Row, quote_of, put_quote}
use mm_engine.Ring.Queue
use mm_engine.Ring.{try_push}
use mm_engine.Ring.Refine.{Represents, try_push_refines}
use mm_engine.Strategy.{
  MarketMaker, ord_bits, log_record, send_new, send_cancel, requote, cancel_side, new_cmd,
  cancel_cmd, already_there, cancel_row, requote_row,
}
use mm_engine.Strategy.View.{
  View, Transition, place, pull, Act, waste, send, draws, Acts, done, next,
}

module _ {W : Type 0} where
  -- The state seen as a view: the commands sent are those that the sender has taken and those that
  -- are still in the ring.
  pub record Views (taken : List (OrderCmd W)) (m : MarketMaker W) (v : View W) : Type 0 where
    pub same_oms : v.oms ≡ m.oms
    pub same_seed : v.seed ≡ m.cl_ord_seed
    pub queue : List (OrderCmd W)
    pub holds : Represents ord_bits m.out queue
    pub history : taken ++ queue ≡ v.sent

  pub log_record-Views :
      {taken : List (OrderCmd W)} {m : MarketMaker W} {v : View W} (r : LogRecord W)
      → Views taken m v
      → Views taken (log_record m r) v
  unfolding log_record
  log_record-Views r x = record {
    same_oms = x.same_oms;
    same_seed = x.same_seed;
    queue = x.queue;
    holds = x.holds;
    history = x.history;
  }

  -- The two outcomes of a push to the order ring.
  pub push_cases :
      {taken : List (OrderCmd W)} {m : MarketMaker W} {v : View W} (x : Views taken m v)
      (c : OrderCmd W)
      → (((try_push ord_bits m.out c).0 ≡ true)
          × Represents ord_bits (try_push ord_bits m.out c).1 (x.queue ++ c ∷ []))
        ⊎ (((try_push ord_bits m.out c).0 ≡ false)
            × Represents ord_bits (try_push ord_bits m.out c).1 x.queue)
  unfolding Queue.push
  push_cases {m} x c = elim (Bool-cases (ltb (length x.queue) (2 ^ ord_bits))) [
    | inl room ↦ inl (rw room at (try_push_refines ord_bits x.holds c))
    | inr full ↦ inr (rw full at (try_push_refines ord_bits x.holds c))
  ]

module _ {W : Type 0} ⦃d : Double W⦄ (cfg : EngineConfig W) (Reported : ExecEvent W → Type 0)
    (taken : List (OrderCmd W)) where
  -- Some acts, which use up no more than `most` numbers, lead from the view to one of the new state.
  abbrev pub Follows : (most : ℕ) → View W → MarketMaker W → Type 0
  Follows most v m = (n : ℕ) × (w : View W) × Acts Reported v n w × Views taken m w × (n ≤ most)

  one-Act :
      {v w : View W} {m : MarketMaker W} (act : Act Reported v w)
      → Views taken m w
      → draws Reported act ≤ 1
      → Follows 1 v m
  one-Act {w = w} act x few = (_, w, next done act, x, omega (arith, few))

  -- A command that the ring takes, or does not, once the seed has moved on.
  sent-Follows :
      {m : MarketMaker W} {v : View W} (x : Views taken m v) (s : ℕ) (side : OrdSide) (row : Row W)
      (c : OrderCmd W) (q' : Quote W)
      → get_elem? m.oms s ≡ some row
      → Transition (quote_of row side) c q'
      → (c.symbol_id ≡ s) × (c.side ≡ side) × (c.cl_ord_id ≡ m.cl_ord_seed)
      → Represents ord_bits (try_push ord_bits m.out c).1 (x.queue ++ c ∷ [])
      → (m' : MarketMaker W) → m'.oms ≡ set m.oms s (put_quote row side q')
      → m'.out ≡ (try_push ord_bits m.out c).1
      → m'.cl_ord_seed ≡ u64 (m.cl_ord_seed + 1)
      → Follows 1 v m'
  sent-Follows {m} {v} x s side row c q' at step (k, h, id) r m' eo er es =
      one-Act (send s side row c q' (rw x.same_oms at) step (k, h, id ∙ sym x.same_seed))
        (record {
          same_oms = rw x.same_oms (sym eo);
          same_seed = rw x.same_seed (sym es);
          queue = x.queue ++ c ∷ [];
          holds = rw er r;
          history = rw (← append_assoc, x.history);
        })
        (omega arith)

  wasted-Follows :
      {m : MarketMaker W} {v : View W} (x : Views taken m v) (m' : MarketMaker W)
      → m'.oms ≡ m.oms
      → Represents ord_bits m'.out x.queue
      → m'.cl_ord_seed ≡ u64 (m.cl_ord_seed + 1)
      → Follows 1 v m'
  wasted-Follows {m} {v} x m' eo r es =
      one-Act waste
        (record {
          same_oms = x.same_oms ∙ sym eo;
          same_seed = rw x.same_seed (sym es);
          queue = x.queue;
          holds = r;
          history = x.history;
        })
        (omega arith)

  send_new-Follows :
      {m : MarketMaker W} {v : View W} (row : Row W) (s : ℕ) (side : OrdSide) (px : W)
      (t_md now : ℤ)
      → get_elem? m.oms s ≡ some row
      → (quote_of row side).state ≡ QuoteState.none_yet
      → Views taken m v
      → Follows 1 v (send_new cfg m row s side px t_md now)
  unfolding send_new log_record
  send_new-Follows {m} {v} row s side px t_md now at free x = elim (Bool-cases cfg.dry_run) [
    | inl dry ↦ rw dry (wasted-Follows x _ refl x.holds refl)
    | inr wet ↦ elim (push_cases x (new_cmd cfg px s side m.cl_ord_seed t_md now)) [
      | inl (ok, r) ↦
          rw (wet, ok)
            (sent-Follows x s side row (new_cmd cfg px s side m.cl_ord_seed t_md now) _ at
              (place free refl refl) (refl, refl, refl) r _ refl refl refl)
      | inr (ok, r) ↦ rw (wet, ok) (wasted-Follows x _ refl r refl)
    ]
  ]

  send_cancel-Follows :
      {m : MarketMaker W} {v : View W} (row : Row W) (s : ℕ) (side : OrdSide) (t_md now : ℤ)
      → get_elem? m.oms s ≡ some row
      → (quote_of row side).state ≡ QuoteState.live
      → Views taken m v
      → Follows 1 v (send_cancel cfg m row s side t_md now)
  unfolding send_cancel log_record
  send_cancel-Follows {m} {v} row s side t_md now at live x = elim (Bool-cases cfg.dry_run) [
    | inl dry ↦ rw dry (wasted-Follows x _ refl x.holds refl)
    | inr wet ↦
        elim (push_cases x (cancel_cmd cfg (quote_of row side) s side m.cl_ord_seed t_md now)) [
          | inl (ok, r) ↦
              rw (wet, ok)
                (sent-Follows x s side row
                  (cancel_cmd cfg (quote_of row side) s side m.cl_ord_seed t_md now) _ at
                  (pull live refl refl refl) (refl, refl, refl) r _ refl refl refl)
          | inr (ok, r) ↦ rw (wet, ok) (wasted-Follows x _ refl r refl)
        ]
  ]

  stay : {m : MarketMaker W} {v : View W} → Views taken m v → Follows 1 v m
  stay {v = v} x = (0, v, done, x, omega arith)

  cancel_row-Follows :
      (st : QuoteState) {m : MarketMaker W} {v : View W} (row : Row W) (s : ℕ) (side : OrdSide)
      (t_md now : ℤ)
      → get_elem? m.oms s ≡ some row
      → (quote_of row side).state ≡ st
      → Views taken m v
      → Follows 1 v (cancel_row cfg st m row s side t_md now)
  unfolding cancel_row
  cancel_row-Follows QuoteState.live row s side t_md now at is x =
      send_cancel-Follows row s side t_md now at is x
  cancel_row-Follows _ row s side t_md now at is x = stay x

  requote_row-Follows :
      (st : QuoteState) {m : MarketMaker W} {v : View W} (row : Row W) (s : ℕ) (side : OrdSide)
      (px : W) (t_md now : ℤ)
      → get_elem? m.oms s ≡ some row
      → (quote_of row side).state ≡ st
      → Views taken m v
      → Follows 1 v (requote_row cfg st m row s side px t_md now)
  unfolding requote_row
  requote_row-Follows QuoteState.live row s side px t_md now at is x =
      elim (Bool-cases (already_there cfg (quote_of row side) px)) [
        | inl there ↦ rw there (stay x)
        | inr moved ↦ rw moved (cancel_row-Follows QuoteState.live row s side t_md now at is x)
      ]
  requote_row-Follows QuoteState.none_yet row s side px t_md now at is x =
      send_new-Follows row s side px t_md now at is x
  requote_row-Follows _ row s side px t_md now at is x = stay x

  -- On a symbol with quotes, `cancel_side` ends and what it does is a sequence of acts.
  pub cancel_side-Follows :
      {m : MarketMaker W} {v : View W} (s : ℕ) (side : OrdSide) (t_md now : ℤ) {m' : MarketMaker W}
      → Views taken m v
      → cancel_side cfg m s side t_md now ≡ some m'
      → Follows 1 v m'
  unfolding cancel_side
  cancel_side-Follows {m} s side t_md now x e =
      let (row, at, is) = >>=-eq-some (get_elem? m.oms s) _ e in
      rw (← some-injective _ _ is)
        (cancel_row-Follows (quote_of row side).state row s side t_md now at refl x)

  pub requote-Follows :
      {m : MarketMaker W} {v : View W} (s : ℕ) (side : OrdSide) (px : W) (t_md now : ℤ)
      {m' : MarketMaker W}
      → Views taken m v
      → requote cfg m s side px t_md now ≡ some m'
      → Follows 1 v m'
  unfolding requote
  requote-Follows {m} s side px t_md now x e =
      let (row, at, is) = >>=-eq-some (get_elem? m.oms s) _ e in
      rw (← some-injective _ _ is)
        (requote_row-Follows (quote_of row side).state row s side px t_md now at refl x)
