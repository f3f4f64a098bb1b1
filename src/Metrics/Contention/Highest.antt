-- ===== src/Metrics/Contention/Highest.antt =====
-- What the mark holds while the threads contend for it.
use mm_engine.Base.{
  ℕ, zero, suc, ◌≤◌, ◌≡◌, refl, ap, sym, ◌∙◌, Bool, true, false, List, [], ◌∷◌, arith, ltb, ltb→lt,
  All, Bool-cases, inl, inr, subst, ◌==◌, ==_iff,
}
use mm_engine.Metrics.{track_max}
use mm_engine.Metrics.Contention.{
  Place, Caller, exchange, max_action, Marked, act, Turn, interleave, calls,
}

-- The calls one after another.
unfoldable pub track_all : (mark : ℕ) → List ℕ → ℕ
track_all mark [] = mark
track_all mark (v ∷ vs) = track_max (track_all mark vs) v

unfoldable pub AllDone : List Caller → Type 0
AllDone cs = All (λ (c : Caller). c.place ≡ Place.done) cs

-- What a thread has seen is at most the mark, and so is its value once it is done.
abbrev Settled : (mark v : ℕ) → Place → Type 0
Settled mark v Place.load = Unit
Settled mark v (Place.seen cur) = cur ≤ mark
Settled mark v Place.done = v ≤ mark

abbrev AllSettled : (mark : ℕ) → List Caller → Type 0
AllSettled mark [] = Unit
AllSettled mark (c ∷ cs) = Settled mark c.value c.place × AllSettled mark cs

abbrev values : List Caller → List ℕ
values [] = []
values (c ∷ cs) = c.value ∷ values cs

abbrev Below : (top : ℕ) → List ℕ → Type 0
Below top vs = All (λ (v : ℕ). v ≤ top) vs

Settled-higher : {m n : ℕ} → m ≤ n → (v : ℕ) (p : Place) → Settled m v p → Settled n v p
Settled-higher h v Place.load s = s
Settled-higher h v (Place.seen cur) s = omega arith
Settled-higher h v Place.done s = omega arith

AllSettled-higher : {m n : ℕ} → m ≤ n → (cs : List Caller) → AllSettled m cs → AllSettled n cs
AllSettled-higher h [] s = s
AllSettled-higher h (c ∷ cs) (s, ss) =
    (Settled-higher h c.value c.place s, AllSettled-higher h cs ss)

-- An action never lowers the mark, and raises it to no more than the caller's value.
record Raises (mark v : ℕ) (out : ℕ × Place) : Type 0 where
  higher : mark ≤ out.0
  settled : Settled out.0 v out.1
  bounded : (top : ℕ) → mark ≤ top → v ≤ top → out.0 ≤ top

exchange-Raises :
    (fails : Bool) (v mark cur : ℕ)
    → cur ≤ mark
    → cur ≤ v
    → Raises mark v (exchange fails v mark cur)
exchange-Raises true v mark cur s h = record {
  higher = omega arith;
  settled = omega arith;
  bounded = λ top m w. m;
}
exchange-Raises false v mark cur s h = elim (Bool-cases (mark == cur)) [
  | inl same ↦ rw same (record {
    higher = omega (arith, (==_iff mark cur).0 same);
    settled = omega arith;
    bounded = λ top m w. w;
  })
  | inr other ↦
      rw other (record { higher = omega arith; settled = omega arith; bounded = λ top m w. m })
]

max_action-Raises :
    (fails : Bool) (v mark : ℕ) (p : Place)
    → Settled mark v p
    → Raises mark v (max_action fails v mark p)
unfolding max_action
max_action-Raises fails v mark Place.load s = record {
  higher = omega arith;
  settled = omega arith;
  bounded = λ top m w. m;
}
max_action-Raises fails v mark (Place.seen cur) s = elim (Bool-cases (ltb cur v)) [
  | inl less ↦ rw less (exchange-Raises fails v mark cur s (omega (arith, ltb→lt _ _ less)))
  | inr enough ↦
      rw enough (record { higher = omega arith; settled = ground arith; bounded = λ top m w. m })
]
max_action-Raises fails v mark Place.done s = record {
  higher = omega arith;
  settled = s;
  bounded = λ top m w. m;
}

-- The same of all callers at a mark.
record Grows (mark : ℕ) (cs : List Caller) (s : Marked) : Type 0 where
  higher : mark ≤ s.mark
  settled : AllSettled s.mark s.callers
  same : values s.callers ≡ values cs
  bounded : (top : ℕ) → mark ≤ top → Below top (values cs) → s.mark ≤ top

act-Grows :
    (fails : Bool) (i mark : ℕ) (cs : List Caller)
    → AllSettled mark cs
    → Grows mark cs (act fails i mark cs)
unfolding act
act-Grows fails i mark [] s = record {
  higher = omega arith;
  settled = tt;
  same = refl;
  bounded = λ top m w. m;
}
act-Grows fails zero mark (c ∷ cs) (s, ss) =
    let one = max_action-Raises fails c.value mark c.place s in
    record {
      higher = one.higher;
      settled = (one.settled, AllSettled-higher one.higher cs ss);
      same = refl;
      bounded = λ top m w. one.bounded top m w.0;
    }
act-Grows fails (suc i) mark (c ∷ cs) (s, ss) =
    let rest = act-Grows fails i mark cs ss in
    record {
      higher = rest.higher;
      settled = (Settled-higher rest.higher c.value c.place s, rest.settled);
      same = ap (λ (vs : List ℕ). c.value ∷ vs) rest.same;
      bounded = λ top m w. rest.bounded top m w.1;
    }

interleave-Grows :
    (ts : List Turn) (s : Marked)
    → AllSettled s.mark s.callers
    → Grows s.mark s.callers (interleave ts s)
unfolding interleave
interleave-Grows [] s ok = record {
  higher = omega arith;
  settled = ok;
  same = refl;
  bounded = λ top m w. m;
}
interleave-Grows (t ∷ ts) s ok =
    let one = act-Grows t.fails t.who s.mark s.callers ok in
    let rest = interleave-Grows ts (act t.fails t.who s.mark s.callers) one.settled in
    record {
      higher = omega (arith, one.higher, rest.higher);
      settled = rest.settled;
      same = rest.same ∙ one.same;
      bounded =
          λ top m w. rest.bounded top (one.bounded top m w) (subst (Below top) (sym one.same) w);
    }

values-calls : (vs : List ℕ) → values (calls vs) ≡ vs
values-calls [] = refl
values-calls (v ∷ vs) = ap (λ (ws : List ℕ). v ∷ ws) (values-calls vs)

calls-AllSettled : (mark : ℕ) (vs : List ℕ) → AllSettled mark (calls vs)
calls-AllSettled mark [] = tt
calls-AllSettled mark (v ∷ vs) = (tt, calls-AllSettled mark vs)

-- `track_all` is the least upper bound.
track_all-above : (mark : ℕ) (vs : List ℕ) → mark ≤ track_all mark vs
unfolding track_all
track_all-above mark [] = omega arith
track_all-above mark (v ∷ vs) = ground (arith, track_all-above mark vs)

Below-higher : {m n : ℕ} → m ≤ n → (vs : List ℕ) → Below m vs → Below n vs
Below-higher h [] b = b
Below-higher h (v ∷ vs) (b, bs) = (omega arith, Below-higher h vs bs)

track_max-above : (m v : ℕ) → (m ≤ track_max m v) × (v ≤ track_max m v)
track_max-above m v = ground arith

track_all-Below : (mark : ℕ) (vs : List ℕ) → Below (track_all mark vs) vs
unfolding track_all
track_all-Below mark [] = tt
track_all-Below mark (v ∷ vs) =
    let above = track_max-above (track_all mark vs) v in
    (above.1, Below-higher above.0 vs (track_all-Below mark vs))

track_all-least : (mark top : ℕ) (vs : List ℕ) → mark ≤ top → Below top vs → track_all mark vs ≤ top
unfolding track_all
track_all-least mark top [] h b = h
track_all-least mark top (v ∷ vs) h (b, bs) = ground (arith, track_all-least mark top vs h bs)

done-Below : (top : ℕ) (cs : List Caller) → AllSettled top cs → AllDone cs → Below top (values cs)
unfolding AllDone
done-Below top [] s d = tt
done-Below top (c ∷ cs) (s, ss) (d, ds) = (subst (Settled top c.value) d s, done-Below top cs ss ds)

-- Any number of threads call `track_max` on one mark at the same time, in any interleaving of
-- their loads and exchanges, of which any may fail without a cause. When all have returned, the
-- mark is what the calls one after another leave.
pub interleave-track_all :
    (vs : List ℕ) (mark : ℕ) (ts : List Turn)
    → AllDone (interleave ts (record { mark = mark; callers = calls vs })).callers
    → (interleave ts (record { mark = mark; callers = calls vs })).mark ≡ track_all mark vs
interleave-track_all vs mark ts finished = omega (arith, high, low)
  where
    last : Marked
    last = interleave ts (record { mark = mark; callers = calls vs })

    grown : Grows mark (calls vs) last
    grown =
        interleave-Grows ts (record { mark = mark; callers = calls vs }) (calls-AllSettled mark vs)

    high : last.mark ≤ track_all mark vs
    high =
        grown.bounded (track_all mark vs) (track_all-above mark vs)
          (subst (Below _) (sym (values-calls vs)) (track_all-Below mark vs))

    low : track_all mark vs ≤ last.mark
    low =
        track_all-least mark _ vs grown.higher
          (subst (Below _) (grown.same ∙ values-calls vs) (done-Below _ _ grown.settled finished))
