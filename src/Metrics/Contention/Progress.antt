-- ===== src/Metrics/Contention/Progress.antt =====
-- How soon a call of `track_max` returns, whatever the other threads do.
use mm_engine.Base.{
  ℕ, zero, suc, ◌+◌, ◌-◌, ◌≤◌, ◌≡◌, refl, ap, sym, ◌∙◌, ◌≢◌, ◌⊎◌, Bool, true, false, List, [], ◌∷◌,
  some, arith, ltb, Bool-cases, inl, inr, subst, ◌==◌, ==_iff, length, get_elem?, if◌then◌else◌,
}
use mathlib.Core.Option.{some-injective}
use mm_engine.Metrics.Contention.{Place, Caller, max_action, Marked, act, Turn, interleave, calls}

abbrev open_place : Place → ℕ
open_place Place.done = 0
open_place _ = 1

-- The callers that have not returned.
unfoldable open_calls : List Caller → ℕ
open_calls [] = 0
open_calls (c ∷ cs) = open_place c.place + open_calls cs

-- How many actions a caller needs at most, when none of its exchanges fails without a cause.
abbrev needs : (mark opens : ℕ) → Place → ℕ
needs mark opens Place.load = opens + 1
needs mark opens (Place.seen cur) = if mark == cur then opens else opens + 1
needs mark opens Place.done = 0

-- An action leaves the mark, or it is the last of a call.
record Calm (mark opens : ℕ) (mark' opens' : ℕ) : Type 0 where
  fewer : opens' ≤ opens
  moved : (mark' ≡ mark) ⊎ (opens' + 1 ≤ opens)

max_action-Calm :
    (fails : Bool) (v mark : ℕ) (p : Place)
    → let (mark', p') = max_action fails v mark p in Calm mark (open_place p) mark' (open_place p')
unfolding max_action
max_action-Calm fails v mark Place.load = record { fewer = omega arith; moved = inl refl }
max_action-Calm true v mark (Place.seen cur) = elim (Bool-cases (ltb cur v)) [
  | inl less ↦ rw less (record { fewer = omega arith; moved = inl refl })
  | inr enough ↦ rw enough (record { fewer = omega arith; moved = inl refl })
]
max_action-Calm false v mark (Place.seen cur) = elim (Bool-cases (ltb cur v)) [
  | inl less ↦ rw less (elim (Bool-cases (mark == cur)) [
    | inl same ↦ rw same (record { fewer = omega arith; moved = inr (omega arith) })
    | inr other ↦ rw other (record { fewer = omega arith; moved = inl refl })
  ])
  | inr enough ↦ rw enough (record { fewer = omega arith; moved = inl refl })
]
max_action-Calm fails v mark Place.done = record { fewer = omega arith; moved = inl refl }

act-Calm :
    (fails : Bool) (i mark : ℕ) (cs : List Caller)
    → let s = act fails i mark cs in Calm mark (open_calls cs) s.mark (open_calls s.callers)
unfolding act open_calls
act-Calm fails i mark [] = record { fewer = omega arith; moved = inl refl }
act-Calm fails zero mark (c ∷ cs) =
    let one = max_action-Calm fails c.value mark c.place in
    record { fewer = omega (arith, one.fewer); moved = omega (arith, one.moved) }
act-Calm fails (suc i) mark (c ∷ cs) =
    let rest = act-Calm fails i mark cs in
    record { fewer = omega (arith, rest.fewer); moved = omega (arith, rest.moved) }

-- The other callers stand, and the one that acts goes on.
act_others :
    (fails : Bool) (i j mark : ℕ) (cs : List Caller)
    → i ≢ j
    → get_elem? (act fails i mark cs).callers j ≡ get_elem? cs j
unfolding act
act_others fails i j mark [] h = refl
act_others fails zero zero mark (c ∷ cs) h = absurd (h refl)
act_others fails zero (suc j) mark (c ∷ cs) h = refl
act_others fails (suc i) zero mark (c ∷ cs) h = refl
act_others fails (suc i) (suc j) mark (c ∷ cs) h = act_others fails i j mark cs (λ e. h (ap suc e))

Acted : (fails : Bool) (i mark : ℕ) (cs : List Caller) (c : Caller) → Type 0
Acted fails i mark cs c =
    let (mark', p) = max_action fails c.value mark c.place in
    ((act fails i mark cs).mark ≡ mark')
    × (get_elem? (act fails i mark cs).callers i ≡ some (record c { place = p }))

act_self :
    (fails : Bool) (i mark : ℕ) (cs : List Caller) {c : Caller}
    → get_elem? cs i ≡ some c
    → Acted fails i mark cs c
unfolding act Acted
act_self fails i mark [] h = cc
act_self fails zero mark (c ∷ cs) {c = b} h =
    subst (λ (x : Caller). Acted fails zero mark (c ∷ cs) x) (some-injective _ _ h) (refl, refl)
act_self fails (suc i) mark (c ∷ cs) h = act_self fails i mark cs h

open_calls-get :
    (cs : List Caller) (i : ℕ) {c : Caller}
    → get_elem? cs i ≡ some c
    → open_place c.place ≤ open_calls cs
unfolding open_calls
open_calls-get [] i h = cc
open_calls-get (c ∷ cs) zero h =
    subst (λ (x : Caller). open_place x.place ≤ open_place c.place + open_calls cs)
      (some-injective _ _ h) (omega arith)
open_calls-get (c ∷ cs) (suc i) h = omega (arith, open_calls-get cs i h)

-- A turn of another caller does not put a caller back.
needs-Calm :
    (mark opens mark' opens' : ℕ) (p : Place)
    → Calm mark opens mark' opens'
    → needs mark' opens' p ≤ needs mark opens p
needs-Calm mark opens mark' opens' Place.load calm = omega (arith, calm.fewer)
needs-Calm mark opens mark' opens' (Place.seen cur) calm = elim calm.moved [
  | inl e ↦ rw e (seen (mark == cur))
  | inr less ↦ ground (arith, less)
]
  where
    seen : (b : Bool) → (if b then opens' else opens' + 1) ≤ (if b then opens else opens + 1)
    seen true = calm.fewer
    seen false = omega (arith, calm.fewer)
needs-Calm mark opens mark' opens' Place.done calm = omega arith

-- Its own turn brings it nearer, unless an exchange fails without a cause.
abbrev good : Bool → ℕ
good true = 0
good false = 1

needs-action :
    (fails : Bool) (v mark opens opens' : ℕ) (p : Place)
    → opens' ≤ opens
    → let (mark', p') = max_action fails v mark p in
      needs mark' opens' p' ≤ needs mark opens p - good fails
unfolding max_action
needs-action true v mark opens opens' Place.load h = ground arith
needs-action false v mark opens opens' Place.load h = ground arith
needs-action true v mark opens opens' (Place.seen cur) h = ground arith
needs-action false v mark opens opens' (Place.seen cur) h = ground arith
needs-action fails v mark opens opens' Place.done h = omega arith

-- The turns of caller `i` in which no exchange fails without a cause.
unfoldable pub good_turns : (i : ℕ) → List Turn → ℕ
good_turns i [] = 0
good_turns i (t ∷ ts) = (if t.who == i then good t.fails else 0) + good_turns i ts

no_needs :
    (mark opens : ℕ) (p : Place) → open_place p ≤ opens → needs mark opens p ≤ 0 → p ≡ Place.done
no_needs mark opens Place.load h n = absurd (omega arith)
no_needs mark opens (Place.seen cur) h n = absurd (ground arith)
no_needs mark opens Place.done h n = refl

-- What is left of a call after a turn of anyone.
record Nearer (i mark : ℕ) (cs : List Caller) (t : Turn) (c : Caller) : Type 0 where
  after : Caller
  there : get_elem? (act t.fails t.who mark cs).callers i ≡ some after
  same : after.value ≡ c.value
  nearer :
      needs
        (act t.fails t.who mark cs).mark
        (open_calls (act t.fails t.who mark cs).callers)
        after.place
      ≤ needs mark (open_calls cs) c.place - (if t.who == i then good t.fails else 0)

own_turn :
    (i mark : ℕ) (cs : List Caller) (fails : Bool) (c : Caller)
    → get_elem? cs i ≡ some c
    → Nearer i mark cs (record { who = i; fails = fails }) c
unfolding Acted
own_turn i mark cs fails c h =
    let (moved, there) = act_self fails i mark cs h in
    record {
      after = record c { place = (max_action fails c.value mark c.place).1 };
      there = there;
      same = refl;
      nearer =
          rw (moved, (==_iff i i).1 refl)
            (needs-action fails c.value mark (open_calls cs) _ c.place
              (act-Calm fails i mark cs).fewer);
    }

other_turn :
    (i mark : ℕ) (cs : List Caller) (t : Turn) (c : Caller)
    → (t.who == i) ≡ false
    → get_elem? cs i ≡ some c
    → Nearer i mark cs t c
other_turn i mark cs t c e h = record {
  after = c;
  there = act_others t.fails t.who i mark cs (ground (arith, e)) ∙ h;
  same = refl;
  nearer = rw e (omega (arith, needs-Calm _ _ _ _ c.place (act-Calm t.fails t.who mark cs)));
}

turn-Nearer :
    (i mark : ℕ) (cs : List Caller) (t : Turn) (c : Caller)
    → get_elem? cs i ≡ some c
    → Nearer i mark cs t c
turn-Nearer i mark cs t c h = elim (Bool-cases (t.who == i)) [
  | inl own ↦
      subst (λ (j : ℕ). Nearer i mark cs (record { who = j; fails = t.fails }) c)
        (sym ((==_iff t.who i).0 own)) (own_turn i mark cs t.fails c h)
  | inr other ↦ other_turn i mark cs t c other h
]

interleave-done :
    (ts : List Turn) (i : ℕ) (s : Marked) (c : Caller)
    → get_elem? s.callers i ≡ some c
    → needs s.mark (open_calls s.callers) c.place ≤ good_turns i ts
    → get_elem? (interleave ts s).callers i ≡ some (record { value = c.value; place = Place.done })
unfolding interleave good_turns
interleave-done [] i s c h n =
    rw (sym (no_needs s.mark _ c.place (open_calls-get s.callers i h) n)) h
interleave-done (t ∷ ts) i s c h n =
    let one = turn-Nearer i s.mark s.callers t c h in
    rw (sym one.same) (
      interleave-done ts i (act t.fails t.who s.mark s.callers) one.after one.there
        (omega (arith, one.nearer)))

open_calls-calls : (vs : List ℕ) → open_calls (calls vs) ≡ length vs
unfolding open_calls
open_calls-calls [] = refl
open_calls-calls (v ∷ vs) = omega (arith, open_calls-calls vs)

calls-get :
    (vs : List ℕ) (i : ℕ) {v : ℕ}
    → get_elem? vs i ≡ some v
    → get_elem? (calls vs) i ≡ some (record { value = v; place = Place.load })
calls-get [] i h = cc
calls-get (w ∷ vs) zero h =
    ap (λ (x : ℕ). some (record { value = x; place = Place.load })) (some-injective _ _ h)
calls-get (w ∷ vs) (suc i) h = calls-get vs i h

-- Of any number of threads that call `track_max` on one mark at the same time, each returns once
-- it has acted one time more than there are threads, not counting its exchanges that fail without
-- a cause, whatever the others do.
pub call_returns :
    (vs : List ℕ) (mark i v : ℕ) (ts : List Turn)
    → get_elem? vs i ≡ some v
    → length vs + 1 ≤ good_turns i ts
    → get_elem? (interleave ts (record { mark = mark; callers = calls vs })).callers i
      ≡ some (record { value = v; place = Place.done })
call_returns vs mark i v ts h n =
    interleave-done ts i (record { mark = mark; callers = calls vs })
      (record { value = v; place = Place.load }) (calls-get vs i h)
      (omega (arith, open_calls-calls vs))
