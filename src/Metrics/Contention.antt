-- ===== src/Metrics/Contention.antt =====
-- The loop of `track_max` in src/metrics/metrics.hpp, and the same loop on `max_` in `record` of
-- src/common/latency_histogram.hpp, as the atomic actions of any number of threads on one mark.
pub mod Highest
pub mod Progress
use mm_engine.Base.{ℕ, zero, suc, Bool, true, false, List, [], ◌∷◌, ltb, ◌==◌, if◌then◌else◌}

-- Where a thread is in `track_max`: before the load, at the head of the loop with what it saw, and
-- after the loop.
pub data Place : Type 0 where
  load : Place
  seen : (cur : ℕ) → Place
  done : Place

pub record Caller : Type 0 where
  pub value : ℕ
  pub place : Place

-- `compare_exchange_weak(cur, v)`, which may fail without a cause.
abbrev pub exchange : (fails : Bool) → (v mark cur : ℕ) → ℕ × Place
exchange true v mark cur = (mark, Place.seen mark)
exchange false v mark cur = if mark == cur then (v, Place.done) else (mark, Place.seen mark)

-- A thread's next action on the mark.
unfoldable pub max_action : (fails : Bool) → (v mark : ℕ) → Place → ℕ × Place
max_action fails v mark Place.load = (mark, Place.seen mark)
max_action fails v mark (Place.seen cur) =
    if ltb cur v then exchange fails v mark cur else (mark, Place.done)
max_action fails v mark Place.done = (mark, Place.done)

pub record Marked : Type 0 where
  pub mark : ℕ
  pub callers : List Caller

-- The caller at place `i` takes its next action.
unfoldable pub act : (fails : Bool) → (i mark : ℕ) → List Caller → Marked
act fails i mark [] = record { mark = mark; callers = [] }
act fails zero mark (c ∷ cs) =
    let (mark', p) = max_action fails c.value mark c.place in
    record { mark = mark'; callers = record c { place = p } ∷ cs }
act fails (suc i) mark (c ∷ cs) =
    let rest = act fails i mark cs in record { mark = rest.mark; callers = c ∷ rest.callers }

-- A turn says which caller acts, and whether an exchange fails without a cause.
pub record Turn : Type 0 where
  pub who : ℕ
  pub fails : Bool

unfoldable pub interleave : List Turn → Marked → Marked
interleave [] s = s
interleave (t ∷ ts) s = interleave ts (act t.fails t.who s.mark s.callers)

-- Every caller about to call `track_max` with its value.
abbrev pub calls : List ℕ → List Caller
calls [] = []
calls (v ∷ vs) = record { value = v; place = Place.load } ∷ calls vs
