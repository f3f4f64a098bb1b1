-- ===== src/Tests/Counters.antt =====
-- The theorems on the counters that the threads share, at concrete numbers.
use mm_engine.Base.{◌≡◌, refl, true, false, List, [], ◌∷◌, some, arith, get_elem?}
use mm_engine.Metrics.Contention.{Place, Turn, act, max_action, interleave, calls}
use mm_engine.Metrics.Contention.Highest.{track_all, AllDone, interleave-track_all}
use mm_engine.Metrics.Contention.Progress.{good_turns, call_returns}

abbrev turns : List Turn
turns =
    record { who = 0; fails = false }
    ∷ record { who = 1; fails = false }
    ∷ record { who = 0; fails = true }
    ∷ record { who = 0; fails = false }
    ∷ record { who = 1; fails = false }
    ∷ record { who = 1; fails = false }
    ∷ []

all_done : AllDone (interleave turns (record { mark = 3; callers = calls (8 ∷ 9 ∷ []) })).callers
unfolding AllDone interleave act max_action
all_done = (refl, (refl, tt))

interleave-track_all_example :
    (interleave turns (record { mark = 3; callers = calls (8 ∷ 9 ∷ []) })).mark
    ≡ track_all 3 (8 ∷ 9 ∷ [])
interleave-track_all_example = interleave-track_all (8 ∷ 9 ∷ []) 3 turns all_done

two_calls : track_all 3 (8 ∷ 9 ∷ []) ≡ 9
unfolding track_all
two_calls = refl

three_turns : good_turns 1 turns ≡ 3
unfolding good_turns
three_turns = refl

call_returns_example :
    get_elem? (interleave turns (record { mark = 3; callers = calls (8 ∷ 9 ∷ []) })).callers 1
    ≡ some (record { value = 9; place = Place.done })
call_returns_example = call_returns (8 ∷ 9 ∷ []) 3 1 9 turns refl (omega (arith, three_turns))
