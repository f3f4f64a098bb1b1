-- ===== src/Tests/Rings.antt =====
-- The ring's theorems on rings of one, two and four places.
use mm_engine.Base.{ℕ, ◌≤◌, ◌^◌, ◌≡◌, ◌≢◌, refl, List, [], ◌∷◌, ◌++◌, arith, length}
use mm_engine.Ring.Queue
use mm_engine.Ring.Queue.{put, get}
use mm_engine.Ring.{Ring, empty, slot, try_push, try_pop, run}
use mm_engine.Ring.Refine.{Represents, empty-Represents, try_push_refines, run_refines}
use mm_engine.Ring.Race.{
  push_action, pop_action, System, produce, consume, producer, consumer, Reach, here, next, start,
}
use mm_engine.Ring.Race.Safety.{received_in_order, no_slot_race}

abbrev calls : List (Queue.Op ℕ)
calls = put 4 ∷ put 5 ∷ put 6 ∷ get ∷ put 7 ∷ get ∷ get ∷ get ∷ []

run_refines_example : run 1 (empty 1 0) calls ≡ Queue.run 2 [] calls
run_refines_example = run_refines 1 calls (empty-Represents 1 0 (omega arith))

run_result : run 1 (empty 1 0) calls ≡ Queue.run 2 [] calls
unfolding run try_push try_pop empty Queue.run Queue.push Queue.pop
run_result = refl

abbrev two : Ring ℕ
two = (try_push 2 (try_push 2 (empty 2 0) 4).1 5).1

two_pushed : Represents 2 two (4 ∷ 5 ∷ [])
unfolding Queue.push
two_pushed = (try_push_refines 2 (try_push_refines 2 (empty-Represents 2 0 (omega arith)) 4).1 5).1

-- The producer has pushed 5 and is about to write 6; the consumer is about to read.
abbrev reached : System ℕ
reached =
    consume 1
      (consume 1 (produce 1 (produce 1 (produce 1 (produce 1 (start (empty 1 0)) 5) 5) 5) 6))

path : Reach 1 (start (empty 1 0)) reached
path =
    next
      (next (next (next (next (next here (producer 5)) (producer 5)) (producer 5)) (producer 6))
        consumer)
      consumer

received_in_order_example :
    (q : List ℕ) × (reached.received ++ q ≡ reached.sent) × (length q ≤ 2 ^ 1)
received_in_order_example = received_in_order 1 0 (omega arith) path

no_slot_race_example : slot 1 reached.ring.head ≢ slot 1 reached.ring.tail
unfolding produce consume push_action pop_action empty
no_slot_race_example = no_slot_race 1 0 6 (omega arith) path refl refl
