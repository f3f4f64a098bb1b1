-- ===== src/Ring/Race/Alone.antt =====
-- src/common/spsc_ring.hpp: the atomic actions of one call with nothing between them, beside the
-- function that makes the call as a whole.
use mm_engine.Base.{ℕ, zero, suc, ◌≡◌, Bool, true, false, Option, none, arith}
use mm_engine.Ring.{Ring}
use mm_engine.Ring.Race.{Pusher, Popper, push_action, pop_action}
use mm_engine.Ring.{try_push, try_pop}

module _ {A : Type 0} (k : ℕ) where
  -- The producer's actions with no other thread between them, at most `fuel` of them, until it is
  -- idle; and whether the last one published.
  unfoldable pub finish_push : (fuel : ℕ) → Ring A → Pusher A → Bool → Bool × Ring A
  finish_push zero r p done = (done, r)
  finish_push (suc fuel) r Pusher.idle done = (done, r)
  finish_push (suc fuel) r (Pusher.reload x) done =
      let (r', p') = push_action k r (Pusher.reload x) x in finish_push fuel r' p' false
  finish_push (suc fuel) r (Pusher.write x) done =
      let (r', p') = push_action k r (Pusher.write x) x in finish_push fuel r' p' false
  finish_push (suc fuel) r (Pusher.publish x) done =
      let (r', p') = push_action k r (Pusher.publish x) x in finish_push fuel r' p' true

  unfoldable pub finish_pop : (fuel : ℕ) → Ring A → Popper A → Option A → Option A × Ring A
  finish_pop zero r c out = (out, r)
  finish_pop (suc fuel) r Popper.idle out = (out, r)
  finish_pop (suc fuel) r Popper.reload out =
      let (r', c') = pop_action k r Popper.reload in finish_pop fuel r' c' none
  finish_pop (suc fuel) r Popper.read out =
      let (r', c') = pop_action k r Popper.read in finish_pop fuel r' c' none
  finish_pop (suc fuel) r (Popper.release x) out =
      let (r', c') = pop_action k r (Popper.release x) in finish_pop fuel r' c' x

  try_push-actions :
      (r : Ring A) (x : A)
      → let (r', p') = push_action k r Pusher.idle x in finish_push 3 r' p' false ≡ try_push k r x
  unfolding finish_push push_action try_push
  try_push-actions r x = ground arith

  try_pop-actions :
      (r : Ring A)
      → let (r', c') = pop_action k r Popper.idle in finish_pop 3 r' c' none ≡ try_pop k r
  unfolding finish_pop pop_action try_pop
  try_pop-actions r = ground arith
