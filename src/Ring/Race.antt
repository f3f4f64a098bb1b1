-- ===== src/Ring/Race.antt =====
-- `try_push` and `try_pop` of src/common/spsc_ring.hpp as the atomic actions of two threads, in any
-- interleaving. An action is one access to what the other thread writes, with the local work
-- around it. The release stores and acquire loads of the source order each write of a slot before
-- the counter that publishes it, so actions take effect in program order.
pub mod Places
pub mod Producer
pub mod Consumer
pub mod Invariant
pub mod Safety
pub mod Alone
use mm_engine.Base.{
  ℕ, ◌+◌, Option, some, List, [], ◌∷◌, ◌++◌, ◌==◌, if◌then◌else◌, u64, set, get_elem?,
}
use mm_engine.Ring.{Ring, slot, looks_full}

-- Where the producer is in `try_push item`: before it, behind a full cache, at the write, and at
-- the store to `head_`.
pub data Pusher (A : Type 0) : Type 0 where
  idle : Pusher A
  reload : A → Pusher A
  write : A → Pusher A
  publish : A → Pusher A

-- Where the consumer is in `try_pop`; at the store to `tail_` it holds what it read.
pub data Popper (A : Type 0) : Type 0 where
  idle : Popper A
  reload : Popper A
  read : Popper A
  release : Option A → Popper A

module _ {A : Type 0} (k : ℕ) where
  -- The producer's next action; an idle producer starts `try_push item`.
  unfoldable pub push_action : Ring A → Pusher A → A → Ring A × Pusher A
  push_action r Pusher.idle item =
      if looks_full k (u64 (r.head + 1)) r.cached_tail
      then (r, Pusher.reload item)
      else (r, Pusher.write item)
  push_action r (Pusher.reload x) item =
      let fresh = record r { cached_tail = r.tail } in
      if looks_full k (u64 (r.head + 1)) r.tail
      then (fresh, Pusher.idle)
      else (fresh, Pusher.write x)
  push_action r (Pusher.write x) item =
      (record r { buf = set r.buf (slot k r.head) x }, Pusher.publish x)
  push_action r (Pusher.publish x) item = (record r { head = u64 (r.head + 1) }, Pusher.idle)

  -- The consumer's next action; an idle consumer starts `try_pop`.
  unfoldable pub pop_action : Ring A → Popper A → Ring A × Popper A
  pop_action r Popper.idle =
      if r.tail == r.cached_head then (r, Popper.reload) else (r, Popper.read)
  pop_action r Popper.reload =
      let fresh = record r { cached_head = r.head } in
      if r.tail == r.head then (fresh, Popper.idle) else (fresh, Popper.read)
  pop_action r Popper.read = (r, Popper.release (get_elem? r.buf (slot k r.tail)))
  pop_action r (Popper.release out) = (record r { tail = u64 (r.tail + 1) }, Popper.idle)

-- What an action adds to the pushes that succeeded, and to the pops.
abbrev pub pushed : {A : Type 0} → Pusher A → List A
pushed (Pusher.publish x) = x ∷ []
pushed _ = []

abbrev pub popped : {A : Type 0} → Popper A → List A
popped (Popper.release (some x)) = x ∷ []
popped _ = []

pub record System (A : Type 0) : Type 0 where
  pub ring : Ring A
  pub pusher : Pusher A
  pub popper : Popper A
  pub sent : List A
  pub received : List A

module _ {A : Type 0} (k : ℕ) where
  unfoldable pub produce : System A → A → System A
  produce s item =
      let (r, p) = push_action k s.ring s.pusher item in
      record s { ring = r; pusher = p; sent = s.sent ++ pushed s.pusher }

  unfoldable pub consume : System A → System A
  consume s =
      let (r, p) = pop_action k s.ring s.popper in
      record s { ring = r; popper = p; received = s.received ++ popped s.popper }

  -- Either thread takes its next action.
  pub data Step (s : System A) : System A → Type 0 where
    producer : (item : A) → Step s (produce s item)
    consumer : Step s (consume s)

  pub data Reach (s : System A) : System A → Type 0 where
    here : Reach s s
    next : {t u : System A} → Reach s t → Step t u → Reach s u

-- Both threads idle at a ring with nothing sent.
abbrev pub start : {A : Type 0} → Ring A → System A
start r = record { ring = r; pusher = Pusher.idle; popper = Popper.idle; sent = []; received = [] }
