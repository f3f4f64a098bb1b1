-- ===== src/Ring/Race/Places.antt =====
-- What each place in `try_push` and in `try_pop` says of the ring.
use mm_engine.Base.{ℕ, ◌+◌, ◌^◌, ◌%◌, ◌≤◌, ◌<◌, ◌≡◌, Option, none, some, List, [], ◌∷◌, get_elem?}
use mm_engine.Ring.Race.{Pusher, Popper}

abbrev pub front : {A : Type 0} → List A → Option A
front [] = none
front (x ∷ q) = some x

module _ {A : Type 0} (k : ℕ) where
  -- What the producer's place says of the storage, of the pushes `h` so far, and of the pops `seen`
  -- that its cache shows.
  abbrev pub PushOk : List A → (h seen : ℕ) → Pusher A → Type 0
  PushOk buf h seen (Pusher.write x) = h + 1 ≤ seen + 2 ^ k
  PushOk buf h seen (Pusher.publish x) =
      (h + 1 ≤ seen + 2 ^ k) × (get_elem? buf (h % 2 ^ k) ≡ some x)
  PushOk buf h seen _ = Unit {0}

  -- What the consumer's place says of the queue, of the pops `t` so far, and of the pushes `seen`
  -- that its cache shows.
  abbrev pub PopOk : List A → (t seen : ℕ) → Popper A → Type 0
  PopOk q t seen Popper.read = t < seen
  PopOk q t seen (Popper.release out) = (t < seen) × (front q ≡ out)
  PopOk q t seen _ = Unit {0}
