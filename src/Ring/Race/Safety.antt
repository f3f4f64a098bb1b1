-- ===== src/Ring/Race/Safety.antt =====
-- What the two threads can rely on, in every interleaving.
use mm_engine.Base.{ℕ, ◌+◌, ◌^◌, ◌≤◌, ◌<◌, ◌≡◌, ◌≢◌, subst, sym, List, ◌++◌, arith, length}
use mm_engine.Ring.{Ring, slot}
use mm_engine.Ring.Slots.{slot-u64, mod-ne}
use mm_engine.Ring.Refine.{Represents}
use mm_engine.Ring.Race.{Pusher, Popper, System, Reach, start}
use mm_engine.Ring.Race.Places.{PopOk, PushOk}
use mm_engine.Ring.{empty}
use mm_engine.Ring.Race.Invariant.{start-Inv, Reach-Inv}

module _ {A : Type 0} (k : ℕ) where
  -- In every interleaving of the two threads on a fresh ring, what the consumer has received is
  -- what the producer has sent, in order and without a gap, less at most a capacity of elements
  -- that are still in the ring.
  pub received_in_order :
      (a : A) {s : System A}
      → k ≤ 62
      → Reach k (start (empty k a)) s
      → (q : List A) × (s.received ++ q ≡ s.sent) × (length q ≤ 2 ^ k)
  received_in_order a b path =
      let inv = Reach-Inv k (start-Inv k a b) path in (inv.queue, inv.history, inv.holds.fits)

  apart :
      {r : Ring A} {q : List A} (v : Represents k r q)
      → v.popped + length q + 1 ≤ v.seen_popped + 2 ^ k
      → v.popped < v.seen_pushed
      → slot k r.head ≢ slot k r.tail
  apart {r} {q} v room ahead =
      rw (v.head_is, v.tail_is, slot-u64 k (v.popped + length q) v.bits, slot-u64 k v.popped v.bits)
        λ e. mod-ne (2 ^ k) v.popped (length q) (omega arith) (omega arith) (sym e)

  -- In no interleaving is the producer about to write the slot that the consumer is about to read.
  pub no_slot_race :
      (a : A) {s : System A} (x : A)
      → k ≤ 62
      → Reach k (start (empty k a)) s
      → s.pusher ≡ Pusher.write x
      → s.popper ≡ Popper.read
      → slot k s.ring.head ≢ slot k s.ring.tail
  no_slot_race a {s} x b path w rd =
      let inv = Reach-Inv k (start-Inv k a b) path in
      apart inv.holds
        (subst (PushOk k s.ring.buf (inv.holds.popped + length inv.queue) inv.holds.seen_popped) w
          inv.push_ok)
        (subst (PopOk k inv.queue inv.holds.popped inv.holds.seen_pushed) rd inv.pop_ok)
