-- ===== src/Ring/Race/Consumer.antt =====
-- One action of the consumer, from what its place says.
use mm_engine.Base.{
  ℕ, ◌+◌, ◌<◌, ◌≡◌, refl, sym, ◌∙◌, ap, inl, inr, false, none, some, List, [], ◌∷◌, ◌++◌, arith,
  u64, length, Bool-cases, ◌==◌, get_elem?,
}
use mathlib.Core.Option.{some-injective}
use mm_engine.Ring.{Ring, slot}
use mm_engine.Ring.Slots.{slot-u64}
use mm_engine.Ring.Refine.{Represents}
use mm_engine.Ring.Race.{Popper, pop_action, popped}
use mm_engine.Ring.Race.Places.{PopOk, front}

module _ {A : Type 0} (k : ℕ) where
  -- A consumer's action: the queue loses what it releases, and the producer's side stands.
  pub record Pops (r : Ring A) (q : List A) (v : Represents k r q) (c : Popper A) (r' : Ring A)
      (c' : Popper A) : Type 0 where
    pub rest : List A
    pub shrunk : q ≡ popped c ++ rest
    pub after : Represents k r' rest
    pub ok : PopOk k rest after.popped after.seen_pushed c'
    pub same_pushed : after.popped + length rest ≡ v.popped + length q
    pub same_seen : after.seen_popped ≡ v.seen_popped
    pub same_buf : r'.buf ≡ r.buf

  module _ {r : Ring A} where
    reload_Represents :
        {q : List A} → Represents k r q → Represents k (record r { cached_head = r.head }) q
    reload_Represents {q} v = record {
      popped = v.popped;
      seen_popped = v.seen_popped;
      seen_pushed = v.popped + length q;
      bits = v.bits;
      storage = v.storage;
      tail_is = v.tail_is;
      head_is = v.head_is;
      cached_tail_is = v.cached_tail_is;
      cached_head_is = v.head_is;
      fits = v.fits;
      old_tail = v.old_tail;
      room = v.room;
      old_head = omega arith;
      behind = omega arith;
      stored = v.stored;
    }

    release_Represents :
        (x : A) (q : List A) (v : Represents k r (x ∷ q))
        → v.popped < v.seen_pushed
        → Represents k (record r { tail = u64 (r.tail + 1) }) q
    release_Represents x q v ahead = record {
      popped = v.popped + 1;
      seen_popped = v.seen_popped;
      seen_pushed = v.seen_pushed;
      bits = v.bits;
      storage = v.storage;
      tail_is = omega (arith, v.tail_is);
      head_is = v.head_is ∙ ap (λ (n : ℕ). u64 n) (omega arith);
      cached_tail_is = v.cached_tail_is;
      cached_head_is = v.cached_head_is;
      fits = omega arith;
      old_tail = omega arith;
      room = omega arith;
      old_head = omega arith;
      behind = omega arith;
      stored = v.stored.1;
    }

    -- A consumer ahead of the tail reads the oldest element.
    read_front :
        (q : List A) (v : Represents k r q)
        → v.popped < v.seen_pushed
        → front q ≡ get_elem? r.buf (slot k r.tail)
    read_front [] v h = absurd (omega arith)
    read_front (x ∷ q) v h = sym (rw (v.tail_is, slot-u64 k v.popped v.bits) v.stored.0)

    -- An action that releases nothing.
    unreleased :
        {r' : Ring A} {q : List A} (v : Represents k r q) (v' : Represents k r' q) (c c' : Popper A)
        → popped c ≡ []
        → PopOk k q v'.popped v'.seen_pushed c'
        → v'.popped ≡ v.popped
        → v'.seen_popped ≡ v.seen_popped
        → r'.buf ≡ r.buf
        → Pops r q v c r' c'
    unreleased {q} v v' c c' none_yet ok e f b = record {
      rest = q;
      shrunk = rw none_yet;
      after = v';
      ok = ok;
      same_pushed = omega arith;
      same_seen = f;
      same_buf = b;
    }

    pub pop_action-Pops :
        (q : List A) (v : Represents k r q) (c : Popper A)
        → PopOk k q v.popped v.seen_pushed c
        → Pops r q v c (pop_action k r c).0 (pop_action k r c).1
    unfolding pop_action reload_Represents release_Represents
    pop_action-Pops q v Popper.idle h = elim (Bool-cases (r.tail == r.cached_head)) [
      | inl e ↦ rw e (unreleased v v Popper.idle Popper.reload refl tt refl refl refl)
      | inr e ↦ rw e (unreleased v v Popper.idle Popper.read refl (ahead e) refl refl refl)
    ]
      where
        ahead : (r.tail == r.cached_head) ≡ false → v.popped < v.seen_pushed
        ahead e = ground (arith, v.tail_is, v.cached_head_is, ap (λ (n : ℕ). u64 n))
    pop_action-Pops q v Popper.reload h = elim (Bool-cases (r.tail == r.head)) [
      | inl e ↦
          rw e (unreleased v (reload_Represents v) Popper.reload Popper.idle refl tt refl refl refl)
      | inr e ↦ rw e (
          unreleased v (reload_Represents v) Popper.reload Popper.read refl (ahead e) refl refl
            refl)
    ]
      where
        ahead : (r.tail == r.head) ≡ false → v.popped < v.popped + length q
        ahead e = ground (arith, v.tail_is, v.head_is, ap (λ (n : ℕ). u64 n))
    pop_action-Pops q v Popper.read h =
        unreleased v v Popper.read (Popper.release (get_elem? r.buf (slot k r.tail))) refl
          (h, read_front q v h) refl refl refl
    pop_action-Pops [] v (Popper.release out) (h, e) = absurd (omega arith)
    pop_action-Pops (x ∷ q) v (Popper.release none) (h, e) = absurd (cc)
    pop_action-Pops (x ∷ q) v (Popper.release (some y)) (h, e) = record {
      rest = q;
      shrunk = ap (λ z. z ∷ q) (some-injective _ _ e);
      after = release_Represents x q v h;
      ok = tt;
      same_pushed = omega arith;
      same_seen = refl;
      same_buf = refl;
    }
