-- ===== src/Ring/Race/Producer.antt =====
-- One action of the producer, from what its place says.
use mathlib.Core.List.{append-nil}
use mm_engine.Base.{
  ℕ, ◌+◌, ◌^◌, ◌%◌, ◌≤◌, ◌≡◌, refl, sym, ◌∙◌, inl, inr, some, List, [], ◌∷◌, ◌++◌, arith, u64,
  length, length-append, length-set, Bool-cases, get_elem?, set,
}
use mm_engine.Ring.{Ring, slot, looks_full}
use mm_engine.Ring.Slots.{Stores-set, Stores-append, written_slot, slot-u64}
use mm_engine.Ring.Refine.{Represents, cached_test, fresh_test, refreshed}
use mm_engine.Ring.Race.{Pusher, push_action, pushed}
use mm_engine.Ring.Race.Places.{PushOk}

module _ {A : Type 0} (k : ℕ) where
  -- A producer's action: the queue grows by what it publishes, and the consumer's side stands.
  pub record Pushes (r : Ring A) (q : List A) (v : Represents k r q) (p : Pusher A) (r' : Ring A)
      (p' : Pusher A) : Type 0 where
    pub new : List A
    pub grown : new ≡ q ++ pushed p
    pub after : Represents k r' new
    pub ok : PushOk k r'.buf (after.popped + length new) after.seen_popped p'
    pub same_popped : after.popped ≡ v.popped
    pub same_seen : after.seen_pushed ≡ v.seen_pushed

  module _ {r : Ring A} {q : List A} (v : Represents k r q) where
    write_Represents :
        (x : A)
        → v.popped + length q + 1 ≤ v.seen_popped + 2 ^ k
        → Represents k (record r { buf = set r.buf (slot k r.head) x }) q
    write_Represents x room = record {
      popped = v.popped;
      seen_popped = v.seen_popped;
      seen_pushed = v.seen_pushed;
      bits = v.bits;
      storage = length-set r.buf _ x ∙ v.storage;
      tail_is = v.tail_is;
      head_is = v.head_is;
      cached_tail_is = v.cached_tail_is;
      cached_head_is = v.cached_head_is;
      fits = v.fits;
      old_tail = v.old_tail;
      room = v.room;
      old_head = v.old_head;
      behind = v.behind;
      stored =
          rw (v.head_is, slot-u64 k (v.popped + length q) v.bits)
            (Stores-set k r.buf q v.popped (v.popped + length q) x (omega arith) (omega arith)
              v.stored);
    }

    publish_Represents :
        (x : A)
        → v.popped + length q + 1 ≤ v.seen_popped + 2 ^ k
        → get_elem? r.buf ((v.popped + length q) % 2 ^ k) ≡ some x
        → Represents k (record r { head = u64 (r.head + 1) }) (q ++ x ∷ [])
    publish_Represents x room e = record {
      popped = v.popped;
      seen_popped = v.seen_popped;
      seen_pushed = v.seen_pushed;
      bits = v.bits;
      storage = v.storage;
      tail_is = v.tail_is;
      head_is = omega (arith, length-append q (x ∷ []), v.head_is);
      cached_tail_is = v.cached_tail_is;
      cached_head_is = v.cached_head_is;
      fits = omega (arith, length-append q (x ∷ []));
      old_tail = v.old_tail;
      room = omega (arith, length-append q (x ∷ []));
      old_head = v.old_head;
      behind = omega (arith, length-append q (x ∷ []));
      stored = Stores-append k r.buf q v.popped x v.stored e;
    }

    seen_room :
        {r' : Ring A} (v' : Represents k r' q) (x : A)
        → v'.popped ≡ v.popped
        → v'.seen_pushed ≡ v.seen_pushed
        → v.popped + length q + 1 ≤ v'.seen_popped + 2 ^ k
        → (p : Pusher A) → pushed p ≡ []
        → Pushes r q v p r' (Pusher.write x)
    seen_room v' x e f room p none_yet = record {
      new = q;
      grown = rw none_yet (sym (append-nil q));
      after = v';
      ok = omega arith;
      same_popped = e;
      same_seen = f;
    }

    pub push_action-Pushes :
        (p : Pusher A) (item : A)
        → PushOk k r.buf (v.popped + length q) v.seen_popped p
        → Pushes r q v p (push_action k r p item).0 (push_action k r p item).1
    unfolding push_action refreshed write_Represents publish_Represents
    push_action-Pushes Pusher.idle item h =
        elim (Bool-cases (looks_full k (u64 (r.head + 1)) r.cached_tail)) [
          | inl full ↦ rw full (record {
            new = q;
            grown = sym (append-nil q);
            after = v;
            ok = tt;
            same_popped = refl;
            same_seen = refl;
          })
          | inr roomy ↦
              rw roomy
                (seen_room v item refl refl (ground (arith, cached_test k v)) Pusher.idle refl)
        ]
    push_action-Pushes (Pusher.reload x) item h =
        elim (Bool-cases (looks_full k (u64 (r.head + 1)) r.tail)) [
          | inl full ↦ rw full (record {
            new = q;
            grown = sym (append-nil q);
            after = refreshed k v;
            ok = tt;
            same_popped = refl;
            same_seen = refl;
          })
          | inr roomy ↦ rw roomy (
              seen_room (refreshed k v) x refl refl (ground (arith, fresh_test k v))
                (Pusher.reload x) refl)
        ]
    push_action-Pushes (Pusher.write x) item h = record {
      new = q;
      grown = sym (append-nil q);
      after = write_Represents x h;
      ok = (
        h,
        rw (v.head_is, slot-u64 k (v.popped + length q) v.bits)
            (written_slot k r.buf (v.popped + length q) x v.storage (omega arith)),
      );
      same_popped = refl;
      same_seen = refl;
    }
    push_action-Pushes (Pusher.publish x) item (room, e) = record {
      new = q ++ x ∷ [];
      grown = refl;
      after = publish_Represents x room e;
      ok = tt;
      same_popped = refl;
      same_seen = refl;
    }
