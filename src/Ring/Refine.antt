-- ===== src/Ring/Refine.antt =====
-- A ring whose counters wrap behaves as the bounded queue that it stands for.
use mm_engine.Base.{
  ℕ, suc, ◌+◌, ◌-◌, ◌^◌, ◌≤◌, ◌<◌, ◌≡◌, refl, ◌∙◌, ap, inl, inr, true, false, some, List, [], ◌∷◌,
  ◌++◌, arith, ltb, u64, length, length-append, length-set, length-replicate, Bool-cases, ◌==◌,
  ==_iff, sub_u64,
}
use mm_engine.Ring.Queue
use mm_engine.Ring.Queue.{Op, put, get}
use mm_engine.Ring.Slots.{Stores, Stores-snoc, slot-u64, sub_u64_lem, looks_full_lem, same_counter}
use mm_engine.Ring.{Ring, empty, publish, consume, looks_full, try_push, try_pop, run, size_approx}

module _ {A : Type 0} (k : ℕ) where
  -- `popped` counts the pops since the start and never wraps; the two `seen` counts are what the
  -- cached indices stood for when they were read.
  pub record Represents (r : Ring A) (q : List A) : Type 0 where
    pub popped : ℕ
    pub seen_popped : ℕ
    pub seen_pushed : ℕ
    pub bits : k ≤ 62
    pub storage : length r.buf ≡ 2 ^ k
    pub tail_is : r.tail ≡ u64 popped
    pub head_is : r.head ≡ u64 (popped + length q)
    pub cached_tail_is : r.cached_tail ≡ u64 seen_popped
    pub cached_head_is : r.cached_head ≡ u64 seen_pushed
    pub fits : length q ≤ 2 ^ k
    pub old_tail : seen_popped ≤ popped
    pub room : popped + length q ≤ seen_popped + 2 ^ k
    pub old_head : popped ≤ seen_pushed
    pub behind : seen_pushed ≤ popped + length q
    pub stored : Stores k r.buf popped q

  -- A ring that the constructor made stands for the empty queue.
  pub empty-Represents : (a : A) → k ≤ 62 → Represents (empty k a) []
  unfolding empty
  empty-Represents a b = record {
    popped = 0;
    seen_popped = 0;
    seen_pushed = 0;
    bits = b;
    storage = length-replicate (2 ^ k) a;
    tail_is = refl;
    head_is = refl;
    cached_tail_is = refl;
    cached_head_is = refl;
    fits = omega arith;
    old_tail = omega arith;
    room = omega arith;
    old_head = omega arith;
    behind = omega arith;
    stored = tt;
  }

  module _ {r : Ring A} {q : List A} (v : Represents r q) where
    open v use {popped, seen_popped, seen_pushed}

    pub cached_test :
        looks_full k (u64 (r.head + 1)) r.cached_tail
        ≡ ltb (2 ^ k) (popped + length q + 1 - seen_popped)
    cached_test =
        rw (v.head_is, v.cached_tail_is)
          (looks_full_lem k (popped + length q) seen_popped v.bits (omega arith) v.room)

    pub fresh_test : looks_full k (u64 (r.head + 1)) r.tail ≡ ltb (2 ^ k) (length q + 1)
    fresh_test =
        rw (v.head_is, v.tail_is)
          (looks_full_lem k (popped + length q) popped v.bits (omega arith) (omega arith)
            ∙ ap (ltb (2 ^ k)) (omega arith))

    -- The write of a push at a producer's cache that is not full, when there is room.
    published :
        (x : A) (cache seen : ℕ)
        → cache ≡ u64 seen
        → seen ≤ popped
        → popped + length q + 1 ≤ seen + 2 ^ k
        → Represents (publish k (record r { cached_tail = cache }) x) (q ++ x ∷ [])
    published x cache seen c lo hi = record {
      popped = popped;
      seen_popped = seen;
      seen_pushed = seen_pushed;
      bits = v.bits;
      storage = length-set r.buf _ x ∙ v.storage;
      tail_is = v.tail_is;
      head_is = omega (arith, length-append q (x ∷ []), v.head_is);
      cached_tail_is = c;
      cached_head_is = v.cached_head_is;
      fits = omega (arith, length-append q (x ∷ []));
      old_tail = lo;
      room = omega (arith, length-append q (x ∷ []));
      old_head = v.old_head;
      behind = omega (arith, length-append q (x ∷ []));
      stored =
          rw (v.head_is, slot-u64 k (popped + length q) v.bits)
            (Stores-snoc k r.buf q popped x v.storage (omega arith) v.stored);
    }

    unfoldable pub refreshed : Represents (record r { cached_tail = r.tail }) q
    refreshed = record {
      popped = popped;
      seen_popped = popped;
      seen_pushed = seen_pushed;
      bits = v.bits;
      storage = v.storage;
      tail_is = v.tail_is;
      head_is = v.head_is;
      cached_tail_is = v.tail_is;
      cached_head_is = v.cached_head_is;
      fits = v.fits;
      old_tail = omega arith;
      room = omega arith;
      old_head = v.old_head;
      behind = v.behind;
      stored = v.stored;
    }

    -- `try_push` answers as the queue of capacity `2 ^ k` does, true exactly when there is room,
    -- and leaves the ring standing for that queue.
    pub try_push_refines :
        (x : A)
        → ((try_push k r x).0 ≡ (Queue.push (2 ^ k) q x).0)
          × Represents (try_push k r x).1 (Queue.push (2 ^ k) q x).1
    unfolding try_push Queue.push
    try_push_refines x = elim (Bool-cases (looks_full k (u64 (r.head + 1)) r.cached_tail)) [
      | inr c ↦
          let roomy : ltb (length q) (2 ^ k) ≡ true = ground (arith, cached_test) in
          rw (c, roomy)
            (
              refl,
              published x r.cached_tail seen_popped v.cached_tail_is v.old_tail
                  (ground (arith, cached_test)),
            )
      | inl c ↦ elim (Bool-cases (looks_full k (u64 (r.head + 1)) r.tail)) [
        | inl f ↦
            let full : ltb (length q) (2 ^ k) ≡ false = ground (arith, fresh_test) in
            rw (c, f, full) (refl, refreshed)
        | inr f ↦
            let roomy : ltb (length q) (2 ^ k) ≡ true = ground (arith, fresh_test) in
            rw (c, f, roomy)
              (refl, published x r.tail popped v.tail_is (omega arith) (ground (arith, fresh_test)))
      ]
    ]

  module _ {r : Ring A} where
    -- The read of a pop, at a consumer's cache that is ahead of the tail.
    consumed :
        (x : A) (q : List A) (v : Represents r (x ∷ q)) (cache seen : ℕ)
        → cache ≡ u64 seen
        → v.popped < seen
        → seen ≤ v.popped + suc (length q)
        → ((consume k (record r { cached_head = cache })).0 ≡ some x)
          × Represents (consume k (record r { cached_head = cache })).1 q
    consumed x q v cache seen c lo hi = (
      rw (v.tail_is, slot-u64 k v.popped v.bits) v.stored.0,
      record {
        popped = v.popped + 1;
        seen_popped = v.seen_popped;
        seen_pushed = seen;
        bits = v.bits;
        storage = v.storage;
        tail_is = omega (arith, v.tail_is);
        head_is = v.head_is ∙ ap (λ (n : ℕ). u64 n) (omega arith);
        cached_tail_is = v.cached_tail_is;
        cached_head_is = c;
        fits = omega arith;
        old_tail = omega arith;
        room = omega arith;
        old_head = omega arith;
        behind = omega arith;
        stored = v.stored.1;
      },
    )

    pub nothing_new : Represents r [] → r.tail ≡ r.head
    nothing_new v = rw (v.tail_is, v.head_is) (ap (λ (n : ℕ). u64 n) (omega arith))

    pub nothing_seen : Represents r [] → r.tail ≡ r.cached_head
    nothing_seen v = rw (v.tail_is, v.cached_head_is) (ap (λ (n : ℕ). u64 n) (omega arith))

    refreshed_empty : Represents r [] → Represents (record r { cached_head = r.head }) []
    refreshed_empty v = record {
      popped = v.popped;
      seen_popped = v.seen_popped;
      seen_pushed = v.popped;
      bits = v.bits;
      storage = v.storage;
      tail_is = v.tail_is;
      head_is = v.head_is;
      cached_tail_is = v.cached_tail_is;
      cached_head_is = v.head_is ∙ ap (λ (n : ℕ). u64 n) (omega arith);
      fits = v.fits;
      old_tail = v.old_tail;
      room = v.room;
      old_head = omega arith;
      behind = omega arith;
      stored = tt;
    }

    -- `try_pop` answers as the queue does, with the oldest element or with nothing, and leaves the
    -- ring standing for the rest.
    pub try_pop_refines :
        (q : List A)
        → Represents r q
        → ((try_pop k r).0 ≡ (Queue.pop q).0) × Represents (try_pop k r).1 (Queue.pop q).1
    unfolding try_pop Queue.pop
    try_pop_refines [] v =
        rw
          (
            (==_iff r.tail r.cached_head).1 (nothing_seen v),
            (==_iff r.tail r.head).1 (nothing_new v),
          )
          (refl, refreshed_empty v)
    try_pop_refines (x ∷ q) v = elim (Bool-cases (r.tail == r.cached_head)) [
      | inl e ↦
          let behind : (r.tail == r.head) ≡ false = ground (
            arith,
            same_counter k (v.popped + suc (length q)) v.popped v.bits (omega arith) (omega arith),
            v.tail_is,
            v.head_is,
          ) in
          rw (e, behind)
            (consumed x q v r.head (v.popped + suc (length q)) v.head_is (omega arith)
              (omega arith))
      | inr e ↦
          rw e (consumed x q v r.cached_head v.seen_pushed v.cached_head_is (ahead e) v.behind)
    ]
      where
        ahead : (r.tail == r.cached_head) ≡ false → v.popped < v.seen_pushed
        ahead e = ground (arith, v.tail_is, v.cached_head_is, ap (λ (n : ℕ). u64 n))

  -- `size_approx`, read by one thread while no other moves, is the number of elements, and at most
  -- the capacity.
  pub size_approx_lem :
      {r : Ring A} {q : List A}
      → Represents r q
      → (size_approx r ≡ length q) × (size_approx r ≤ 2 ^ k)
  unfolding size_approx
  size_approx_lem {r} {q} v =
      let same : sub_u64 r.head r.tail ≡ length q =
        rw (v.head_is, v.tail_is)
          (sub_u64_lem k (v.popped + length q) v.popped v.bits (omega arith) (omega arith)
            ∙ omega arith) in
      (same, omega arith)

  -- No sequence of calls tells a ring from the bounded queue that it stands for, however often its
  -- counters wrap.
  pub run_refines :
      (ops : List (Op A)) {r : Ring A} {q : List A}
      → Represents r q
      → run k r ops ≡ Queue.run (2 ^ k) q ops
  unfolding run Queue.run
  run_refines [] v = refl
  run_refines (put x ∷ ops) {r} {q} v =
      let (same, next) = try_push_refines v x in rw (same, run_refines ops next)
  run_refines (get ∷ ops) {r} {q} v =
      let (same, next) = try_pop_refines q v in rw (same, run_refines ops next)
