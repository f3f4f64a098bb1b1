-- ===== src/Ring.antt =====
-- src/common/spsc_ring.hpp: the single-producer single-consumer ring, its counters as `uint64_t`.
-- `k` is the exponent of the template parameter `CapacityPow2`, which the source asserts to be a
-- power of two. The functions here run without interruption; the child `Race` interleaves them.
pub mod Queue
pub mod Slots
pub mod Refine
pub mod Elements
pub mod Overflow
pub mod Race
use Prim.Native.Nat.{bit_and}
use mm_engine.Base.{
  ℕ, ◌+◌, ◌-◌, ◌^◌, Bool, true, false, Option, none, List, [], ◌∷◌, ltb, ◌==◌, if◌then◌else◌, u64,
  sub_u64, set, get_elem?, replicate,
}
use mm_engine.Ring.Queue.{Op, put, get, Reply}

pub record Ring (A : Type 0) : Type 0 where
  pub head : ℕ
  pub tail : ℕ
  pub cached_head : ℕ
  pub cached_tail : ℕ
  pub buf : List A

-- The constructor. `a` is what the storage holds before the first push.
unfoldable pub empty : (k : ℕ) {A : Type 0} (a : A) → Ring A
empty k a = record {
  head = 0;
  tail = 0;
  cached_head = 0;
  cached_tail = 0;
  buf = replicate (2 ^ k) a;
}

abbrev pub capacity : ℕ → ℕ
capacity k = 2 ^ k

-- `i & kMask`
abbrev pub slot : ℕ → ℕ → ℕ
slot k i = bit_and i (2 ^ k - 1)

-- `next - cached_tail_ > CapacityPow2`
abbrev pub looks_full : (k : ℕ) (next cached : ℕ) → Bool
looks_full k next cached = ltb (capacity k) (sub_u64 next cached)

module _ {A : Type 0} where
  -- The write of the element and its publication.
  abbrev pub publish : ℕ → Ring A → A → Ring A
  publish k r item = record r { buf = set r.buf (slot k r.head) item; head = u64 (r.head + 1) }

  unfoldable pub try_push : ℕ → Ring A → A → Bool × Ring A
  try_push k r item =
      let next = u64 (r.head + 1) in
      let fresh = record r { cached_tail = r.tail } in
      if looks_full k next r.cached_tail
      then (if looks_full k next r.tail then (false, fresh) else (true, publish k fresh item))
      else (true, publish k r item)

  -- The read of the element and the release of its slot. `none` beside a slot is a read outside
  -- the storage, which `Refine` rules out.
  abbrev pub consume : ℕ → Ring A → Option A × Ring A
  consume k r = (get_elem? r.buf (slot k r.tail), record r { tail = u64 (r.tail + 1) })

  -- `none` is the result false.
  unfoldable pub try_pop : ℕ → Ring A → Option A × Ring A
  try_pop k r =
      let fresh = record r { cached_head = r.head } in
      if r.tail == r.cached_head
      then (if r.tail == r.head then (none, fresh) else consume k fresh)
      else consume k r

  unfoldable pub size_approx : Ring A → ℕ
  size_approx r = sub_u64 r.head r.tail

  -- A client's calls in order, with what each returns.
  unfoldable pub run : ℕ → Ring A → List (Op A) → List (Reply A)
  run k r [] = []
  run k r (put x ∷ ops) = let (done, r') = try_push k r x in Reply.pushed done ∷ run k r' ops
  run k r (get ∷ ops) = let (out, r') = try_pop k r in Reply.popped out ∷ run k r' ops
