-- ===== src/Ring/Queue.antt =====
-- What a ring promises: a FIFO of at most `cap` elements, oldest first.
use mm_engine.Base.{
  ℕ, Bool, true, false, Option, none, some, List, [], ◌∷◌, ◌++◌, ltb, if◌then◌else◌, length,
}

pub data Op (A : Type 0) : Type 0 where
  put : A → Op A
  get : Op A

pub data Reply (A : Type 0) : Type 0 where
  pushed : Bool → Reply A
  popped : Option A → Reply A

module _ {A : Type 0} where
  unfoldable pub push : ℕ → List A → A → Bool × List A
  push cap q x = if ltb (length q) cap then (true, q ++ x ∷ []) else (false, q)

  unfoldable pub pop : List A → Option A × List A
  pop [] = (none, [])
  pop (x ∷ q) = (some x, q)

  unfoldable pub run : ℕ → List A → List (Op A) → List (Reply A)
  run cap q [] = []
  run cap q (put x ∷ ops) = let (done, q') = push cap q x in Reply.pushed done ∷ run cap q' ops
  run cap q (get ∷ ops) = let (out, q') = pop q in Reply.popped out ∷ run cap q' ops
