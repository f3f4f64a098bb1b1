-- ===== src/Ring/Overflow.antt =====
-- A series of pushes on the queue that a ring promises: those that find no room are lost.
use mathlib.Core.List.{append_assoc, append-nil}
use mm_engine.Base.{
  ℕ, zero, suc, refl, ◌-◌, ◌≡◌, sym, ap, ◌∙◌, inl, inr, List, [], ◌∷◌, ◌++◌, take, ltb, length,
  length-append, Bool-cases, arith,
}
use mm_engine.Ring.Queue

module _ {A : Type 0} where
  unfoldable pub push_all : ℕ → List A → List A → List A
  push_all cap q [] = q
  push_all cap q (x ∷ xs) = push_all cap (Queue.push cap q x).1 xs

  take-nil : (n : ℕ) → take {A = A} n [] ≡ []
  take-nil zero = refl
  take-nil (suc n) = refl

  -- What a series of pushes leaves: as many of the elements as there was room for, in order.
  pub push_all-take : (cap : ℕ) (q xs : List A) → push_all cap q xs ≡ q ++ take (cap - length q) xs
  unfolding push_all Queue.push
  push_all-take cap q [] = sym (ap (λ xs. q ++ xs) (take-nil (cap - length q)) ∙ append-nil q)
  push_all-take cap q (x ∷ xs) = elim (Bool-cases (ltb (length q) cap)) [
    | inl room ↦
        let left : cap - length q ≡ suc (cap - length (q ++ x ∷ [])) =
          ground (arith, room, length-append q (x ∷ [])) in
        rw (room, left)
          (push_all-take cap (q ++ x ∷ []) xs
            ∙ append_assoc q (x ∷ []) (take (cap - length (q ++ x ∷ [])) xs))
    | inr full ↦
        let none_left : cap - length q ≡ 0 = ground (arith, full) in
        rw (full, none_left) (push_all-take cap q xs ∙ ap (λ n. q ++ take n xs) none_left)
  ]
