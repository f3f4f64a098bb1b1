-- ===== src/Fix/Arrays.antt =====
-- src/fix/fix_app.hpp: an array of five places, filled from the left until it is full.
use mm_engine.Base.{
  ℕ, zero, suc, ◌+◌, ◌≤◌, ◌<◌, min, false, ◌≡◌, refl, sym, ap, ◌∙◌, List, [], ◌∷◌, ◌++◌, arith, ltb,
  length, set, take, length-set, length-append,
}
use mathlib.Core.List.{append-nil}
use mm_engine.Events.{max_depth}

pub ltb_false→le : (a b : ℕ) → ltb a b ≡ false → b ≤ a
ltb_false→le a b h = ground arith

module _ {ℓ} {A : Type ℓ} where
  take-set :
      (xs : List A) (n : ℕ) (a : A)
      → n < length xs
      → take (suc n) (set xs n a) ≡ take n xs ++ (a ∷ [])
  take-set [] n a h = absurd (omega arith)
  take-set (x ∷ xs) zero a h = refl
  take-set (x ∷ xs) (suc n) a h = ap (λ t. x ∷ t) (take-set xs n a (omega arith))

  take-all : (xs : List A) (n : ℕ) → length xs ≤ n → take n xs ≡ xs
  take-all [] zero h = refl
  take-all [] (suc n) h = refl
  take-all (x ∷ xs) zero h = absurd (omega arith)
  take-all (x ∷ xs) (suc n) h = ap (λ t. x ∷ t) (take-all xs n (omega arith))

  take-append : (xs ys : List A) (n : ℕ) → n ≤ length xs → take n (xs ++ ys) ≡ take n xs
  take-append xs ys zero h = refl
  take-append [] ys (suc n) h = absurd (omega arith)
  take-append (x ∷ xs) ys (suc n) h = ap (λ t. x ∷ t) (take-append xs ys n (omega arith))

  -- An array of five of which `n` places hold the first five of the numbers read so far.
  abbrev pub Holds : (n : ℕ) (px ps : List A) → Type ℓ
  Holds n px ps =
      (length px ≡ max_depth) × (n ≡ min max_depth (length ps)) × (take n px ≡ take max_depth ps)

  pub Holds-add :
      (n : ℕ) (px ps : List A) (p : A)
      → n < max_depth
      → Holds n px ps
      → Holds (n + 1) (set px n p) (ps ++ (p ∷ []))
  Holds-add n px ps p h (size, e, same) =
      (length-set px n p ∙ size, omega (arith, length-append ps (p ∷ [])), taken)
    where
      few : take max_depth ps ≡ ps
      few = take-all ps max_depth (omega arith)

      taken : take (n + 1) (set px n p) ≡ take max_depth (ps ++ (p ∷ []))
      taken =
          ap (λ k. take k (set px n p)) {y = suc n} (omega arith)
          ∙ (take-set px n p (omega arith)
              ∙ (ap (λ t. t ++ (p ∷ [])) (same ∙ few)
                  ∙ sym (
                      take-all (ps ++ (p ∷ [])) max_depth
                        (omega (arith, length-append ps (p ∷ []))))))

  pub Holds-skip :
      (n : ℕ) (px ps : List A) (p : A) → max_depth ≤ n → Holds n px ps → Holds n px (ps ++ (p ∷ []))
  Holds-skip n px ps p h (size, e, same) = (
    size,
    omega (arith, length-append ps (p ∷ [])),
    same ∙ sym (take-append ps (p ∷ []) max_depth (omega arith)),
  )

  pub Holds-none : (n : ℕ) (px ps : List A) → Holds n px ps → Holds n px (ps ++ [])
  Holds-none n px ps h = rw (append-nil ps) h
