-- ===== src/Base/Text.antt =====
-- Strings as lists of bytes, and the classes of characters that the C functions on numbers use.
use Prim.Native.Nat.{ℕ, ◌+◌, ◌-◌, ◌*◌}
use Prim.Native.Char.{code}
use Prim.Native.String.{String}
use mathlib.Core.Path.{◌≡◌, refl, ap₂}
use mathlib.Core.Logic.{inl, inr}
use mathlib.Core.Bool.{Bool, true, false, ◌&&◌, ◌||◌}
use mathlib.Core.List.{List, [], ◌∷◌}
use mm_engine.Base.Tests.{Bool-cases, ==_iff, leb, ◌==◌, if◌then◌else◌}

-- The bytes of a literal.
abbrev pub codes : String → List ℕ
codes String.[] = []
codes (String.◌∷◌ c s) = code c ∷ codes s

-- Equal strings.
unfoldable pub same_text : List ℕ → List ℕ → Bool
same_text [] [] = true
same_text [] (y ∷ ys) = false
same_text (x ∷ xs) [] = false
same_text (x ∷ xs) (y ∷ ys) = (x == y) && same_text xs ys

abbrev pub is_empty : List ℕ → Bool
is_empty [] = true
is_empty (c ∷ s) = false

abbrev pub is_digit : ℕ → Bool
is_digit c = leb 48 c && leb c 57

abbrev pub is_blank : ℕ → Bool
is_blank c = (c == 32) || (leb 9 c && leb c 13)

unfoldable pub digits_value : List ℕ → ℕ → ℕ
digits_value [] v = v
digits_value (c ∷ cs) v = if is_digit c then digits_value cs (v * 10 + (c - 48)) else v

pub same_text_refl : (s : List ℕ) → same_text s s ≡ true
unfolding same_text
same_text_refl [] = refl
same_text_refl (x ∷ s) = rw ((==_iff x x).1 refl, same_text_refl s) refl

pub same_text-eq : (s t : List ℕ) → same_text s t ≡ true → s ≡ t
unfolding same_text
same_text-eq [] [] h = refl
same_text-eq [] (y ∷ t) h = cc
same_text-eq (x ∷ s) [] h = cc
same_text-eq (x ∷ s) (y ∷ t) h = elim (Bool-cases (x == y)) [
  | inl same ↦ ap₂ (λ a cs. a ∷ cs) ((==_iff x y).0 same) (same_text-eq s t (rw same at h))
  | inr apart ↦ absurd (cc (rw apart at h))
]
