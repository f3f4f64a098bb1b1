-- ===== src/Config/Trim.antt =====
-- src/common/config.hpp: the padding at the end of a line, which `trim_end` takes off.
use mm_engine.Base.{
  ℕ, ◌≡◌, refl, Bool, true, false, List, [], ◌∷◌, ◌++◌, ◌&&◌, if◌then◌else◌, All, is_empty,
}
use mm_engine.Config.Load.{is_padding, trim_end}

-- The line ends in padding.
abbrev pub ends_padded : List ℕ → Bool
ends_padded [] = false
ends_padded (c ∷ s) = if is_empty s then is_padding c else ends_padded s

trim_end-padding : (pads : List ℕ) → All (λ (c : ℕ). is_padding c ≡ true) pads → trim_end pads ≡ []
unfolding trim_end
trim_end-padding [] a = refl
trim_end-padding (c ∷ pads) (ok, a) = rw (ok, trim_end-padding pads a) refl

-- A character in front of text that is left stays too.
front :
    (c x : ℕ) (s rest : List ℕ)
    → rest ≡ x ∷ s
    → (if is_padding c && is_empty rest then [] else c ∷ rest) ≡ c ∷ x ∷ s
front c x s rest e = rw e (stays (is_padding c))
  where
    stays : (b : Bool) → (if b && false then [] else c ∷ x ∷ s) ≡ c ∷ x ∷ s
    stays true = refl
    stays false = refl

-- What is not padding at its end stays, and the padding after it goes.
pub trim_end-append :
    (s pads : List ℕ)
    → ends_padded s ≡ false
    → All (λ (c : ℕ). is_padding c ≡ true) pads
    → trim_end (s ++ pads) ≡ s
unfolding trim_end
trim_end-append [] pads e a = trim_end-padding pads a
trim_end-append (c ∷ []) pads e a = rw (trim_end-padding pads a, e) refl
trim_end-append (c ∷ x ∷ s) pads e a = front c x s _ (trim_end-append (x ∷ s) pads e a)
