-- ===== src/Logger/Note.antt =====
-- src/common/async_logger.hpp: the text of a note.
use mm_engine.Base.{
  ℕ, zero, suc, ◌≡◌, refl, ap, inl, inr, List, [], ◌∷◌, ◌++◌, ◌==◌, Bool-cases, take, replicate,
}
use mm_engine.Logger.{copy_text}
use mm_engine.Fix.Inbound.{c_str}

-- A text with no zero byte, cut off and padded with zeros, ends where it was cut off.
c_str-padded :
    (n m : ℕ) (msg : List ℕ)
    → c_str (take (suc n) (take n (c_str msg) ++ replicate (suc m) 0)) ≡ take n (c_str msg)
unfolding c_str
c_str-padded zero m msg = refl
c_str-padded (suc n) m [] = refl
c_str-padded (suc n) m (c ∷ msg) = elim (Bool-cases (c == 0)) [
  | inl ends ↦ rw ends refl
  | inr more ↦ rw more (rw more (ap (λ t. c ∷ t) (c_str-padded n m msg)))
]

-- The text that the writer prints for a note is the message, cut off at 47 bytes.
c_str-copy_text : (msg : List ℕ) → c_str (copy_text msg) ≡ take 47 (c_str msg)
unfolding copy_text
c_str-copy_text msg = c_str-padded 47 47 msg
