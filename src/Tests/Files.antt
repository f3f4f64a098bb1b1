-- ===== src/Tests/Files.antt =====
-- The settings' theorems on a file of seven lines and a file of symbols.
use mm_engine.Base.{ℕ, ◌≡◌, refl, inl, inr, false, some, List, [], ◌∷◌, ◌++◌, All, arith}
use mm_engine.Config.Load.{lookup, read_lines}
use mm_engine.Config.Settings.{begins, gets, IsKey, lookup-last}

-- "A=1=2", "#A=2", "A", "B=", and after the line that counts "A" and "AB=4"
abbrev lines_before : List (List ℕ)
lines_before =
    (65 ∷ 61 ∷ 49 ∷ 61 ∷ 50 ∷ []) ∷ (35 ∷ 65 ∷ 61 ∷ 50 ∷ []) ∷ (65 ∷ []) ∷ (66 ∷ 61 ∷ []) ∷ []

abbrev lines_after : List (List ℕ)
lines_after = (65 ∷ []) ∷ (65 ∷ 66 ∷ 61 ∷ 52 ∷ []) ∷ []

-- The key "A", the value "3=4", and a space and a carriage return.
abbrev key_a : List ℕ
key_a = 65 ∷ []

abbrev value_a : List ℕ
value_a = 51 ∷ 61 ∷ 52 ∷ []

key_a-IsKey : IsKey key_a
key_a-IsKey = record { plain = (omega arith, tt); no_comment = λ e. absurd (cc e) }

none_after : All (λ (line : List ℕ). begins (key_a ++ gets []) line ≡ false) lines_after
unfolding begins
none_after = (refl, (refl, tt))

lookup-last_example :
    lookup key_a
      (read_lines (lines_before ++ (key_a ++ gets (value_a ++ (32 ∷ 13 ∷ []))) ∷ lines_after) [])
    ≡ some value_a
lookup-last_example =
    lookup-last lines_before key_a value_a (32 ∷ 13 ∷ []) lines_after key_a-IsKey
      (omega arith, omega arith) (inr refl, (inl refl, tt)) none_after

-- "GG ", "", "# x"
abbrev symbol_lines : List (List ℕ)
symbol_lines = (71 ∷ 71 ∷ 32 ∷ []) ∷ [] ∷ (35 ∷ 32 ∷ 120 ∷ []) ∷ []
