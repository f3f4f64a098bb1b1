-- ===== src/Main/Password.antt =====
-- src/main.cpp: the password that is read back from the file.
use mm_engine.Base.{ℕ, ◌≡◌, true, false, List, [], ◌∷◌, ◌++◌, All}
use mm_engine.Config.Load.{is_padding}
use mm_engine.Config.Trim.{ends_padded, trim_end-append}
use mm_engine.Main.{starts_with, password_key, read_password}

-- A file gives back the password on its first line that begins with `password=`, less the spaces and
-- carriage returns after it, whatever comes before and after, if it does not end in one itself.
pub read_password-first :
    (before : List (List ℕ)) (password pads : List ℕ) (after : List (List ℕ))
    → All (λ (line : List ℕ). starts_with password_key line ≡ false) before
    → ends_padded password ≡ false
    → All (λ (c : ℕ). is_padding c ≡ true) pads
    → read_password (before ++ (password_key ++ (password ++ pads)) ∷ after) ≡ password
unfolding read_password
read_password-first [] password pads after none_before e a = trim_end-append password pads e a
read_password-first (line ∷ before) password pads after (other, none_before) e a =
    rw other (read_password-first before password pads after none_before e a)
