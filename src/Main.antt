-- ===== src/Main.antt =====
-- src/main.cpp: the choice of the mode, and `read_password`, on the lines of the file as `getline`
-- gives them; a file that is not there has none.
pub mod Password
pub mod Bench
pub mod Arguments
use mm_engine.Base.{
  drop, same_text, ℕ, Bool, true, false, List, [], ◌∷◌, ◌==◌, ◌&&◌, if◌then◌else◌, codes,
}
use mm_engine.Config.Load.{trim_end}
use mm_engine.Fix.Inbound.{strtoull}

-- `line.rfind(prefix, 0) == 0`
abbrev pub starts_with : (prefix line : List ℕ) → Bool
starts_with [] line = true
starts_with (p ∷ prefix) [] = false
starts_with (p ∷ prefix) (c ∷ line) = (p == c) && starts_with prefix line

abbrev pub password_key : List ℕ
password_key = codes "password="

unfoldable pub read_password : List (List ℕ) → List ℕ
read_password [] = []
read_password (line ∷ lines) =
    let rest = read_password lines in
    if starts_with password_key line then trim_end (drop 9 line) else rest

-- What the program is started for.
pub data Mode : Type 0 where
  bench : (n_msgs : ℕ) → Mode
  live : Mode

abbrev pub bench_flag : List ℕ
bench_flag = codes "--bench"

-- The mode for the arguments after the program's name.
unfoldable pub mode : List (List ℕ) → Mode
mode [] = Mode.live
mode (flag ∷ []) = if same_text flag bench_flag then Mode.bench 2000000 else Mode.live
mode (flag ∷ n ∷ more) = if same_text flag bench_flag then Mode.bench (strtoull n) else Mode.live
