-- ===== src/Main/Arguments.antt =====
-- src/main.cpp: the number of messages on the command line.
use mm_engine.Base.{ℕ, ◌<◌, ◌^◌, ◌≡◌, ap, List, ◌∷◌, same_text}
use mm_engine.Fix.Outbound.{decimal}
use mm_engine.Fix.Decimal.{strtoull-decimal}
use mm_engine.Main.{Mode, bench_flag, mode}

-- A number of 64 bits after the flag is the number of messages, whatever comes after it.
mode-decimal :
    (n : ℕ) (more : List (List ℕ))
    → n < 2 ^ 64
    → mode (bench_flag ∷ decimal n ∷ more) ≡ Mode.bench n
unfolding mode same_text
mode-decimal n more h = ap Mode.bench (strtoull-decimal n h)
