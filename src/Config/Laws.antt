-- ===== src/Config/Laws.antt =====
-- src/common/config.hpp: what `load` makes of the lines of the file of symbols.
use mm_engine.Base.{ℕ, false, ◌≡◌, List}
use mm_engine.Config.Trim.{ends_padded}
use mm_engine.Config.Load.{is_comment}

-- The line has something on it, does not begin with `#`, and does not end in padding.
abbrev pub IsSymbol : List ℕ → Type 0
IsSymbol s = (is_comment s ≡ false) × (ends_padded s ≡ false)
