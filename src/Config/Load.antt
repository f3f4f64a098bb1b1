-- ===== src/Config/Load.antt =====
-- src/common/config.hpp: `EngineConfig::load`. A file is the list of its lines, as `getline` gives
-- them; a file that is not there has none. `none` is an exception. `stod` stands for the function of
-- that name, whose result is a `double`.
use mm_engine.Base.{
  same_text, is_empty, is_digit, is_blank, digits_value, ℕ, ◌^◌, Bool, true, Option, none, some,
  List, [], ◌∷◌, ◌++◌, ◌==◌, ◌&&◌, ◌||◌, ◌>>=◌, ltb, leb, if◌then◌else◌,
}
use mm_engine.Base.Int.{ℤ, pos, sub_ℕ}
use mm_engine.Config.{EngineConfig}
use mm_engine.Config.Keys.{
  key_minimum_spread, key_order_spread, key_tick_size, key_order_qty, key_book_depth, key_account,
  key_fix_cfg, key_symbols_file, key_strategy_core, key_fix_core, key_metrics_port, key_lmdb_path,
  key_snapshot_interval_ms, key_dry_run,
}

-- `v.back() == '\r' || v.back() == ' '`
abbrev pub is_padding : ℕ → Bool
is_padding c = (c == 13) || (c == 32)

-- The loop of `pop_back`: what is left of the line once its padding at the end is gone.
unfoldable pub trim_end : List ℕ → List ℕ
trim_end [] = []
trim_end (c ∷ s) = let rest = trim_end s in if is_padding c && is_empty rest then [] else c ∷ rest

-- `line.empty() || line[0] == '#'`
abbrev pub is_comment : List ℕ → Bool
is_comment [] = true
is_comment (c ∷ s) = c == 35

-- What stands before the first `=` and after it, or `npos`.
unfoldable pub split_line : List ℕ → Option (List ℕ × List ℕ)
split_line [] = none
split_line (c ∷ s) =
    let rest = split_line s in if c == 61 then some ([], s) else (rest >>= λ p. some (c ∷ p.0, p.1))

-- The map as the list of its assignments, the latest first.
abbrev pub Settings : Type 0
Settings = List (List ℕ × List ℕ)

unfoldable pub lookup : List ℕ → Settings → Option (List ℕ)
lookup k [] = none
lookup k ((key, v) ∷ kv) = if same_text key k then some v else lookup k kv

-- One turn of the loop over the settings file.
abbrev pub assign : Option (List ℕ × List ℕ) → Settings → Settings
assign none kv = kv
assign (some (k, v)) kv = (k, trim_end v) ∷ kv

unfoldable pub read_line : List ℕ → Settings → Settings
read_line line kv = if is_comment line then kv else assign (split_line line) kv

unfoldable pub read_lines : List (List ℕ) → Settings → Settings
read_lines [] kv = kv
read_lines (line ∷ lines) kv = read_lines lines (read_line line kv)

-- `stoi` in base ten, on a 32-bit `int`: blanks, a sign and at least one digit.
-- The digits' value, if there is one.
abbrev pub magnitude : List ℕ → Option ℕ
magnitude [] = none
magnitude (c ∷ s) = if is_digit c then some (digits_value (c ∷ s) 0) else none

abbrev pub positive : ℕ → Option ℤ
positive v = if ltb v (2 ^ 31) then some (pos v) else none

abbrev pub negative : ℕ → Option ℤ
negative v = if leb v (2 ^ 31) then some (sub_ℕ 0 v) else none

abbrev pub signed_int : List ℕ → Option ℤ
signed_int [] = none
signed_int (c ∷ s) =
    if c == 45
    then (magnitude s >>= negative)
    else (if c == 43 then (magnitude s >>= positive) else (magnitude (c ∷ s) >>= positive))

unfoldable pub stoi : List ℕ → Option ℤ
stoi [] = none
stoi (c ∷ s) = if is_blank c then stoi s else signed_int (c ∷ s)

-- "1" or "true"
abbrev pub to_bool : List ℕ → Bool
to_bool s = same_text s (49 ∷ []) || same_text s (116 ∷ 114 ∷ 117 ∷ 101 ∷ [])

-- `get`: the value of a key, or the default where the key is not set.
abbrev pub get {ℓ} : {A : Type ℓ} → (List ℕ → Option A) → Settings → List ℕ → A → Option A
get convert kv k def = get_as convert (lookup k kv) def
  where
    get_as : {A : Type ℓ} → (List ℕ → Option A) → Option (List ℕ) → A → Option A
    get_as convert none def = some def
    get_as convert (some v) def = convert v

-- The loop over the file of symbols.
unfoldable pub read_symbols : List (List ℕ) → List (List ℕ)
read_symbols [] = []
read_symbols (line ∷ lines) =
    let s = trim_end line in
    let rest = read_symbols lines in if is_comment s then rest else s ∷ rest

-- A string's value is itself.
abbrev pub as_text : List ℕ → Option (List ℕ)
as_text s = some s

abbrev pub as_bool : List ℕ → Option Bool
as_bool s = some (to_bool s)

module _ {W : Type 0} (stod : List ℕ → Option W) where
  -- `load` on the files' lines; `c` holds the default values of the fields.
  unfoldable pub load :
      (files : List ℕ → List (List ℕ)) → EngineConfig W → (path : List ℕ) → Option (EngineConfig W)
  load files c path =
      let kv = read_lines (files path) [] in
      (do
        minimum_spread ← get stod kv key_minimum_spread c.minimum_spread
        order_spread ← get stod kv key_order_spread c.order_spread
        tick_size ← get stod kv key_tick_size c.tick_size
        order_qty ← get stod kv key_order_qty c.order_qty
        book_depth ← get stoi kv key_book_depth c.book_depth
        account ← get as_text kv key_account c.account
        fix_cfg ← get as_text kv key_fix_cfg c.fix_cfg
        symbols_file ← get as_text kv key_symbols_file c.symbols_file
        strategy_core ← get stoi kv key_strategy_core c.strategy_core
        fix_core ← get stoi kv key_fix_core c.fix_core
        metrics_port ← get stoi kv key_metrics_port c.metrics_port
        lmdb_path ← get as_text kv key_lmdb_path c.lmdb_path
        snapshot_interval_ms ← get stoi kv key_snapshot_interval_ms c.snapshot_interval_ms
        dry_run ← get as_bool kv key_dry_run c.dry_run
        some (record {
          minimum_spread = minimum_spread;
          order_spread = order_spread;
          tick_size = tick_size;
          order_qty = order_qty;
          book_depth = book_depth;
          account = account;
          sender = c.sender;
          fix_cfg = fix_cfg;
          symbols_file = symbols_file;
          strategy_core = strategy_core;
          fix_core = fix_core;
          metrics_port = metrics_port;
          lmdb_path = lmdb_path;
          snapshot_interval_ms = snapshot_interval_ms;
          dry_run = dry_run;
          symbols = c.symbols ++ read_symbols (files symbols_file);
        }))
