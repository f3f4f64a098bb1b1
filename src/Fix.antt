-- ===== src/Fix.antt =====
-- src/fix/fix_app.hpp: the engine's end of the FIX session. A message is what the getters of the
-- QuickFIX library return on it, with `none` for a field that is not set, whose getter throws.
-- Lines printed are left out.
pub mod Inbound
pub mod Dispatch
pub mod Outbound
pub mod Decimal
pub mod Symbols
pub mod Arrays
pub mod Levels
pub mod Sender
pub mod Reports
use mm_engine.Base.{
  same_text, ℕ, zero, suc, ◌+◌, ◌-◌, ◌^◌, Bool, false, List, [], ◌∷◌, ltb, if◌then◌else◌, u32,
  length, set, replicate, min,
}
use mm_engine.Events.{MdEvent, ExecEvent, max_symbols}
use mm_engine.Config.{EngineConfig}
use mm_engine.Metrics.{Metrics}
use mm_engine.Ring.{Ring}

pub record FixApp (W : Type 0) : Type 0 where
  pub md : Ring (MdEvent W)
  pub exec : Ring (ExecEvent W)
  pub symbols : List (List ℕ)
  pub n_symbols : ℕ
  pub password : List ℕ
  pub session_id : List ℕ
  pub logged_on : Bool
  pub md_seq : ℕ
  pub metrics : Metrics

-- `UINT32_MAX`
abbrev pub no_symbol : ℕ
no_symbol = 2 ^ 32 - 1

-- The loop of the constructor.
abbrev pub copy_symbols : (i : ℕ) → List (List ℕ) → List (List ℕ) → List (List ℕ)
copy_symbols i [] to = to
copy_symbols i (s ∷ from) to =
    let rest = copy_symbols (i + 1) from (set to i s) in if ltb i max_symbols then rest else to

-- The scan of `symbol_id` over the symbols from `i` on with `left` to go; the array holds them.
unfoldable pub scan : (left i : ℕ) → List (List ℕ) → List ℕ → ℕ
scan zero i symbols s = no_symbol
scan (suc left) i [] s = no_symbol
scan (suc left) i (x ∷ symbols) s = if same_text x s then i else scan left (i + 1) symbols s

module _ {W : Type 0} where
  -- The constructor, on the two rings and the metrics as they stand.
  unfoldable pub fix_app :
      EngineConfig W → Ring (MdEvent W) → Ring (ExecEvent W) → Metrics → FixApp W
  fix_app cfg md exec metrics = record {
    md = md;
    exec = exec;
    symbols = copy_symbols 0 cfg.symbols (replicate max_symbols []);
    n_symbols = u32 (min (length cfg.symbols) max_symbols);
    password = [];
    session_id = [];
    logged_on = false;
    md_seq = 0;
    metrics = metrics;
  }

  unfoldable pub symbol_id : FixApp W → List ℕ → ℕ
  symbol_id app s = scan app.n_symbols 0 app.symbols s
