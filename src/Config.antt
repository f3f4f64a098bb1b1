-- ===== src/Config.antt =====
-- src/common/config.hpp: the engine's settings. Strings are lists of bytes.
pub mod Keys
pub mod Load
pub mod Trim
pub mod Laws
pub mod Settings
use mm_engine.Base.{ℕ, List, Bool}
use mm_engine.Base.Int.{ℤ}

pub record EngineConfig (W : Type 0) : Type 0 where
  pub minimum_spread : W
  pub order_spread : W
  pub tick_size : W
  pub order_qty : W
  pub book_depth : ℤ
  pub account : List ℕ
  pub sender : List ℕ
  pub fix_cfg : List ℕ
  pub symbols_file : List ℕ
  pub strategy_core : ℤ
  pub fix_core : ℤ
  pub metrics_port : ℤ
  pub lmdb_path : List ℕ
  pub snapshot_interval_ms : ℤ
  pub dry_run : Bool
  pub symbols : List (List ℕ)
