-- ===== src/Config/Keys.antt =====
-- src/common/config.hpp: the names that `load` looks up, as ASCII.
use mm_engine.Base.{ℕ, List, [], ◌∷◌}

abbrev pub key_minimum_spread : List ℕ
key_minimum_spread = 77 ∷ 73 ∷ 78 ∷ 73 ∷ 77 ∷ 85 ∷ 77 ∷ 95 ∷ 83 ∷ 80 ∷ 82 ∷ 69 ∷ 65 ∷ 68 ∷ []

abbrev pub key_order_spread : List ℕ
key_order_spread = 79 ∷ 82 ∷ 68 ∷ 69 ∷ 82 ∷ 95 ∷ 83 ∷ 80 ∷ 82 ∷ 69 ∷ 65 ∷ 68 ∷ []

abbrev pub key_tick_size : List ℕ
key_tick_size = 84 ∷ 73 ∷ 67 ∷ 75 ∷ 95 ∷ 83 ∷ 73 ∷ 90 ∷ 69 ∷ []

abbrev pub key_order_qty : List ℕ
key_order_qty = 79 ∷ 82 ∷ 68 ∷ 69 ∷ 82 ∷ 95 ∷ 81 ∷ 84 ∷ 89 ∷ []

abbrev pub key_book_depth : List ℕ
key_book_depth = 66 ∷ 79 ∷ 79 ∷ 75 ∷ 95 ∷ 68 ∷ 69 ∷ 80 ∷ 84 ∷ 72 ∷ []

abbrev pub key_account : List ℕ
key_account = 65 ∷ 67 ∷ 67 ∷ 79 ∷ 85 ∷ 78 ∷ 84 ∷ []

abbrev pub key_fix_cfg : List ℕ
key_fix_cfg = 70 ∷ 73 ∷ 88 ∷ 95 ∷ 67 ∷ 70 ∷ 71 ∷ []

abbrev pub key_symbols_file : List ℕ
key_symbols_file = 83 ∷ 89 ∷ 77 ∷ 66 ∷ 79 ∷ 76 ∷ 83 ∷ 95 ∷ 70 ∷ 73 ∷ 76 ∷ 69 ∷ []

abbrev pub key_strategy_core : List ℕ
key_strategy_core = 83 ∷ 84 ∷ 82 ∷ 65 ∷ 84 ∷ 69 ∷ 71 ∷ 89 ∷ 95 ∷ 67 ∷ 79 ∷ 82 ∷ 69 ∷ []

abbrev pub key_fix_core : List ℕ
key_fix_core = 70 ∷ 73 ∷ 88 ∷ 95 ∷ 67 ∷ 79 ∷ 82 ∷ 69 ∷ []

abbrev pub key_metrics_port : List ℕ
key_metrics_port = 77 ∷ 69 ∷ 84 ∷ 82 ∷ 73 ∷ 67 ∷ 83 ∷ 95 ∷ 80 ∷ 79 ∷ 82 ∷ 84 ∷ []

abbrev pub key_lmdb_path : List ℕ
key_lmdb_path = 76 ∷ 77 ∷ 68 ∷ 66 ∷ 95 ∷ 80 ∷ 65 ∷ 84 ∷ 72 ∷ []

abbrev pub key_snapshot_interval_ms : List ℕ
key_snapshot_interval_ms =
    83 ∷ 78 ∷ 65 ∷ 80 ∷ 83 ∷ 72 ∷ 79 ∷ 84 ∷ 95 ∷ 73 ∷ 78 ∷ 84 ∷ 69 ∷ 82 ∷ 86 ∷ 65 ∷ 76 ∷ 95 ∷ 77
    ∷ 83 ∷ []

abbrev pub key_dry_run : List ℕ
key_dry_run = 68 ∷ 82 ∷ 89 ∷ 95 ∷ 82 ∷ 85 ∷ 78 ∷ []
