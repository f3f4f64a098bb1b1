-- ===== src/Affinity.antt =====
-- src/common/affinity.hpp as built for Linux: `pthread_setaffinity_np`, which takes the set of cores
-- and returns an error number, is a parameter.
use mm_engine.Base.{ℕ, Bool, false, List, [], ◌∷◌, ◌==◌, ltb, if◌then◌else◌}
use mm_engine.Base.Int.{ℤ, pos, negsuc}

-- `CPU_SETSIZE`; `CPU_SET` leaves the set as it is for a core that is not below it.
abbrev pub cpu_setsize : ℕ
cpu_setsize = 1024

abbrev pub cpu_set : ℕ → List ℕ
cpu_set core = if ltb core cpu_setsize then core ∷ [] else []

module _ (set_affinity : List ℕ → ℕ) where
  unfoldable pub pin_this_thread : ℤ → Bool
  pin_this_thread (pos core) = set_affinity (cpu_set core) == 0
  pin_this_thread (negsuc _) = false
