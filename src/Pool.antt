-- ===== src/Pool.antt =====
-- src/common/object_pool.hpp: the pool of `n` objects. An object is its index in the storage, whose
-- contents the pool never reads.
pub mod Ownership
use mm_engine.Base.{
  ℕ, zero, suc, ◌+◌, ◌-◌, Option, none, List, [], ◌∷◌, ◌==◌, if◌then◌else◌, get_elem?, set,
}

pub record ObjectPool : Type 0 where
  pub free : List ℕ
  pub top : ℕ

-- The constructor's loop: `n - 1`, `n - 2`, and so on to 0.
unfoldable pub countdown : ℕ → List ℕ
countdown zero = []
countdown (suc n) = n ∷ countdown n

unfoldable pub object_pool : ℕ → ObjectPool
object_pool n = record { free = countdown n; top = n }

-- The object, or `none` for a null pointer. `none` beside a pool that has objects is a read outside
-- the array.
unfoldable pub acquire : ObjectPool → Option ℕ × ObjectPool
acquire p =
    if p.top == 0 then (none, p) else (get_elem? p.free (p.top - 1), record p { top = p.top - 1 })

-- A write past the end of the array changes nothing here; the invariant rules it out.
unfoldable pub release : ObjectPool → ℕ → ObjectPool
release p i = record p { free = set p.free p.top i; top = p.top + 1 }

unfoldable pub available : ObjectPool → ℕ
available p = p.top
