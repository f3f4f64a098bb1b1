-- ===== src/Ring/Elements.antt =====
-- src/common/spsc_ring.hpp: a property that all elements of a ring have.
use mm_engine.Base.{
  ℕ, ◌^◌, Bool, true, false, Option, none, some, List, [], ◌∷◌, ◌++◌, if◌then◌else◌, ltb, length,
  All, All-append,
}
use mm_engine.Ring.Queue
use mm_engine.Ring.{Ring, try_push, try_pop}
use mm_engine.Ring.Refine.{Represents, try_push_refines, try_pop_refines}

module _ {A : Type 0} (k : ℕ) (P : A → Type 0) where
  -- The ring stands for a queue whose elements all have the property.
  pub record Carries (r : Ring A) : Type 0 where
    pub waiting : List A
    pub holds : Represents k r waiting
    pub all : All P waiting

  pub try_push-Carries : {r : Ring A} (x : A) → P x → Carries r → Carries (try_push k r x).1
  unfolding Queue.push
  try_push-Carries {r} x ok c = go (ltb (length c.waiting) (2 ^ k)) (try_push_refines k c.holds x).1
    where
      go :
          (b : Bool)
          → let out : Bool × List A =
              if b then (true, c.waiting ++ x ∷ []) else (false, c.waiting) in
            Represents k (try_push k r x).1 out.1 → Carries (try_push k r x).1
      go true after = record {
        waiting = c.waiting ++ x ∷ [];
        holds = after;
        all = All-append P c.waiting (x ∷ []) c.all (ok, tt);
      }
      go false after = record { waiting = c.waiting; holds = after; all = c.all }

  -- What a pop gives, if anything.
  abbrev pub Given : Option A → Type 0
  Given none = Unit
  Given (some a) = P a

  pub try_pop-Carries : {r : Ring A} → Carries r → Given (try_pop k r).0 × Carries (try_pop k r).1
  unfolding Queue.pop
  try_pop-Carries {r} c = go c.waiting c.holds c.all
    where
      go :
          (q : List A)
          → Represents k r q
          → All P q
          → Given (try_pop k r).0 × Carries (try_pop k r).1
      go [] v a =
          let (nothing, after) = try_pop_refines k [] v in
          (rw nothing tt, record { waiting = []; holds = after; all = tt })
      go (x ∷ q) v (ok, a) =
          let (oldest, after) = try_pop_refines k (x ∷ q) v in
          (rw oldest ok, record { waiting = q; holds = after; all = a })
