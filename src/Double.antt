-- ===== src/Double.antt =====
-- The C++ type `double`, as any type with the constants and operations that the engine uses. The
-- engine's own functions need no law; a theorem about prices takes the laws that it needs.
pub mod Fixed
use mm_engine.Base.{Bool, not, ◌≡◌}

pub record Double (W : Type 0) : Type 0 where
  pub nought : W
  pub half : W
  pub add : W → W → W
  pub sub : W → W → W
  pub mul : W → W → W
  pub div : W → W → W
  pub fabs : W → W
  pub lt : W → W → Bool
  pub le : W → W → Bool

-- Addition as in exact arithmetic: rounding breaks the second law for IEEE doubles.
pub record IsExactSum (W : Type 0) ⦃d : Double W⦄ : Type 0 where
  pub add_comm : (a b : W) → d.add a b ≡ d.add b a
  pub add_assoc : (a b c : W) → d.add (d.add a b) c ≡ d.add a (d.add b c)
  pub nought_add : (a : W) → d.add d.nought a ≡ a

-- Comparisons of numbers that are not NaN: exactly one of `<` and the opposite `<=` holds.
pub record IsOrdered (W : Type 0) ⦃d : Double W⦄ : Type 0 where
  pub not_lt : (a b : W) → d.lt a b ≡ not (d.le b a)
