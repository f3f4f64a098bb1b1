-- ===== src/Timestamp.antt =====
-- src/common/timestamp.hpp: the calibration of the time stamp counter. Readings of the two clocks are
-- arguments, and so are the conversions to and from double.
use mm_engine.Base.{
  ℕ, ◌≡◌, refl, true, inl, inr, Option, none, some, List, [], ◌∷◌, ◌>>=◌, if◌then◌else◌, sub_u64,
  Bool-cases,
}
use mm_engine.Base.Int.{ℤ, pos, ◌-ℤ◌, ltb_ℤ}
use mm_engine.Double.{Double, IsOrdered}

pub record TscCal (W : Type 0) : Type 0 where
  pub ticks_per_ns : W

-- `double` of an `int64_t` and of a `uint64_t`, 1.0, and the conversion back, which truncates.
pub record Convert (W : Type 0) : Type 0 where
  pub of_int : ℤ → W
  pub of_ticks : ℕ → W
  pub one : W
  pub to_int : W → ℤ

-- The busy wait: the readings that are left once one is 50 ms after `t0`, or `none` when they run out.
unfoldable pub wait : (t0 : ℤ) → List ℤ → Option (List ℤ)
wait t0 [] = none
wait t0 (now ∷ readings) =
    let rest = wait t0 readings in if ltb_ℤ (now -ℤ t0) (pos 50000000) then rest else some readings

module _ {W : Type 0} ⦃d : Double W⦄ (convert : Convert W) where
  -- `if (ticks_per_ns <= 0) ticks_per_ns = 1.0`
  abbrev pub positive_or_one : W → W
  positive_or_one x = if d.le x d.nought then convert.one else x

  abbrev pub measured : (t0 : ℤ) (c0 : ℕ) → (t1 : ℤ) (c1 : ℕ) → TscCal W
  measured t0 c0 t1 c1 = record {
    ticks_per_ns =
        positive_or_one (d.div (convert.of_ticks (sub_u64 c1 c0)) (convert.of_int (t1 -ℤ t0)));
  }

  -- The reading after the wait is the first of those that are left.
  abbrev pub measured_at : (t0 : ℤ) (c0 : ℕ) → List ℤ → (c1 : ℕ) → Option (TscCal W)
  measured_at t0 c0 [] c1 = none
  measured_at t0 c0 (t1 ∷ readings) c1 = some (measured t0 c0 t1 c1)

  -- `calibrate`, on the readings of `now_ns` from the first on, and the two of `rdtsc`.
  unfoldable pub calibrate : (t0 : ℤ) (c0 : ℕ) → (readings : List ℤ) → (c1 : ℕ) → Option (TscCal W)
  calibrate t0 c0 readings c1 = wait t0 readings >>= λ rest. measured_at t0 c0 rest c1

  unfoldable pub to_ns : TscCal W → (ticks : ℕ) → ℤ
  to_ns cal ticks = convert.to_int (d.div (convert.of_ticks ticks) cal.ticks_per_ns)

  -- Whatever the clocks give, the factor is positive, where no number is NaN.
  measured-positive :
      (o : IsOrdered W)
      → d.lt d.nought convert.one ≡ true
      → (t0 : ℤ) (c0 : ℕ) (t1 : ℤ) (c1 : ℕ)
      → d.lt d.nought (measured t0 c0 t1 c1).ticks_per_ns ≡ true
  measured-positive o positive t0 c0 t1 c1 =
      go (d.div (convert.of_ticks (sub_u64 c1 c0)) (convert.of_int (t1 -ℤ t0)))
    where
      go : (x : W) → d.lt d.nought (positive_or_one x) ≡ true
      go x = elim (Bool-cases (d.le x d.nought)) [
        | inl low ↦ rw low positive
        | inr high ↦ rw (high, o.not_lt d.nought x, high) refl
      ]
