-- ===== src/Double/Fixed.antt =====
-- Thousandths as a `Double`: exact sums, products and quotients rounded toward zero. The tests
-- compute with it, and it shows that the laws can hold.
use mm_engine.Base.{ℕ, ◌+◌, ◌/◌, Bool, arith, leb}
use mm_engine.Base.Int.{
  ℤ, pos, pos_part, neg_part, sub_ℕ, ◌+ℤ◌, ◌-ℤ◌, ◌*ℤ◌, ltb_ℤ, int_laws, +ℤ_comm, +ℤ_assoc, abs,
}
use mm_engine.Double.{Double, IsExactSum, IsOrdered}

-- The quotient of the absolute values, with the sign of the first.
abbrev shrink : ℤ → ℕ → ℤ
shrink a n = sub_ℕ (pos_part a / n) (neg_part a / n)

abbrev leb_ℤ : ℤ → ℤ → Bool
leb_ℤ a b = leb (pos_part a + neg_part b) (pos_part b + neg_part a)

-- A quotient by a number that is not positive is 0 here.
instance abbrev pub thousandths : Double ℤ
thousandths = record {
  nought = pos 0;
  half = pos 500;
  add = λ a b. a +ℤ b;
  sub = λ a b. a -ℤ b;
  mul = λ a b. shrink (a *ℤ b) 1000;
  div = λ a b. shrink (a *ℤ pos 1000) (pos_part b);
  fabs = abs;
  lt = ltb_ℤ;
  le = leb_ℤ;
}

pub exact_sums : IsExactSum ℤ
exact_sums = record { add_comm = +ℤ_comm; add_assoc = +ℤ_assoc; nought_add = λ a. omega int_laws }

ordered : IsOrdered ℤ
ordered = record { not_lt = λ a b. ground arith }
