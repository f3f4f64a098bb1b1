-- ===== src/Base/Words.antt =====
-- Machine words: `uint64_t` wraps modulo 2 ^ 64, and a ring's index is masked with `2 ^ k - 1`.
use Prim.Native.Nat.{
  ℕ, zero, suc, ◌+◌, ◌-◌, ◌*◌, ◌/◌, ◌%◌, ◌^◌, ◌≤◌, ◌<◌, ◌∣◌, min, bit_and, digits, bit_and-bitwise,
}
use mathlib.Core.Path.{◌≡◌, refl, sym, ap, subst}
use native.Mathlib.Nat.{
  add-mul-mod_self_left, mod-eq_of_lt, div-add-mod, mod-mod_of_dvd, dvd_refl, dvd-mul_right_of_dvd,
  pow-suc, one-le-pow,
}
use native.Mathlib.Omega.{arith}

abbrev pub u64 : ℕ → ℕ
u64 x = x % 2 ^ 64

abbrev pub u32 : ℕ → ℕ
u32 x = x % 2 ^ 32

abbrev pub u16 : ℕ → ℕ
u16 x = x % 2 ^ 16

-- `uint64_t` subtraction wraps.
abbrev pub sub_u64 : ℕ → ℕ → ℕ
sub_u64 a b = (a + 2 ^ 64 - b) % 2 ^ 64

pow-dvd-pow : (k j : ℕ) → 2 ^ k ∣ 2 ^ (k + j)
pow-dvd-pow k zero = subst (λ (n : ℕ). 2 ^ k ∣ 2 ^ n) (omega arith) (dvd_refl (2 ^ k))
pow-dvd-pow k (suc j) =
    subst (λ (n : ℕ). 2 ^ k ∣ 2 ^ n) (omega arith)
      (subst (λ (n : ℕ). 2 ^ k ∣ n) (sym (pow-suc 2 (k + j)))
        (dvd-mul_right_of_dvd (2 ^ k) (pow-dvd-pow k j) 2))

-- A wrapped counter and the counter that never wraps select the same slot.
pub u64_mod : (k x : ℕ) → k ≤ 64 → u64 x % 2 ^ k ≡ x % 2 ^ k
u64_mod k x h = mod-mod_of_dvd (2 ^ k) x divides
  where
    divides : 2 ^ k ∣ 2 ^ 64
    divides = subst (λ (n : ℕ). 2 ^ k ∣ 2 ^ n) {y = 64} (omega arith) (pow-dvd-pow k (64 - k))

-- Digit by digit: the lowest bit of a conjunction, for any fuel that is enough.
abbrev conj_digits : ℕ → ℕ → ℕ → ℕ
conj_digits fuel a b = digits (λ _. zero) min fuel a b

conj_digits_any_fuel : (m n a b : ℕ) → a ≤ m → a ≤ n → conj_digits m a b ≡ conj_digits n a b
conj_digits_any_fuel zero zero a b hm hn = refl
conj_digits_any_fuel zero (suc n) zero b hm hn = refl
conj_digits_any_fuel zero (suc n) (suc a) b hm hn = absurd (omega arith)
conj_digits_any_fuel (suc m) zero zero b hm hn = refl
conj_digits_any_fuel (suc m) zero (suc a) b hm hn = absurd (omega arith)
conj_digits_any_fuel (suc m) (suc n) zero b hm hn = refl
conj_digits_any_fuel (suc m) (suc n) (suc a) b hm hn =
    omega (arith, conj_digits_any_fuel m n (suc a / 2) (b / 2) (omega arith) (omega arith))

lowest_bit : (a b : ℕ) → bit_and a b ≡ bit_and (a / 2) (b / 2) * 2 + min (a % 2) (b % 2)
lowest_bit zero b = omega (arith, bit_and-bitwise 0 b, bit_and-bitwise 0 (b / 2))
lowest_bit (suc a) b = omega (
  arith,
  bit_and-bitwise (suc a) b,
  bit_and-bitwise (suc a / 2) (b / 2),
  conj_digits_any_fuel a (suc a / 2) (suc a / 2) (b / 2) (omega arith) (omega arith),
)

and-zero_below : (n a : ℕ) → a ≤ n → bit_and a 0 ≡ 0
and-zero_below n zero h = refl
and-zero_below zero (suc a) h = absurd (omega arith)
and-zero_below (suc n) (suc a) h =
    omega (arith, lowest_bit (suc a) 0, and-zero_below n (suc a / 2) (omega arith))

-- The remainder by `2 * t`, from the remainder of the half by `t`.
mod_double : (a t : ℕ) → 0 < t → a / 2 % t * 2 + a % 2 ≡ a % (t * 2)
mod_double a t h = omega (
  arith,
  ap (λ (x : ℕ). x % (t * 2)) split,
  add-mul-mod_self_left (a / 2 % t * 2 + a % 2) (t * 2) (a / 2 / t),
  mod-eq_of_lt {n = a / 2 % t * 2 + a % 2} {m = t * 2} (omega arith),
)
  where
    split : a ≡ a / 2 % t * 2 + a % 2 + t * 2 * (a / 2 / t)
    split = omega (arith, div-add-mod (a / 2) t)

-- A mask of `k` ones keeps the remainder modulo `2 ^ k`.
pub bit_and_mask : (k a : ℕ) → bit_and a (2 ^ k - 1) ≡ a % 2 ^ k
bit_and_mask zero a = omega (arith, and-zero_below a a (omega arith))
bit_and_mask (suc k) a = rw (pow-suc 2 k) (joined (bit_and_mask k (a / 2)))
  where
    ones : (2 ^ k * 2 - 1) / 2 ≡ 2 ^ k - 1
    ones = omega (arith, one-le-pow k 2 (omega arith))

    joined :
        bit_and (a / 2) (2 ^ k - 1) ≡ a / 2 % 2 ^ k → bit_and a (2 ^ k * 2 - 1) ≡ a % (2 ^ k * 2)
    joined ih = omega (
      arith,
      lowest_bit a (2 ^ k * 2 - 1),
      ap (bit_and (a / 2)) ones,
      ih,
      one-le-pow k 2 (omega arith),
      mod_double a (2 ^ k) (one-le-pow k 2 (omega arith)),
    )
