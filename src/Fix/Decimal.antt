-- ===== src/Fix/Decimal.antt =====
-- src/fix/fix_app.hpp: the order identifier as text, out on an order and back on a report.
use mm_engine.Base.{
  ℕ, zero, suc, ◌+◌, ◌-◌, ◌*◌, ◌/◌, ◌%◌, ◌^◌, ◌≤◌, ◌<◌, true, false, ◌≡◌, refl, sym, ap, ◌∙◌, inl,
  inr, List, [], ◌∷◌, arith, ◌==◌, lt→ltb, Bool-cases, ==_iff,
}
use mm_engine.Base.{is_digit, is_blank, digits_value}
use mm_engine.Fix.Inbound.{signed, strtoull, fits}
use mm_engine.Fix.Outbound.{digits_of, decimal}
use native.Mathlib.Nat.{pow-suc}

digit : (n : ℕ) → is_digit (48 + n % 10) ≡ true
digit n = ground arith

read_digit :
    (n v : ℕ) (acc : List ℕ)
    → digits_value ((48 + n % 10) ∷ acc) v ≡ digits_value acc (v * 10 + n % 10)
unfolding digits_value
read_digit n v acc = rw (digits_value, digit n, index) refl
  where
    index : 48 + n % 10 - 48 ≡ n % 10
    index = omega arith

ends : (n : ℕ) → (n / 10 == 0) ≡ true → n / 10 ≡ 0
ends n e = (==_iff _ _).0 e

goes_on : (n : ℕ) → (n / 10 == 0) ≡ false → 10 ≤ n
goes_on n e = ground arith

-- Reading the digits of `n` leaves its value with the rest still to read.
digits_value-digits_of :
    (fuel n : ℕ) (acc : List ℕ)
    → n < 10 ^ suc fuel
    → digits_value (digits_of (suc fuel) n acc) 0 ≡ digits_value acc n
unfolding digits_of digits_value
digits_value-digits_of zero n acc h =
    rw (digits_of, single) (read_digit n 0 acc ∙ ap (digits_value acc) (omega arith))
  where
    single : (n / 10 == 0) ≡ true
    single = (==_iff _ _).1 (omega arith)
digits_value-digits_of (suc fuel) n acc h = elim (Bool-cases (n / 10 == 0)) [
  | inl last ↦
      rw (digits_of, last) (read_digit n 0 acc ∙ ap (digits_value acc) (omega (arith, ends n last)))
  | inr more ↦
      rw (digits_of, more)
        (digits_value-digits_of fuel (n / 10) ((48 + n % 10) ∷ acc)
            (omega (arith, pow-suc 10 (suc fuel)))
          ∙ (read_digit n (n / 10) acc ∙ ap (digits_value acc) (omega arith)))
]

-- The text begins with a digit.
digits_of-first :
    (fuel n : ℕ) (acc : List ℕ)
    → (c : ℕ) × (cs : List ℕ) × (digits_of (suc fuel) n acc ≡ c ∷ cs) × (48 ≤ c) × (c ≤ 57)
unfolding digits_of
digits_of-first zero n acc = elim (Bool-cases (n / 10 == 0)) [
  | inl last ↦ rw last (_, _, refl, omega arith, omega arith)
  | inr more ↦ rw more (_, _, refl, omega arith, omega arith)
]
digits_of-first (suc fuel) n acc = elim (Bool-cases (n / 10 == 0)) [
  | inl last ↦ rw (digits_of, last) (_, _, refl, omega arith, omega arith)
  | inr more ↦ rw (digits_of, more) (digits_of-first fuel (n / 10) ((48 + n % 10) ∷ acc))
]

strtoull-digit :
    (c : ℕ) (cs : List ℕ) → 48 ≤ c → c ≤ 57 → strtoull (c ∷ cs) ≡ fits (digits_value (c ∷ cs) 0)
unfolding strtoull signed
strtoull-digit c cs h k = rw (blank, minus, plus) refl
  where
    blank : is_blank c ≡ false
    blank = ground arith

    minus : (c == 45) ≡ false
    minus = ground arith

    plus : (c == 43) ≡ false
    plus = ground arith

-- An identifier of 64 bits that is written on an order is read back from the report that returns
-- its text.
pub strtoull-decimal : (n : ℕ) → n < 2 ^ 64 → strtoull (decimal n) ≡ n
unfolding decimal digits_value
strtoull-decimal n h =
    let (c, cs, e, low, high) = digits_of-first 19 n [] in
    ap strtoull e
    ∙ (strtoull-digit c cs low high
        ∙ (ap (λ t. fits (digits_value t 0)) (sym e) ∙ (ap fits value ∙ rw (lt→ltb _ _ h) refl)))
  where
    value : digits_value (digits_of 20 n []) 0 ≡ n
    value = digits_value-digits_of 19 n [] (omega arith)
