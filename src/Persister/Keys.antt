-- ===== src/Persister/Keys.antt =====
-- src/storage/lmdb_persister.hpp: the keys in the order of their bytes, which is that of LMDB.
use mathlib.Core.List.{append_assoc}
use mm_engine.Base.{
  ℕ, zero, suc, ◌+◌, ◌-◌, ◌/◌, ◌%◌, ◌^◌, ◌<◌, ◌≡◌, ◌⊎◌, inl, inr, refl, sym, ap, ◌∙◌, Bool, true,
  false, List, [], ◌∷◌, ◌++◌, ◌==◌, ==_iff, ltb, ltb→lt, if◌then◌else◌, arith, length,
  length-append, replicate, Bool-cases,
}
use native.Mathlib.Nat.{pow-suc}
use mm_engine.Events.{BookSnapshot, ExecEvent}
use mm_engine.Fix.Outbound.{decimal, digits_of}
use mm_engine.Persister.{padded, snap_entry, trade_entry}

-- The order of `memcmp`, and of two keys of which one begins with the other.
unfoldable pub key_lt : List ℕ → List ℕ → Bool
key_lt xs [] = false
key_lt [] (y ∷ ys) = true
key_lt (x ∷ xs) (y ∷ ys) = if x == y then key_lt xs ys else ltb x y

-- The last `k` digits of a number.
unfoldable fixed : (k : ℕ) → ℕ → List ℕ
fixed zero n = []
fixed (suc k) n = fixed k (n / 10) ++ (48 + n % 10) ∷ []

digits_of-acc : (fuel n : ℕ) (acc : List ℕ) → digits_of fuel n acc ≡ digits_of fuel n [] ++ acc
unfolding digits_of
digits_of-acc zero n acc = refl
digits_of-acc (suc fuel) n acc = elim (Bool-cases (n / 10 == 0)) [
  | inl single ↦ rw single refl
  | inr more ↦ rw more (
      digits_of-acc fuel (n / 10) ((48 + n % 10) ∷ acc)
      ∙ (sym (append_assoc (digits_of fuel (n / 10) []) ((48 + n % 10) ∷ []) acc)
          ∙ ap (λ xs. xs ++ acc) (sym (digits_of-acc fuel (n / 10) ((48 + n % 10) ∷ [])))))
]

replicate-snoc : (k a : ℕ) → replicate k a ++ a ∷ [] ≡ a ∷ replicate k a
replicate-snoc zero a = refl
replicate-snoc (suc k) a = ap (λ xs. a ∷ xs) (replicate-snoc k a)

fixed_zero : (k : ℕ) → fixed k 0 ≡ replicate k 48
unfolding fixed
fixed_zero zero = refl
fixed_zero (suc k) = ap (λ xs. xs ++ 48 ∷ []) (fixed_zero k) ∙ replicate-snoc k 48

-- Zeros before the digits make up the fixed width.
digits_of-fixed :
    (k fuel n : ℕ)
    → k < fuel
    → n < 10 ^ suc k
    → replicate (suc k - length (digits_of fuel n [])) 48 ++ digits_of fuel n [] ≡ fixed (suc k) n
unfolding digits_of fixed
digits_of-fixed k zero n h lt = absurd (omega arith)
digits_of-fixed zero (suc fuel) n h lt =
    let single : (n / 10 == 0) ≡ true = ground arith in rw single refl
digits_of-fixed (suc k) (suc fuel) n h lt = elim (Bool-cases (n / 10 == 0)) [
  | inl single ↦
      let width : suc (suc k) - 1 ≡ suc k = omega arith in
      rw (single, width)
        (ap (λ xs. xs ++ (48 + n % 10) ∷ [])
          (sym (fixed_zero (suc k)) ∙ ap (fixed (suc k)) (sym ((==_iff (n / 10) 0).0 single))))
  | inr more ↦
      let rest = digits_of fuel (n / 10) [] in
      let last = (48 + n % 10) ∷ [] in
      let width : suc (suc k) - length (rest ++ last) ≡ suc k - length rest =
        omega (arith, length-append rest last) in
      rw (more, digits_of-acc fuel (n / 10) last, width)
        (sym (append_assoc (replicate (suc k - length rest) 48) rest last)
          ∙ ap (λ xs. xs ++ last)
              (digits_of-fixed k fuel (n / 10) (omega arith)
                (omega (arith, lt, pow-suc 10 (suc k)))))
]

fixed-length : (k n : ℕ) → length (fixed k n) ≡ k
unfolding fixed
fixed-length zero n = refl
fixed-length (suc k) n =
    omega (arith, length-append (fixed k (n / 10)) ((48 + n % 10) ∷ []), fixed-length k (n / 10))

-- The first digits decide, and else the last one.
key_lt-snoc :
    (xs ys : List ℕ) (a b : ℕ)
    → length xs ≡ length ys
    → (key_lt xs ys ≡ true) ⊎ ((xs ≡ ys) × (a < b))
    → key_lt (xs ++ a ∷ []) (ys ++ b ∷ []) ≡ true
unfolding key_lt
key_lt-snoc [] [] a b e (inl h) = absurd (cc h)
key_lt-snoc [] [] a b e (inr (_, lt)) = ground (arith, lt)
key_lt-snoc [] (y ∷ ys) a b e h = absurd (omega arith)
key_lt-snoc (x ∷ xs) [] a b e h = absurd (omega arith)
key_lt-snoc (x ∷ xs) (y ∷ ys) a b e h = elim (Bool-cases (x == y)) [
  | inl same ↦ rw same (key_lt-snoc xs ys a b (omega arith) (later same h))
  | inr apart ↦ rw apart (decided apart h)
]
  where
    later :
        (x == y) ≡ true
        → (key_lt (x ∷ xs) (y ∷ ys) ≡ true) ⊎ ((x ∷ xs ≡ y ∷ ys) × (a < b))
        → (key_lt xs ys ≡ true) ⊎ ((xs ≡ ys) × (a < b))
    later same (inl less) = inl (rw same at less)
    later same (inr (eq, lt)) = inr (cc eq, lt)

    decided :
        (x == y) ≡ false
        → (key_lt (x ∷ xs) (y ∷ ys) ≡ true) ⊎ ((x ∷ xs ≡ y ∷ ys) × (a < b))
        → ltb x y ≡ true
    decided apart (inl less) = rw apart at less
    decided apart (inr (eq, lt)) =
        let same : x ≡ y = cc eq in absurd (cc ((==_iff x y).1 same, apart))

fixed-key_lt : (k m n : ℕ) → m < n → n < 10 ^ k → key_lt (fixed k m) (fixed k n) ≡ true
unfolding fixed
fixed-key_lt zero m n h lt = absurd (omega arith)
fixed-key_lt (suc k) m n h lt =
    let first =
      key_lt-snoc (fixed k (m / 10)) (fixed k (n / 10)) (48 + m % 10) (48 + n % 10)
        (fixed-length k (m / 10) ∙ sym (fixed-length k (n / 10))) in
    elim (Bool-cases (ltb (m / 10) (n / 10))) [
      | inl less ↦ first (
          inl
            (fixed-key_lt k (m / 10) (n / 10) (ltb→lt _ _ less) (omega (arith, lt, pow-suc 10 k))))
      | inr not_less ↦
          let same : m / 10 ≡ n / 10 = ground (arith, h, not_less) in
          first (inr (ap (fixed k) same, omega (arith, same, h)))
    ]

padded-fixed : (n : ℕ) → n < 10 ^ 10 → padded n ≡ fixed 10 n
unfolding decimal
padded-fixed n h = digits_of-fixed 9 20 n (omega arith) h

key_lt-prefix : (p xs ys : List ℕ) → key_lt (p ++ xs) (p ++ ys) ≡ key_lt xs ys
unfolding key_lt
key_lt-prefix [] xs ys = refl
key_lt-prefix (c ∷ p) xs ys = rw ((==_iff c c).1 refl) (key_lt-prefix p xs ys)

padded-key_lt : (m n : ℕ) → m < n → n < 10 ^ 10 → key_lt (padded m) (padded n) ≡ true
padded-key_lt m n h lt =
    rw (padded-fixed m (omega arith), padded-fixed n lt) (fixed-key_lt 10 m n h lt)

module _ {W : Type 0} where
  -- Below ten thousand million, the keys of trades stand in the order of their numbers, and so do the
  -- keys of snapshots of one symbol.
  pub keys_in_order :
      (m n : ℕ) (e e' : ExecEvent W) (s s' : BookSnapshot W)
      → m < n
      → n < 10 ^ 10
      → s.symbol_id ≡ s'.symbol_id
      → (key_lt (trade_entry m e).0 (trade_entry n e').0 ≡ true)
        × (key_lt (snap_entry m s).0 (snap_entry n s').0 ≡ true)
  keys_in_order m n e e' s s' h lt same = (
    key_lt-prefix (116 ∷ 114 ∷ 124 ∷ []) (padded m) (padded n) ∙ padded-key_lt m n h lt,
    ap (λ symbol. key_lt (snap_entry m (record s { symbol_id = symbol })).0 (snap_entry n s').0)
          same
        ∙ (key_lt-prefix ((111 ∷ 98 ∷ 124 ∷ []) ++ decimal s'.symbol_id ++ (124 ∷ [])) (padded m)
              (padded n)
            ∙ padded-key_lt m n h lt),
  )
