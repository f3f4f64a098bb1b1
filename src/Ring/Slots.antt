-- ===== src/Ring/Slots.antt =====
-- Which slots the elements of a ring are in, and what one write does to them.
use native.Mathlib.Nat.{pow-le-pow_right, div-add-mod, mod-lt}
use mm_engine.Base.{
  ℕ, ◌+◌, ◌-◌, ◌*◌, ◌^◌, ◌%◌, ◌/◌, ◌≤◌, ◌<◌, ◌≡◌, ◌∙◌, ap, ◌≢◌, some, List, [], ◌∷◌, ◌++◌, arith,
  ltb, u64, sub_u64, u64_mod, bit_and_mask, length, get_elem?, get_elem?-set_self, get_elem?-set_ne,
  set,
}
use mm_engine.Ring.{slot, looks_full}

-- Two counters less than `c` apart do not meet modulo `c`.
pub mod-ne : (c a d : ℕ) → 0 < d → d < c → a % c ≢ (a + d) % c
mod-ne c a d lo hi e = far (a / c) ((a + d) / c) (div-add-mod a c) (div-add-mod (a + d) c)
  where
    far : (p q : ℕ) → c * p + a % c ≡ a → c * q + (a + d) % c ≡ a + d → ⊥
    far p q hp hq = grind arith

-- The slot that a wrapped counter selects is the one that the full counter selects.
pub slot-u64 : (k x : ℕ) → k ≤ 62 → slot k (u64 x) ≡ x % 2 ^ k
slot-u64 k x h = bit_and_mask k (u64 x) ∙ u64_mod k x (omega arith)

capacity_le : (k : ℕ) → k ≤ 62 → 2 ^ k ≤ 2 ^ 62
capacity_le k h = pow-le-pow_right {n = 2} (omega arith) h

-- The wrapped difference of two counters that are at most a capacity apart is their difference.
pub sub_u64_lem : (k h t : ℕ) → k ≤ 62 → t ≤ h → h ≤ t + 2 ^ k → sub_u64 (u64 h) (u64 t) ≡ h - t
sub_u64_lem k h t b lo hi = omega (arith, capacity_le k b)

-- So the test for a full ring is exact on the counters that it reads.
pub looks_full_lem :
    (k h c : ℕ)
    → k ≤ 62
    → c ≤ h
    → h ≤ c + 2 ^ k
    → looks_full k (u64 (u64 h + 1)) (u64 c) ≡ ltb (2 ^ k) (h + 1 - c)
looks_full_lem k h c b lo hi = ap (ltb (2 ^ k)) (omega (arith, capacity_le k b))

pub same_counter : (k h t : ℕ) → k ≤ 62 → t ≤ h → h ≤ t + 2 ^ k → u64 t ≡ u64 h → t ≡ h
same_counter k h t b lo hi e = omega (arith, capacity_le k b)

module _ {A : Type 0} (k : ℕ) where
  -- The elements `q`, in the slots from the one of the `t`-th element on.
  abbrev pub Stores : List A → ℕ → List A → Type 0
  Stores buf t [] = Unit {0}
  Stores buf t (x ∷ q) = (get_elem? buf (t % 2 ^ k) ≡ some x) × Stores buf (t + 1) q

  -- A write between the newest element and the oldest, one lap later, touches neither.
  pub Stores-set :
      (buf : List A) (q : List A) (t h : ℕ) (x : A)
      → t + length q ≤ h
      → h < t + 2 ^ k
      → Stores buf t q
      → Stores (set buf (h % 2 ^ k) x) t q
  Stores-set buf [] t h x lo hi s = tt
  Stores-set buf (y ∷ q) t h x lo hi (e, s) =
      (get_elem?-set_ne buf x away ∙ e, Stores-set buf q (t + 1) h x (omega arith) (omega arith) s)
    where
      away : h % 2 ^ k ≢ t % 2 ^ k
      away same =
          mod-ne (2 ^ k) t (h - t) (omega arith) (omega arith)
            (omega (arith, same, ap (λ (n : ℕ). n % 2 ^ k) (back (omega arith))))
        where
          back : t ≤ h → t + (h - t) ≡ h
          back le = omega arith

  -- An element in the slot behind the newest one extends the stored elements.
  pub Stores-append :
      (buf : List A) (q : List A) (t : ℕ) (x : A)
      → Stores buf t q
      → get_elem? buf ((t + length q) % 2 ^ k) ≡ some x
      → Stores buf t (q ++ x ∷ [])
  Stores-append buf [] t x s e = (ap (λ (n : ℕ). get_elem? buf (n % 2 ^ k)) (omega arith) ∙ e, tt)
  Stores-append buf (y ∷ q) t x (f, s) e = (
    f,
    Stores-append buf q (t + 1) x s (ap (λ (n : ℕ). get_elem? buf (n % 2 ^ k)) (omega arith) ∙ e),
  )

  -- What the write of a push leaves in its slot.
  pub written_slot :
      (buf : List A) (h : ℕ) (x : A)
      → length buf ≡ 2 ^ k
      → 0 < 2 ^ k
      → get_elem? (set buf (h % 2 ^ k) x) (h % 2 ^ k) ≡ some x
  written_slot buf h x len pos = get_elem?-set_self buf _ x (omega (arith, mod-lt h {m = 2 ^ k}))

  -- The write of a push extends the stored elements by the new one.
  pub Stores-snoc :
      (buf : List A) (q : List A) (t : ℕ) (x : A)
      → length buf ≡ 2 ^ k
      → length q < 2 ^ k
      → Stores buf t q
      → Stores (set buf ((t + length q) % 2 ^ k) x) t (q ++ x ∷ [])
  Stores-snoc buf q t x len fits s =
      Stores-append (set buf ((t + length q) % 2 ^ k) x) q t x
        (Stores-set buf q t (t + length q) x (omega arith) (omega arith) s)
        (written_slot buf (t + length q) x len (omega arith))
