-- ===== src/Engine/Ascending.antt =====
-- Identifiers as text, on the orders and cancellations of src/main.cpp: what is left of numbered
-- commands when some are dropped.
use mm_engine.Base.{
  ℕ, suc, ◌+◌, ◌<◌, ◌≤◌, ◌^◌, ◌≡◌, ◌≢◌, refl, sym, ap, ◌∙◌, List, [], ◌∷◌, ◌++◌, map, arith, All,
  u64,
}
use mm_engine.Events.{OrderCmd}
use mm_engine.Strategy.Ids.{Numbered}
use mm_engine.Fix.Inbound.{strtoull}
use mm_engine.Fix.Outbound.{decimal}
use mm_engine.Fix.Decimal.{strtoull-decimal}
use mm_engine.Engine.Wire.{Subsequence, finished, dropped, kept, command_ids}

-- Numbers from `lo` on and below `hi`, each above the one before.
abbrev pub Ascending : (lo hi : ℕ) → List ℕ → Type 0
Ascending lo hi [] = Unit {0}
Ascending lo hi (i ∷ is) = (lo ≤ i) × (i < hi) × Ascending (suc i) hi is

-- No text twice.
abbrev pub Differ : List (List ℕ) → Type 0
Differ [] = Unit {0}
Differ (t ∷ ts) = All (λ u. t ≢ u) ts × Differ ts

-- The identifiers of these numbers from a seed on, as text.
abbrev pub texts : (seed : ℕ) → List ℕ → List (List ℕ)
texts seed is = map (λ i. decimal (u64 (seed + i))) is

pub Ascending-within :
    {lo hi lo' hi' : ℕ} (is : List ℕ)
    → lo' ≤ lo
    → hi ≤ hi'
    → Ascending lo hi is
    → Ascending lo' hi' is
Ascending-within [] le le' a = tt
Ascending-within (i ∷ is) le le' (h, k, a) =
    (omega (arith, le, h), omega (arith, le', k), Ascending-within is (omega arith) le' a)

decimal-injective : (a b : ℕ) → a < 2 ^ 64 → b < 2 ^ 64 → decimal a ≡ decimal b → a ≡ b
decimal-injective a b h k e = sym (strtoull-decimal a h) ∙ (ap strtoull e ∙ strtoull-decimal b k)

differs :
    (seed i lo hi : ℕ) (is : List ℕ)
    → i < lo
    → hi ≤ 2 ^ 64
    → Ascending lo hi is
    → All (λ t. decimal (u64 (seed + i)) ≢ t) (texts seed is)
differs seed i lo hi [] lt le a = tt
differs seed i lo hi (j ∷ is) lt le (h, k, a) = (
  λ same. absurd (
      omega (
        arith,
        lt,
        le,
        h,
        k,
        decimal-injective (u64 (seed + i)) (u64 (seed + j)) (omega arith) (omega arith) same,
      )),
  differs seed i (suc j) hi is (omega (arith, lt, h)) le a,
)

pub texts-Differ :
    (seed lo hi : ℕ) (is : List ℕ) → hi ≤ 2 ^ 64 → Ascending lo hi is → Differ (texts seed is)
texts-Differ seed lo hi [] le a = tt
texts-Differ seed lo hi (i ∷ is) le (_, _, a) =
    (differs seed i (suc i) hi is (omega arith) le a, texts-Differ seed (suc i) hi is le a)

module _ {W : Type 0} where
  Numbered-lt : (seed lo hi : ℕ) (cs : List (OrderCmd W)) → Numbered seed lo hi cs → lo ≤ hi
  Numbered-lt seed lo hi [] n = n
  Numbered-lt seed lo hi (c ∷ cs) (i, le, _, n) =
      omega (arith, le, Numbered-lt seed (suc i) hi cs n)

  -- What is left of the first of some numbered commands is numbered.
  pub Numbered-texts :
      (seed lo hi : ℕ) (cs later : List (OrderCmd W)) {ids : List (List ℕ)}
      → Numbered seed lo hi (cs ++ later)
      → Subsequence (command_ids cs) ids
      → (ns : List ℕ) × Ascending lo hi ns × (ids ≡ texts seed ns)
  Numbered-texts seed lo hi [] later n finished = ([], tt, refl)
  Numbered-texts seed lo hi (c ∷ cs) later (i, le, _, n) (dropped s) =
      let (ns, a, e) = Numbered-texts seed (suc i) hi cs later n s in
      (ns, Ascending-within ns (omega (arith, le)) (omega arith) a, e)
  Numbered-texts seed lo hi (c ∷ cs) later (i, le, id, n) (kept s) =
      let (ns, a, e) = Numbered-texts seed (suc i) hi cs later n s in
      (
        i ∷ ns,
        (le, Numbered-lt seed (suc i) hi (cs ++ later) n, a),
        ap (λ ts. decimal c.cl_ord_id ∷ ts) e ∙ ap (λ n. decimal n ∷ texts seed ns) id,
      )
