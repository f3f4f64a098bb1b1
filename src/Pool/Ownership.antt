-- ===== src/Pool/Ownership.antt =====
-- src/common/object_pool.hpp: no object of the pool has two owners.
use mm_engine.Base.{
  ℕ, zero, suc, ◌+◌, ◌-◌, ◌<◌, ◌≤◌, ◌≡◌, refl, sym, ◌∙◌, ap, subst, ◌⊎◌, inl, inr, false, none,
  some, List, [], ◌∷◌, ◌++◌, ◌==◌, ◌&&◌, arith, if◌then◌else◌, get_elem?, set, length, length-set,
  length-append, leb, ltb, get_elem?-set_self, get_elem?-set_ne, ==_iff,
}
use mathlib.Core.Option.{some-injective}
use mm_engine.Pool.{ObjectPool, countdown, object_pool, acquire, release, available}

abbrev pub count : ℕ → List ℕ → ℕ
count i [] = 0
count i (x ∷ xs) = (if i == x then 1 else 0) + count i xs

count-append : (i : ℕ) (xs ys : List ℕ) → count i (xs ++ ys) ≡ count i xs + count i ys
count-append i [] ys = omega arith
count-append i (x ∷ xs) ys = omega (arith, count-append i xs ys)

-- The client of a pool of `n` objects that owns those of the list.
pub data Owned (n : ℕ) : ObjectPool → List ℕ → Type 0 where
  made : Owned n (object_pool n) []
  acquired :
      {p : ObjectPool} {held : List ℕ} (x : ℕ)
      → Owned n p held
      → (acquire p).0 ≡ some x
      → Owned n (acquire p).1 (x ∷ held)
  released :
      {p : ObjectPool} (before : List ℕ) (x : ℕ) (after : List ℕ)
      → Owned n p (before ++ x ∷ after)
      → Owned n (release p x) (before ++ after)

-- The array holds the stack `s`, its top first.
abbrev IsStack : List ℕ → List ℕ → Type 0
IsStack free [] = Unit
IsStack free (x ∷ s) = (get_elem? free (length s) ≡ some x) × IsStack free s

IsStack-set : (free s : List ℕ) (j v : ℕ) → length s ≤ j → IsStack free s → IsStack (set free j v) s
IsStack-set free [] j v h k = tt
IsStack-set free (x ∷ s) j v h (at, k) = (
  get_elem?-set_ne free v (λ e. absurd (omega (arith, e))) ∙ at,
  IsStack-set free s j v (omega arith) k,
)

abbrev below : ℕ → ℕ → ℕ
below n i = if ltb i n then 1 else 0

-- Each object below `n` is either in the stack or owned, once.
record Inv (n : ℕ) (p : ObjectPool) (held : List ℕ) : Type 0 where
  stack : List ℕ
  size : length p.free ≡ n
  top_is : p.top ≡ length stack
  stored : IsStack p.free stack
  once : (i : ℕ) → count i stack + count i held ≡ below n i
  all_there : length stack + length held ≡ n

-- `m` numbers from `k` on.
abbrev upward : (m k : ℕ) → List ℕ
upward zero k = []
upward (suc m) k = k ∷ upward m (k + 1)

length-upward : (m k : ℕ) → length (upward m k) ≡ m
length-upward zero k = refl
length-upward (suc m) k = ap suc (length-upward m (k + 1))

length-countdown : (n : ℕ) → length (countdown n) ≡ n
unfolding countdown
length-countdown zero = refl
length-countdown (suc n) = ap suc (length-countdown n)

countdown-at : (n i k : ℕ) → i + k + 1 ≡ n → get_elem? (countdown n) i ≡ some k
unfolding countdown
countdown-at zero i k e = absurd (omega arith)
countdown-at (suc n) zero k e = ap some (omega arith)
countdown-at (suc n) (suc i) k e = countdown-at n i k (omega arith)

upward-IsStack : (n m k : ℕ) → m + k ≡ n → IsStack (countdown n) (upward m k)
upward-IsStack n zero k e = tt
upward-IsStack n (suc m) k e = (
  countdown-at n _ k (omega (arith, length-upward m (k + 1))),
  upward-IsStack n m (k + 1) (omega arith),
)

count-upward : (i m k : ℕ) → count i (upward m k) ≡ (if leb k i && ltb i (m + k) then 1 else 0)
count-upward i zero k = ground arith
count-upward i (suc m) k = ground (arith, count-upward i m (k + 1))

made-Inv : (n : ℕ) → Inv n (object_pool n) []
unfolding object_pool
made-Inv n = record {
  stack = upward n 0;
  size = length-countdown n;
  top_is = sym (length-upward n 0);
  stored = upward-IsStack n n 0 (omega arith);
  once = λ i. ground (arith, count-upward i n 0);
  all_there = omega (arith, length-upward n 0);
}

acquire-empty : (p : ObjectPool) → p.top ≡ 0 → (acquire p).0 ≡ none
unfolding acquire
acquire-empty p e = rw ((==_iff p.top 0).1 e) refl

acquire-some :
    (p : ObjectPool) (x t : ℕ)
    → p.top ≡ suc t
    → get_elem? p.free t ≡ some x
    → ((acquire p).0 ≡ some x) × ((acquire p).1 ≡ record p { top = t })
unfolding acquire
acquire-some p x t e at =
    rw some_left (ap (get_elem? p.free) before ∙ at, ap (λ k. record p { top = k }) before)
  where
    some_left : (p.top == 0) ≡ false
    some_left = ground (arith, e)

    before : p.top - 1 ≡ t
    before = omega (arith, e)

-- What a pool that keeps the invariant gives out.
acquire-Inv :
    {n : ℕ} {p : ObjectPool} {held : List ℕ}
    → Inv n p held
    → (((acquire p).0 ≡ none) × (length held ≡ n))
      ⊎ ((x : ℕ) × ((acquire p).0 ≡ some x)
          × (x < n)
          × (count x held ≡ 0)
          × Inv n (acquire p).1 (x ∷ held))
acquire-Inv {n} {p} {held} inv = go inv.stack inv.top_is inv.stored inv.once inv.all_there
  where
    go :
        (s : List ℕ)
        → p.top ≡ length s
        → IsStack p.free s
        → ((i : ℕ) → count i s + count i held ≡ below n i)
        → length s + length held ≡ n
        → (((acquire p).0 ≡ none) × (length held ≡ n))
          ⊎ ((x : ℕ) × ((acquire p).0 ≡ some x)
              × (x < n)
              × (count x held ≡ 0)
              × Inv n (acquire p).1 (x ∷ held))
    go [] e k once all = inl (acquire-empty p e, omega arith)
    go (x ∷ s) e (at, k) once all =
        let (given, after) = acquire-some p x (length s) e at in
        inr (
          x,
          given,
          ground (arith, once x),
          ground (arith, once x),
          subst (λ q. Inv n q (x ∷ held)) (sym after)
              (record {
                stack = s;
                size = inv.size;
                top_is = refl;
                stored = k;
                once = λ i. omega (arith, once i);
                all_there = omega arith;
              }),
        )

release-Inv :
    {n : ℕ} {p : ObjectPool} (before : List ℕ) (x : ℕ) (after : List ℕ)
    → Inv n p (before ++ x ∷ after)
    → Inv n (release p x) (before ++ after)
unfolding release
release-Inv {n} {p} before x after inv = record {
  stack = x ∷ inv.stack;
  size = length-set p.free p.top x ∙ inv.size;
  top_is = omega (arith, inv.top_is);
  stored = (
    ap (get_elem? (set p.free p.top x)) (sym inv.top_is) ∙ get_elem?-set_self p.free p.top x inside,
    IsStack-set p.free inv.stack p.top x (omega (arith, inv.top_is)) inv.stored,
  );
  once = λ i.
      omega (arith, inv.once i, count-append i before (x ∷ after), count-append i before after);
  all_there =
      omega (arith, inv.all_there, length-append before (x ∷ after), length-append before after);
}
  where
    inside : p.top < length p.free
    inside = omega (arith, inv.size, inv.top_is, inv.all_there, length-append before (x ∷ after))

acquired-Inv :
    {n : ℕ} (p : ObjectPool) {held : List ℕ} (x : ℕ)
    → (acquire p).0 ≡ some x
    → (((acquire p).0 ≡ none) × (length held ≡ n))
      ⊎ ((y : ℕ) × ((acquire p).0 ≡ some y)
          × (y < n)
          × (count y held ≡ 0)
          × Inv n (acquire p).1 (y ∷ held))
    → Inv n (acquire p).1 (x ∷ held)
acquired-Inv p x given (inl (nothing, _)) = cc
acquired-Inv {n} p {held} x given (inr (y, other, _, _, inv)) =
    subst (λ t. Inv n (acquire p).1 (t ∷ held)) (some-injective _ _ (sym other ∙ given)) inv

Owned-Inv : {n : ℕ} {p : ObjectPool} {held : List ℕ} → Owned n p held → Inv n p held
Owned-Inv {n} made = made-Inv n
Owned-Inv (acquired x path given) = acquired-Inv _ x given (acquire-Inv (Owned-Inv path))
Owned-Inv (released before x after path) = release-Inv before x after (Owned-Inv path)

-- However a client acquires objects and releases those that it owns, the objects available and
-- those owned are all `n`; the next call of `acquire` gives a null pointer if the client owns all
-- of them, and otherwise an object of the storage that the client does not own.
pub acquire-Owned :
    {n : ℕ} {p : ObjectPool} {held : List ℕ}
    → Owned n p held
    → (available p + length held ≡ n)
      × ((((acquire p).0 ≡ none) × (length held ≡ n))
          ⊎ ((x : ℕ) × ((acquire p).0 ≡ some x) × (x < n) × (count x held ≡ 0)))
unfolding available
acquire-Owned {n} {p} {held} path =
    (omega (arith, inv.top_is, inv.all_there), short (acquire-Inv inv))
  where
    inv : Inv n p held
    inv = Owned-Inv path

    short :
        (((acquire p).0 ≡ none) × (length held ≡ n))
          ⊎ ((x : ℕ) × ((acquire p).0 ≡ some x)
              × (x < n)
              × (count x held ≡ 0)
              × Inv n (acquire p).1 (x ∷ held))
        → (((acquire p).0 ≡ none) × (length held ≡ n))
          ⊎ ((x : ℕ) × ((acquire p).0 ≡ some x) × (x < n) × (count x held ≡ 0))
    short (inl none_left) = inl none_left
    short (inr (x, given, small, fresh, _)) = inr (x, given, small, fresh)
