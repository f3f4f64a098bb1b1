-- ===== src/Strategy/Ids.antt =====
-- The identifiers that `next_cl_ord_id` of src/strategy/market_maker.hpp gives to the commands.
use mm_engine.Base.{ℕ, suc, ◌+◌, ◌≤◌, ◌<◌, ◌^◌, ◌≡◌, ◌∙◌, List, [], ◌∷◌, ◌++◌, arith, u64}
use mm_engine.Double.{Double}
use mm_engine.Events.{OrderCmd, ExecEvent}
use mm_engine.Strategy.View.{View, Act, waste, send, report, draws, Acts, done, next}

module _ {W : Type 0} (base : ℕ) where
  -- The identifiers are the numbers from `base` on, modulo 2 ^ 64, in order: of those from the
  -- `lo`-th on and before the `hi`-th, no one twice.
  abbrev pub Numbered : (lo hi : ℕ) → List (OrderCmd W) → Type 0
  Numbered lo hi [] = lo ≤ hi
  Numbered lo hi (c ∷ cs) =
      (i : ℕ) × (lo ≤ i) × (c.cl_ord_id ≡ u64 (base + i)) × Numbered (suc i) hi cs

  Numbered-later :
      (lo hi hi' : ℕ) (cs : List (OrderCmd W)) → hi ≤ hi' → Numbered lo hi cs → Numbered lo hi' cs
  Numbered-later lo hi hi' [] le h = omega arith
  Numbered-later lo hi hi' (c ∷ cs) le (i, at, is, rest) =
      (i, at, is, Numbered-later (suc i) hi hi' cs le rest)

  Numbered-snoc :
      (lo hi hi' : ℕ) (cs : List (OrderCmd W)) (c : OrderCmd W)
      → c.cl_ord_id ≡ u64 (base + hi)
      → hi < hi'
      → Numbered lo hi cs
      → Numbered lo hi' (cs ++ c ∷ [])
  Numbered-snoc lo hi hi' [] c e lt h = (hi, h, e, omega arith)
  Numbered-snoc lo hi hi' (x ∷ cs) c e lt (i, le, is, rest) =
      (i, le, is, Numbered-snoc (suc i) hi hi' cs c e lt rest)

  -- The seed is the number that comes after those of the commands.
  record InOrder (hi : ℕ) (v : View W) : Type 0 where
    seed_is : v.seed ≡ u64 (base + hi)
    numbered : Numbered 0 hi v.sent

module _ {W : Type 0} ⦃d : Double W⦄ {Reported : ExecEvent W → Type 0} (base : ℕ) where
  Act-InOrder :
      {hi : ℕ} {v w : View W} (act : Act Reported v w)
      → InOrder base hi v
      → InOrder base (draws Reported act + hi) w
  Act-InOrder {hi} {v} waste o = record {
    seed_is = omega (arith, o.seed_is);
    numbered = Numbered-later base 0 hi (1 + hi) v.sent (omega arith) o.numbered;
  }
  Act-InOrder {hi} {v} (send s side row c q' at step (_, _, id)) o = record {
    seed_is = omega (arith, o.seed_is);
    numbered = Numbered-snoc base 0 hi (1 + hi) v.sent c (id ∙ o.seed_is) (omega arith) o.numbered;
  }
  Act-InOrder {hi} {v} (report e oms ok got) o = record {
    seed_is = omega (arith, o.seed_is);
    numbered = Numbered-later base 0 hi (0 + hi) v.sent (omega arith) o.numbered;
  }

  all :
      {v : View W} {n : ℕ} {w : View W}
      → Acts Reported v n w
      → v.seed ≡ base
      → base < 2 ^ 64
      → v.sent ≡ []
      → InOrder base n w
  all done e lt none_yet = record { seed_is = omega arith; numbered = rw none_yet (omega arith) }
  all (next path act) e lt none_yet = Act-InOrder act (all path e lt none_yet)

  -- Through any acts, from a start with no command sent.
  pub Acts-Numbered :
      {v : View W} {n : ℕ} {w : View W}
      → Acts Reported v n w
      → v.seed ≡ base
      → base < 2 ^ 64
      → v.sent ≡ []
      → (w.seed ≡ u64 (base + n)) × Numbered base 0 n w.sent
  Acts-Numbered path e lt none_yet = let o = all path e lt none_yet in (o.seed_is, o.numbered)
