-- ===== src/Main/Bench/Producer.antt =====
-- The producer of `run_bench` in src/main.cpp: the events on the way to the strategy.
use mathlib.Core.List.{append_assoc}
use mm_engine.Base.{
  ℕ, zero, suc, ◌+◌, ◌^◌, ◌≡◌, refl, sym, ap, ◌∙◌, ◌≢◌, subst, inl, inr, Bool, true, false, Option,
  some, none, List, [], ◌∷◌, ◌++◌, arith, u32, u64, length, map, Bool-cases, ltb, ◌==◌, All, ◌>>=◌,
  if◌then◌else◌,
}
use mm_engine.Base.Int.{ℤ}
use mm_engine.Double.{Double}
use mm_engine.Events.{MdEvent}
use mm_engine.Metrics.{Metrics}
use mm_engine.Ring.Queue
use mm_engine.Ring.{Ring, empty, try_push, try_pop}
use mm_engine.Ring.Refine.{Represents, empty-Represents, try_push_refines, try_pop_refines}
use mm_engine.Strategy.{md_bits}
use mm_engine.Main.Bench.{
  BenchPrices, Bench, BenchTurn, bench_event, advance, push_pending, start_event, produce_next,
  receive, bench_turn, bench_turns,
}

-- The numbers of the first `n` events.
unfoldable pub numbers : ℕ → List ℕ
numbers zero = []
numbers (suc n) = numbers n ++ u32 n ∷ []

module _ {W : Type 0} where
  abbrev pub seqs : List (MdEvent W) → List ℕ
  seqs evs = map (λ (ev : MdEvent W). ev.seq) evs

  -- The engine runs.
  abbrev pub Runs : BenchTurn W → Type 0
  Runs (BenchTurn.produce running now jig) = running ≡ true
  Runs BenchTurn.pop = Unit

  abbrev pending_count : Option (MdEvent W) → ℕ
  pending_count none = 0
  pending_count (some ev) = 1

  abbrev Numbered : ℕ → Option (MdEvent W) → Type 0
  Numbered i none = Unit
  Numbered i (some ev) = ev.seq ≡ u32 i

  -- The events before the `i`-th are received or wait in the ring, in order; the `i`-th may be pending.
  pub record InOrder (b : Bench W) : Type 0 where
    pub waiting : List (MdEvent W)
    pub holds : Represents md_bits b.md waiting
    pub in_order : seqs (b.received ++ waiting) ≡ numbers b.i
    pub next_one : Numbered b.i b.pending
    pub counted : u64 b.metrics.md_msgs_total ≡ u64 (b.i + pending_count b.pending)

  seqs-append : (xs ys : List (MdEvent W)) → seqs (xs ++ ys) ≡ seqs xs ++ seqs ys
  seqs-append [] ys = refl
  seqs-append (x ∷ xs) ys = ap (λ s. x.seq ∷ s) (seqs-append xs ys)

  -- An event that the ring takes.
  pushed-InOrder :
      (b : Bench W) (ev : MdEvent W) (o : InOrder b) (ring : Ring (MdEvent W))
      → b.pending ≡ some ev
      → Represents md_bits ring (o.waiting ++ ev ∷ [])
      → InOrder (advance b ring)
  unfolding numbers
  pushed-InOrder b ev o ring e after = record {
    waiting = o.waiting ++ ev ∷ [];
    holds = after;
    in_order =
        ap seqs (sym (append_assoc b.received o.waiting (ev ∷ [])))
        ∙ (seqs-append (b.received ++ o.waiting) (ev ∷ [])
            ∙ (ap (λ s. s ++ ev.seq ∷ []) o.in_order
                ∙ (ap (λ n. numbers b.i ++ n ∷ []) (subst (λ p. Numbered b.i p) e o.next_one)
                    ∙ ap numbers {x = suc b.i} {y = b.i + 1} (omega arith))));
    next_one = tt;
    counted = omega (arith, o.counted, ap (λ p. pending_count p) e);
  }

  push_pending-InOrder :
      (b : Bench W) (ev : MdEvent W)
      → b.pending ≡ some ev
      → InOrder b
      → InOrder (push_pending true b ev)
  unfolding Queue.push
  push_pending-InOrder b ev e o =
      let (answer, after) = try_push_refines md_bits o.holds ev in
      go (ltb (length o.waiting) (2 ^ md_bits)) answer after
    where
      go :
          (room : Bool)
          → let out : Bool × List (MdEvent W) =
              if room then (true, o.waiting ++ ev ∷ []) else (false, o.waiting) in
            ((try_push md_bits b.md ev).0 ≡ out.0)
            → Represents md_bits (try_push md_bits b.md ev).1 out.1
            → InOrder (push_pending true b ev)
      go true answer after = rw answer (pushed-InOrder b ev o (try_push md_bits b.md ev).1 e after)
      go false answer after = rw answer (record {
        waiting = o.waiting;
        holds = after;
        in_order = o.in_order;
        next_one = o.next_one;
        counted = o.counted;
      })

  receive-InOrder :
      (b : Bench W)
      → InOrder b
      → InOrder (receive (try_pop md_bits b.md).0 b (try_pop md_bits b.md).1)
  unfolding Queue.pop
  receive-InOrder b o = go o.waiting o.holds o.in_order
    where
      go :
          (q : List (MdEvent W))
          → Represents md_bits b.md q
          → seqs (b.received ++ q) ≡ numbers b.i
          → InOrder (receive (try_pop md_bits b.md).0 b (try_pop md_bits b.md).1)
      go [] r e =
          let (nothing, after) = try_pop_refines md_bits [] r in
          rw nothing (record {
            waiting = [];
            holds = after;
            in_order = e;
            next_one = o.next_one;
            counted = o.counted;
          })
      go (ev ∷ q) r e =
          let (oldest, after) = try_pop_refines md_bits (ev ∷ q) r in
          rw oldest (record {
            waiting = q;
            holds = after;
            in_order = ap seqs (append_assoc b.received (ev ∷ []) q) ∙ e;
            next_one = o.next_one;
            counted = o.counted;
          })

  -- The bench as it begins.
  abbrev pub bench_start : MdEvent W → Metrics → Bench W
  bench_start a m = record {
    md = empty md_bits a;
    i = 0;
    pending = none;
    metrics = m;
    received = [];
  }

module _ {W : Type 0} ⦃d : Double W⦄ (prices : BenchPrices W) (n_syms n_msgs : ℕ) where
  start_event-InOrder :
      (b : Bench W) (now : ℤ) (jig : W)
      → n_syms ≢ 0
      → b.pending ≡ none
      → InOrder b
      → (b' : Bench W) × (start_event prices n_syms n_msgs true b now jig ≡ some b') × InOrder b'
  unfolding bench_event
  start_event-InOrder b now jig some_symbols e o = elim (Bool-cases (ltb b.i n_msgs)) [
    | inl more ↦
        rw (more, divides)
          (
            _,
            refl,
            record {
              waiting = o.waiting;
              holds = o.holds;
              in_order = o.in_order;
              next_one = refl;
              counted = omega (arith, o.counted, ap (λ p. pending_count p) e);
            },
          )
    | inr over ↦ rw over (b, refl, o)
  ]
    where
      divides : (n_syms == 0) ≡ false
      divides = ground (arith, some_symbols)

  bench_turn-InOrder :
      (b : Bench W) (t : BenchTurn W)
      → n_syms ≢ 0
      → Runs t
      → InOrder b
      → (b' : Bench W) × (bench_turn prices n_syms n_msgs b t ≡ some b') × InOrder b'
  unfolding bench_turn
  bench_turn-InOrder b (BenchTurn.produce running now jig) some_symbols runs o =
      rw runs (go b.pending refl)
    where
      go :
          (p : Option (MdEvent W))
          → b.pending ≡ p
          → (b' : Bench W) × (produce_next prices n_syms n_msgs p true b now jig ≡ some b')
            × InOrder b'
      go none e = start_event-InOrder b now jig some_symbols e o
      go (some ev) e = (push_pending true b ev, refl, push_pending-InOrder b ev e o)
  bench_turn-InOrder b BenchTurn.pop some_symbols runs o = (_, refl, receive-InOrder b o)

  bench_turns-InOrder :
      (ts : List (BenchTurn W)) (b : Bench W)
      → n_syms ≢ 0
      → All Runs ts
      → InOrder b
      → (b' : Bench W) × (bench_turns prices n_syms n_msgs ts b ≡ some b') × InOrder b'
  unfolding bench_turns
  bench_turns-InOrder [] b some_symbols runs o = (b, refl, o)
  bench_turns-InOrder (t ∷ ts) b some_symbols (runs, more) o =
      let (b₁, is, o₁) = bench_turn-InOrder b t some_symbols runs o in
      let (b', rest, o') = bench_turns-InOrder ts b₁ some_symbols more o₁ in
      (b', ap (λ o. o >>= bench_turns prices n_syms n_msgs ts) is ∙ rest, o')

  -- While the engine runs and has a symbol, from an empty ring and a count of 0 on, however the
  -- producer and the strategy take turns, and however often the ring is full: no turn fails, and the
  -- events that the strategy has received and those that wait in the ring are the first `i`, in order
  -- and with none missing; the messages counted are these and the one that waits to be pushed.
  pub bench_in_order :
      (a : MdEvent W) (m : Metrics) (ts : List (BenchTurn W))
      → n_syms ≢ 0
      → m.md_msgs_total ≡ 0
      → All Runs ts
      → (b : Bench W) × (bench_turns prices n_syms n_msgs ts (bench_start a m) ≡ some b) × InOrder b
  unfolding numbers
  bench_in_order a m ts some_symbols none_counted runs =
      bench_turns-InOrder ts (bench_start a m) some_symbols runs (record {
        waiting = [];
        holds = empty-Represents md_bits a (omega arith);
        in_order = refl;
        next_one = tt;
        counted = omega (arith, none_counted);
      })
