-- ===== src/Strategy/Threads/Steps.antt =====
-- The steps of the threads of src/main.cpp at the ends of the strategy's rings, and what each does
-- to the view of the strategy.
use mathlib.Core.List.{append_assoc, append-nil}
use mm_engine.Base.{
  suc, ℕ, ◌≡◌, ◌∙◌, inl, inr, Bool-cases, ltb, length, ◌^◌, Option, none, some, List, [], ◌∷◌, ◌++◌,
  All-append, subst,
}
use mm_engine.Double.{Double}
use mm_engine.Config.{EngineConfig}
use mm_engine.Events.{OrderCmd, ExecEvent, MdEvent, LogRecord, BookSnapshot}
use mm_engine.Metrics.{Metrics}
use mm_engine.Ring.Queue
use mm_engine.Ring.{Ring, try_push, try_pop}
use mm_engine.Ring.Refine.{Represents, try_push_refines, try_pop_refines}
use mm_engine.Strategy.{MarketMaker, Readings, ord_bits, exec_bits, md_bits}
use mm_engine.Strategy.Loop.{round}
use mm_engine.Strategy.View.{View}
use mm_engine.Strategy.Refine.{Views}
use mm_engine.Strategy.Rounds.{Fed}

abbrev pub to_list : {A : Type 0} → Option A → List A
to_list none = []
to_list (some a) = a ∷ []

module _ {W : Type 0} ⦃d : Double W⦄ (cfg : EngineConfig W) (Reported : ExecEvent W → Type 0) where
  -- What may happen from `m` on in `n` rounds, with the commands that the sender takes meanwhile. A report that
  -- the reader pushes is one of `Reported`.
  pub data Run (m : MarketMaker W) : ℕ → List (OrderCmd W) → MarketMaker W → Type 0 where
    start : Run m 0 [] m
    rounds :
        {n : ℕ} {ts : List (OrderCmd W)} {a b : MarketMaker W} (fuel : ℕ) (now : Readings)
        → Run m n ts a
        → round cfg fuel a now ≡ some b
        → Run m (suc n) ts b
    reported :
        {n : ℕ} {ts : List (OrderCmd W)} {a : MarketMaker W} (e : ExecEvent W)
        → Reported e
        → Run m n ts a
        → Run m n ts (record a { exec = (try_push exec_bits a.exec e).1 })
    quoted :
        {n : ℕ} {ts : List (OrderCmd W)} {a : MarketMaker W} (ev : MdEvent W)
        → Run m n ts a
        → Run m n ts (record a { md = (try_push md_bits a.md ev).1 })
    sender :
        {n : ℕ} {ts : List (OrderCmd W)} {a : MarketMaker W}
        → Run m n ts a
        → Run m n
            (ts ++ to_list (try_pop ord_bits a.out).0)
            (record a { out = (try_pop ord_bits a.out).1 })
    -- The logger and the persister empty their rings, and the other threads count.
    stored :
        {n : ℕ} {ts : List (OrderCmd W)} {a : MarketMaker W} (log : Ring (LogRecord W))
        (snaps : Ring (BookSnapshot W)) (trades : Ring (ExecEvent W)) (metrics : Metrics)
        → Run m n ts a
        → Run m n ts (record a { log = log; snaps = snaps; trades = trades; metrics = metrics })

  pub sender-Views :
      {taken : List (OrderCmd W)} {m : MarketMaker W} {v : View W}
      → Views taken m v
      → Views
          (taken ++ to_list (try_pop ord_bits m.out).0)
          (record m { out = (try_pop ord_bits m.out).1 })
          v
  unfolding Queue.pop
  sender-Views {taken} {m} {v} x = go x.queue x.holds x.history
    where
      go :
          (q : List (OrderCmd W))
          → Represents ord_bits m.out q
          → taken ++ q ≡ v.sent
          → Views
              (taken ++ to_list (try_pop ord_bits m.out).0)
              (record m { out = (try_pop ord_bits m.out).1 })
              v
      go [] r h =
          let (nothing, after) = try_pop_refines ord_bits [] r in
          record {
            same_oms = x.same_oms;
            same_seed = x.same_seed;
            queue = [];
            holds = after;
            history = rw (nothing, append-nil taken) h;
          }
      go (c ∷ q) r h =
          let (oldest, after) = try_pop_refines ord_bits (c ∷ q) r in
          record {
            same_oms = x.same_oms;
            same_seed = x.same_seed;
            queue = q;
            holds = after;
            history = rw oldest (append_assoc taken (c ∷ []) q ∙ h);
          }

  pub reported-Fed :
      {r : Ring (ExecEvent W)} (e : ExecEvent W)
      → Reported e
      → Fed Reported r
      → Fed Reported (try_push exec_bits r e).1
  unfolding Queue.push
  reported-Fed {r} e ok f = elim (Bool-cases (ltb (length f.waiting) (2 ^ exec_bits))) [
    | inl room ↦ record {
      waiting = f.waiting ++ e ∷ [];
      holds = (rw room at (try_push_refines exec_bits f.holds e)).1;
      all_reported = All-append Reported f.waiting (e ∷ []) f.all_reported (ok, tt);
    }
    | inr full ↦ record {
      waiting = f.waiting;
      holds = (rw full at (try_push_refines exec_bits f.holds e)).1;
      all_reported = f.all_reported;
    }
  ]

  pub moved :
      {taken : List (OrderCmd W)} {m : MarketMaker W} {v : View W} (md : Ring (MdEvent W))
      (exec : Ring (ExecEvent W)) (log : Ring (LogRecord W)) (snaps : Ring (BookSnapshot W))
      (trades : Ring (ExecEvent W)) (metrics : Metrics)
      → Views taken m v
      → Views taken
          (record m {
            md = md;
            exec = exec;
            log = log;
            snaps = snaps;
            trades = trades;
            metrics = metrics;
          })
          v
  moved md exec log snaps trades metrics x = record {
    same_oms = x.same_oms;
    same_seed = x.same_seed;
    queue = x.queue;
    holds = x.holds;
    history = x.history;
  }

  pub relabel :
      {old new : List (OrderCmd W)} {m : MarketMaker W} {v : View W}
      → old ≡ new
      → Views old m v
      → Views new m v
  relabel {m = m} {v = v} e x = subst (λ l. Views l m v) e x
