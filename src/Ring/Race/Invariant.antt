-- ===== src/Ring/Race/Invariant.antt =====
-- What holds between any two actions of the two threads.
use mathlib.Core.List.{append_assoc}
use mm_engine.Base.{ℕ, ◌+◌, ◌≤◌, ◌≡◌, refl, List, [], ◌∷◌, ◌++◌, arith, length}
use mm_engine.Ring.Refine.{Represents}
use mm_engine.Ring.Race.{
  Popper, push_action, pop_action, pushed, System, produce, consume, Step, producer, consumer,
  Reach, here, next, start,
}
use mm_engine.Ring.Race.Places.{PushOk, PopOk}
use mm_engine.Ring.Race.Producer.{Pushes, push_action-Pushes}
use mm_engine.Ring.Race.Consumer.{Pops, pop_action-Pops}
use mm_engine.Ring.Refine.{empty-Represents}
use mm_engine.Ring.{empty}

module _ {A : Type 0} (k : ℕ) where
  pub record Inv (s : System A) : Type 0 where
    pub queue : List A
    pub holds : Represents k s.ring queue
    pub push_ok : PushOk k s.ring.buf (holds.popped + length queue) holds.seen_popped s.pusher
    pub pop_ok : PopOk k queue holds.popped holds.seen_pushed s.popper
    pub history : s.received ++ queue ≡ s.sent

  -- The producer's action leaves what the consumer knows true.
  PopOk-grown :
      (q : List A) (xs : List A) (t seen : ℕ) (c : Popper A)
      → PopOk k q t seen c
      → seen ≤ t + length q
      → PopOk k (q ++ xs) t seen c
  PopOk-grown q xs t seen Popper.idle h le = tt
  PopOk-grown q xs t seen Popper.reload h le = tt
  PopOk-grown q xs t seen Popper.read h le = h
  PopOk-grown [] xs t seen (Popper.release out) h le = absurd (omega arith)
  PopOk-grown (x ∷ q) xs t seen (Popper.release out) h le = h

  produce-Inv : {s : System A} (item : A) → Inv s → Inv (produce k s item)
  unfolding produce
  produce-Inv {s} item inv = record {
    queue = m.new;
    holds = m.after;
    push_ok = m.ok;
    pop_ok =
        rw (m.same_popped, m.same_seen, m.grown)
          (PopOk-grown inv.queue (pushed s.pusher) _ _ s.popper inv.pop_ok inv.holds.behind);
    history = rw (m.grown, ← append_assoc, inv.history);
  }
    where
      m :
          Pushes k s.ring inv.queue inv.holds s.pusher
            (push_action k s.ring s.pusher item).0
            (push_action k s.ring s.pusher item).1
      m = push_action-Pushes k inv.holds s.pusher item inv.push_ok

  consume-Inv : {s : System A} → Inv s → Inv (consume k s)
  unfolding consume
  consume-Inv {s} inv = record {
    queue = m.rest;
    holds = m.after;
    push_ok = rw (m.same_pushed, m.same_seen, m.same_buf) inv.push_ok;
    pop_ok = m.ok;
    history = rw append_assoc (rw (← m.shrunk) inv.history);
  }
    where
      m :
          Pops k s.ring inv.queue inv.holds s.popper
            (pop_action k s.ring s.popper).0
            (pop_action k s.ring s.popper).1
      m = pop_action-Pops k inv.queue inv.holds s.popper inv.pop_ok

  pub start-Inv : (a : A) → k ≤ 62 → Inv (start (empty k a))
  start-Inv a b = record {
    queue = [];
    holds = empty-Represents k a b;
    push_ok = tt;
    pop_ok = tt;
    history = refl;
  }

  Step-Inv : {s t : System A} → Step k s t → Inv s → Inv t
  Step-Inv (producer item) inv = produce-Inv item inv
  Step-Inv consumer inv = consume-Inv inv

  pub Reach-Inv : {s t : System A} → Inv s → Reach k s t → Inv t
  Reach-Inv inv here = inv
  Reach-Inv inv (next path step) = Step-Inv step (Reach-Inv inv path)
