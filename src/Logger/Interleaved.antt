-- ===== src/Logger/Interleaved.antt =====
-- src/common/async_logger.hpp: records logged while the writer is at work, and what is in the file.
use mathlib.Core.List.{append_assoc, append-nil}
use mm_engine.Base.{
  ℕ, ◌≡◌, refl, sym, ap, ◌∙◌, Bool, true, false, some, List, [], ◌∷◌, ◌++◌, if◌then◌else◌, arith,
  length, ltb, ◌^◌,
}
use mm_engine.Events.{LogRecord}
use mm_engine.Ring.Queue
use mm_engine.Ring.{empty, try_push}
use mm_engine.Ring.Refine.{Represents, empty-Represents, try_push_refines, size_approx_lem}
use mm_engine.Strategy.{log_bits}
use mm_engine.Logger.{AsyncLogger, header, write, async_logger, log_line, take_record, goes_on}
use mm_engine.Logger.Writer.{lines, lines-append, take_record-nil, take_record-cons}

-- The producer's call of `log`, and a turn of the writer's inner loop.
pub data Act (W : Type 0) : Type 0 where
  log : LogRecord W → Act W
  take : Act W

-- The logger, and the records for which `log` returned true.
pub record Logged (W : Type 0) : Type 0 where
  pub logger : AsyncLogger W
  pub accepted : List (LogRecord W)

module _ {W : Type 0} where
  unfoldable pub push_record : Logged W → LogRecord W → Logged W
  push_record s r =
      let (ok, ring) = try_push log_bits s.logger.ring r in
      record {
        logger = record s.logger { ring = ring };
        accepted = if ok then s.accepted ++ r ∷ [] else s.accepted;
      }

module _ {W : Type 0} (fixed : ℕ → W → List ℕ) where
  unfoldable pub act_all : List (Act W) → Logged W → Logged W
  act_all [] s = s
  act_all (Act.log r ∷ acts) s = act_all acts (push_record s r)
  act_all (Act.take ∷ acts) s = act_all acts (record s { logger = (take_record fixed s.logger).1 })

  -- What is accepted is written or still in the ring.
  record Kept (s : Logged W) : Type 0 where
    written : List (LogRecord W)
    waiting : List (LogRecord W)
    all : s.accepted ≡ written ++ waiting
    in_ring : Represents log_bits s.logger.ring waiting
    in_file : s.logger.file ≡ some (header ++ lines fixed written)

  push_record-Kept : (s : Logged W) (r : LogRecord W) → Kept s → Kept (push_record s r)
  unfolding push_record Queue.push
  push_record-Kept s r k =
      let (answer, after) = try_push_refines log_bits k.in_ring r in
      go (ltb (length k.waiting) (2 ^ log_bits)) answer after
    where
      go :
          (b : Bool)
          → let out : Bool × List (LogRecord W) =
              if b then (true, k.waiting ++ r ∷ []) else (false, k.waiting) in
            ((try_push log_bits s.logger.ring r).0 ≡ out.0)
            → Represents log_bits (try_push log_bits s.logger.ring r).1 out.1
            → Kept (push_record s r)
      go true answer after = record {
        written = k.written;
        waiting = k.waiting ++ r ∷ [];
        all = rw answer (ap (λ rs. rs ++ r ∷ []) k.all ∙ append_assoc k.written k.waiting (r ∷ []));
        in_ring = after;
        in_file = k.in_file;
      }
      go false answer after = record {
        written = k.written;
        waiting = k.waiting;
        all = rw answer k.all;
        in_ring = after;
        in_file = k.in_file;
      }

  take_record-Kept :
      (s : Logged W) → Kept s → Kept (record s { logger = (take_record fixed s.logger).1 })
  unfolding lines
  take_record-Kept s k = go k.waiting k.all k.in_ring
    where
      go :
          (q : List (LogRecord W))
          → s.accepted ≡ k.written ++ q
          → Represents log_bits s.logger.ring q
          → Kept (record s { logger = (take_record fixed s.logger).1 })
      go [] e r =
          let (nothing, after) = take_record-nil fixed s.logger r in
          rw nothing (record {
            written = k.written;
            waiting = [];
            all = e;
            in_ring = after;
            in_file = k.in_file;
          })
      go (x ∷ q) e r =
          let (oldest, after) = take_record-cons fixed s.logger x q r in
          rw oldest (record {
            written = k.written ++ x ∷ [];
            waiting = q;
            all = e ∙ sym (append_assoc k.written (x ∷ []) q);
            in_ring = after;
            in_file =
                ap (λ f. write f (log_line fixed x)) k.in_file
                ∙ ap some (
                    append_assoc header (lines fixed k.written) (log_line fixed x)
                    ∙ ap (λ t. header ++ t)
                        (ap (λ t. lines fixed k.written ++ t) (sym (append-nil (log_line fixed x)))
                          ∙ sym (lines-append fixed k.written (x ∷ []))));
          })

  act_all-Kept : (acts : List (Act W)) (s : Logged W) → Kept s → Kept (act_all acts s)
  unfolding act_all
  act_all-Kept [] s k = k
  act_all-Kept (Act.log r ∷ acts) s k = act_all-Kept acts (push_record s r) (push_record-Kept s r k)
  act_all-Kept (Act.take ∷ acts) s k =
      act_all-Kept acts (record s { logger = (take_record fixed s.logger).1 })
        (take_record-Kept s k)

  -- The calls and turns from the constructor's file and ring on.
  abbrev pub logged : List (Act W) → LogRecord W → Logged W
  logged acts a =
      act_all acts (record { logger = async_logger true (empty log_bits a); accepted = [] })

  logged-Kept : (acts : List (Act W)) (a : LogRecord W) → Kept (logged acts a)
  unfolding async_logger lines
  logged-Kept acts a =
      act_all-Kept acts (record { logger = async_logger true (empty log_bits a); accepted = [] })
        (record {
          written = [];
          waiting = [];
          all = refl;
          in_ring = empty-Represents log_bits a (omega arith);
          in_file = ap some (sym (append-nil header));
        })

  -- However calls of `log` come between the turns of the writer, from a file and a ring that the
  -- constructor made: when the writer's loop ends, the file holds the heading and then the line of
  -- every record for which `log` returned true, once and in the order of the calls.
  pub logged-lines :
      (acts : List (Act W)) (a : LogRecord W)
      → goes_on false (logged acts a).logger ≡ false
      → (logged acts a).logger.file ≡ some (header ++ lines fixed (logged acts a).accepted)
  logged-lines acts a stops = go kept.waiting kept.all kept.in_ring
    where
      kept : Kept (logged acts a)
      kept = logged-Kept acts a

      go :
          (q : List (LogRecord W))
          → (logged acts a).accepted ≡ kept.written ++ q
          → Represents log_bits (logged acts a).logger.ring q
          → (logged acts a).logger.file ≡ some (header ++ lines fixed (logged acts a).accepted)
      go [] e r =
          kept.in_file
          ∙ ap (λ rs. some (header ++ lines fixed rs)) (sym (e ∙ append-nil kept.written))
      go (x ∷ q) e r = absurd (ground (arith, (size_approx_lem log_bits r).0, stops))
