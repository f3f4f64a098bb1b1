-- ===== src/Logger/Writer.antt =====
-- src/common/async_logger.hpp: what the writer puts in the file.
use mathlib.Core.List.{append_assoc, append-nil}
use mm_engine.Base.{
  ℕ, zero, suc, ◌+◌, ◌<◌, ◌≡◌, refl, sym, ap, ◌∙◌, Bool, true, false, Option, none, some, List, [],
  ◌∷◌, ◌++◌, arith, length,
}
use mm_engine.Events.{LogRecord}
use mm_engine.Ring.Queue
use mm_engine.Ring.{try_pop}
use mm_engine.Ring.Refine.{Represents, try_pop_refines, size_approx_lem}
use mm_engine.Strategy.{log_bits}
use mm_engine.Logger.{AsyncLogger, write, log_line, take_record, drain_records, goes_on, run_logger}

pub write_twice :
    (file : Option (List ℕ)) (xs ys : List ℕ) → write (write file xs) ys ≡ write file (xs ++ ys)
write_twice none xs ys = refl
write_twice (some bytes) xs ys = ap some (append_assoc bytes xs ys)

write_nothing : (file : Option (List ℕ)) → write file [] ≡ file
write_nothing none = refl
write_nothing (some bytes) = ap some (append-nil bytes)

module _ {W : Type 0} (fixed : ℕ → W → List ℕ) where
  -- The lines of records.
  unfoldable pub lines : List (LogRecord W) → List ℕ
  lines [] = []
  lines (r ∷ rs) = log_line fixed r ++ lines rs

  pub lines-append : (rs ss : List (LogRecord W)) → lines (rs ++ ss) ≡ lines rs ++ lines ss
  unfolding lines
  lines-append [] ss = refl
  lines-append (r ∷ rs) ss =
      ap (λ t. log_line fixed r ++ t) (lines-append rs ss)
      ∙ sym (append_assoc (log_line fixed r) (lines rs) (lines ss))

  -- A turn of the inner loop, on a ring that stands for a queue.
  pub take_record-nil :
      (l : AsyncLogger W)
      → Represents log_bits l.ring []
      → (take_record fixed l ≡ (false, record l { ring = (try_pop log_bits l.ring).1 }))
        × Represents log_bits (try_pop log_bits l.ring).1 []
  unfolding take_record Queue.pop
  take_record-nil l r =
      let (nothing, after) = try_pop_refines log_bits [] r in (rw nothing refl, after)

  pub take_record-cons :
      (l : AsyncLogger W) (e : LogRecord W) (q : List (LogRecord W))
      → Represents log_bits l.ring (e ∷ q)
      → (take_record fixed l ≡ (
        true,
        record { ring = (try_pop log_bits l.ring).1; file = write l.file (log_line fixed e) },
      ))
        × Represents log_bits (try_pop log_bits l.ring).1 q
  unfolding take_record Queue.pop
  take_record-cons l e q r =
      let (oldest, after) = try_pop_refines log_bits (e ∷ q) r in (rw oldest refl, after)

  -- The inner loop writes the records of the queue and empties the ring.
  record Drained (q : List (LogRecord W)) (l : AsyncLogger W) (drained : ℕ)
      (out : ℕ × AsyncLogger W) : Type 0 where
    all : out.0 ≡ drained + length q
    written : out.1.file ≡ write l.file (lines q)
    emptied : Represents log_bits out.1.ring []

  drain_records-Drained :
      (fuel drained : ℕ) (l : AsyncLogger W) (q : List (LogRecord W))
      → Represents log_bits l.ring q
      → length q < fuel
      → Drained q l drained (drain_records fixed fuel drained l)
  unfolding drain_records lines
  drain_records-Drained zero drained l q r h = absurd (omega arith)
  drain_records-Drained (suc fuel) drained l [] r h =
      let (nothing, after) = take_record-nil l r in
      rw nothing
        (record { all = omega arith; written = sym (write_nothing l.file); emptied = after })
  drain_records-Drained (suc fuel) drained l (e ∷ q) r h =
      let (oldest, after) = take_record-cons l e q r in
      let rest =
        drain_records-Drained fuel (drained + 1)
          (record { ring = (try_pop log_bits l.ring).1; file = write l.file (log_line fixed e) }) q
          after (omega arith) in
      rw oldest (record {
        all = omega (arith, rest.all);
        written = rest.written ∙ write_twice l.file (log_line fixed e) (lines q);
        emptied = rest.emptied;
      })

  -- The test at the head of the outer loop, on an empty ring.
  goes_on-empty :
      (running : Bool) (l : AsyncLogger W)
      → Represents log_bits l.ring []
      → goes_on running l ≡ running
  goes_on-empty true l r = refl
  goes_on-empty false l r = rw ((size_approx_lem log_bits r).0) refl

  goes_on-full :
      (running : Bool) (l : AsyncLogger W) (e : LogRecord W) (q : List (LogRecord W))
      → Represents log_bits l.ring (e ∷ q)
      → goes_on running l ≡ true
  goes_on-full true l e q r = refl
  goes_on-full false l e q r = rw ((size_approx_lem log_bits r).0) (ground arith)

  -- What the outer loop leaves: every record written, and the ring empty.
  pub record WroteAll (q : List (LogRecord W)) (l : AsyncLogger W) (out : Bool × AsyncLogger W)
      : Type 0 where
    pub ended : out.0 ≡ true
    pub written : out.1.file ≡ write l.file (lines q)
    pub emptied : Represents log_bits out.1.ring []

  -- On an empty ring the loop ends when it reads that the engine has stopped.
  run_logger-empty :
      (fuel : ℕ) (readings later : List Bool) (l : AsyncLogger W)
      → 0 < fuel
      → Represents log_bits l.ring []
      → WroteAll [] l (run_logger fixed fuel (readings ++ false ∷ later) l)
  unfolding run_logger lines
  run_logger-empty fuel [] later l h r =
      rw (goes_on-empty false l r)
        (record { ended = refl; written = sym (write_nothing l.file); emptied = r })
  run_logger-empty fuel (false ∷ readings) later l h r =
      rw (goes_on-empty false l r)
        (record { ended = refl; written = sym (write_nothing l.file); emptied = r })
  run_logger-empty fuel (true ∷ readings) later l h r =
      let one = drain_records-Drained fuel 0 l [] r h in
      let rest =
        run_logger-empty fuel readings later (drain_records fixed fuel 0 l).1 h one.emptied in
      record {
        ended = rest.ended;
        written = rest.written ∙ (ap (λ f. write f []) one.written ∙ write_twice l.file [] []);
        emptied = rest.emptied;
      }

  run_logger-full :
      (fuel : ℕ) (running : Bool) (readings later : List Bool) (l : AsyncLogger W) (e : LogRecord W)
      (q : List (LogRecord W))
      → length (e ∷ q) < fuel
      → Represents log_bits l.ring (e ∷ q)
      → WroteAll (e ∷ q) l (run_logger fixed fuel (running ∷ (readings ++ false ∷ later)) l)
  unfolding run_logger lines
  run_logger-full fuel running readings later l e q h r =
      let one = drain_records-Drained fuel 0 l (e ∷ q) r h in
      let rest =
        run_logger-empty fuel readings later (drain_records fixed fuel 0 l).1 (omega arith)
          one.emptied in
      rw (goes_on-full running l e q r) (record {
        ended = rest.ended;
        written = rest.written ∙ (write_nothing _ ∙ one.written);
        emptied = rest.emptied;
      })

  -- Once the engine has stopped and no one logs any more, the writer ends at the second look at the
  -- flag at the latest, whatever it read before, with the line of every record in the file, in the
  -- order of the ring, and the ring empty, if there is fuel for one turn more than there are records.
  pub run_logger-WroteAll :
      (fuel : ℕ) (readings : List Bool) (l : AsyncLogger W) (q : List (LogRecord W))
      → Represents log_bits l.ring q
      → length q < fuel
      → WroteAll q l (run_logger fixed fuel (readings ++ false ∷ false ∷ []) l)
  run_logger-WroteAll fuel readings l [] r h = run_logger-empty fuel readings (false ∷ []) l h r
  run_logger-WroteAll fuel [] l (e ∷ q) r h = run_logger-full fuel false [] [] l e q h r
  run_logger-WroteAll fuel (running ∷ readings) l (e ∷ q) r h =
      run_logger-full fuel running readings (false ∷ []) l e q h r
