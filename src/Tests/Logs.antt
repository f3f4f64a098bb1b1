-- ===== src/Tests/Logs.antt =====
-- The theorems on the logger at a few records.
use mm_engine.Base.{ℕ, ◌≡◌, refl, true, false, some, List, [], ◌∷◌, ◌++◌, arith, codes}
use mm_engine.Base.Int.{ℤ, pos}
use mm_engine.Double.Fixed.{thousandths}
use mm_engine.Events.{LogKind, buy}
use mm_engine.Ring.{empty, try_push, try_pop, size_approx}
use mm_engine.Ring.Queue
use mm_engine.Ring.Refine.{Represents, empty-Represents, try_push_refines}
use mm_engine.Strategy.{log_bits}
use mm_engine.Fix.Inbound.{c_str}
use mm_engine.Fix.Outbound.{decimal, digits_of}
use mm_engine.Logger.{
  AsyncLogger, header, async_logger, log_line, run_logger, copy_text, goes_on, take_record,
}
use mm_engine.Logger.Writer.{WroteAll, lines, run_logger-WroteAll}
use mm_engine.Logger.Interleaved.{Act, logged, act_all, push_record, logged-lines}
use mm_engine.Tests.Data.{a_record}

-- Every price prints as "1.0".
abbrev one_text : ℕ → ℤ → List ℕ
one_text n x = codes "1.0"

-- One record in the ring.
abbrev a_logger : AsyncLogger ℤ
a_logger = record {
  ring = (try_push log_bits (empty log_bits a_record) a_record).1;
  file = some header;
}

one_record : Represents log_bits a_logger.ring (a_record ∷ [])
unfolding Queue.push
one_record =
    (try_push_refines log_bits (empty-Represents log_bits a_record (omega arith)) a_record).1

run_logger-WroteAll_example :
    WroteAll one_text
      (a_record ∷ [])
      a_logger
      (run_logger one_text 2 (true ∷ false ∷ false ∷ []) a_logger)
run_logger-WroteAll_example =
    run_logger-WroteAll one_text 2 (true ∷ []) a_logger (a_record ∷ []) one_record (omega arith)

abbrev acts : List (Act ℤ)
acts = Act.log a_record ∷ Act.take ∷ Act.log a_record ∷ Act.take ∷ []

-- Both records are out of the ring.
stopped : goes_on false (logged one_text acts a_record).logger ≡ false
unfolding act_all push_record async_logger empty try_push try_pop take_record size_approx
stopped = refl

logged-lines_example :
    (logged one_text acts a_record).logger.file
    ≡ some (header ++ lines one_text (logged one_text acts a_record).accepted)
logged-lines_example = logged-lines one_text acts a_record stopped

-- A line of the file.
a_line :
    log_line one_text (record {
      t_ns = pos 17;
      kind = LogKind.order_new;
      side = buy;
      symbol_id = 3;
      px = pos 1000;
      qty = pos 1000;
      cl_ord_id = 42;
      text = copy_text (codes "hi");
    })
    ≡ codes "17,NEW,3,1,1.0,1.0,42,hi" ++ 10 ∷ []
unfolding log_line copy_text c_str decimal digits_of
a_line = refl
