-- ===== src/Logger.antt =====
-- src/common/async_logger.hpp: the file of the logger, `log_text` and the writer thread. `log` is
-- `log_record` of Strategy. What `fprintf` makes of a double is a parameter; flushing and sleeping are
-- left out.
pub mod Writer
pub mod Note
pub mod Interleaved
use mm_engine.Base.{
  ℕ, zero, suc, ◌+◌, Bool, true, false, Option, none, some, List, [], ◌∷◌, ◌++◌, ◌||◌, ltb,
  if◌then◌else◌, codes, take, replicate,
}
use mm_engine.Base.Int.{ℤ, pos, negsuc}
use mm_engine.Double.{Double}
use mm_engine.Events.{LogRecord, LogKind, OrdSide, unset, buy, sell}
use mm_engine.Ring.{Ring, try_pop, size_approx}
use mm_engine.Strategy.{MarketMaker, log_bits, log_record}
use mm_engine.Fix.Inbound.{c_str}
use mm_engine.Fix.Outbound.{decimal}

-- `file` is what the file holds, or `none` where `fopen` failed.
pub record AsyncLogger (W : Type 0) : Type 0 where
  pub ring : Ring (LogRecord W)
  pub file : Option (List ℕ)

abbrev pub header : List ℕ
header = codes "ts_ns,kind,symbol_id,side,px,qty,cl_ord_id,text" ++ 10 ∷ []

abbrev pub kind_text : LogKind → List ℕ
kind_text LogKind.md_tick = codes "MD"
kind_text LogKind.order_new = codes "NEW"
kind_text LogKind.order_cxl = codes "CXL"
kind_text LogKind.exec = codes "EXEC"
kind_text LogKind.info = codes "INFO"

-- `unsigned(r.side)`
abbrev pub side_code : OrdSide → ℕ
side_code unset = 0
side_code buy = 1
side_code sell = 2

-- `%lld`
abbrev pub signed_decimal : ℤ → List ℕ
signed_decimal (pos n) = decimal n
signed_decimal (negsuc n) = 45 ∷ decimal (suc n)

abbrev pub comma : List ℕ → List ℕ
comma rest = 44 ∷ rest

-- `fprintf` on the file, if there is one.
abbrev pub write : Option (List ℕ) → List ℕ → Option (List ℕ)
write none line = none
write (some bytes) line = some (bytes ++ line)

-- The bytes of `r.text` for a message: `strncpy` of 47 bytes into 48 zeroed ones.
unfoldable pub copy_text : List ℕ → List ℕ
copy_text msg = take 48 (take 47 (c_str msg) ++ replicate 48 0)

module _ {W : Type 0} where
  unfoldable pub async_logger : (opens : Bool) → Ring (LogRecord W) → AsyncLogger W
  async_logger opens ring = record { ring = ring; file = if opens then some header else none }

  -- `running || ring_.size_approx() > 0`
  abbrev pub goes_on : Bool → AsyncLogger W → Bool
  goes_on running l = running || ltb 0 (size_approx l.ring)

module _ {W : Type 0} ⦃d : Double W⦄ where
  abbrev pub text_record : LogKind → List ℕ → LogRecord W
  text_record kind msg = record {
    t_ns = pos 0;
    kind = kind;
    side = unset;
    symbol_id = 0;
    px = d.nought;
    qty = d.nought;
    cl_ord_id = 0;
    text = copy_text msg;
  }

  unfoldable pub log_text : MarketMaker W → LogKind → List ℕ → MarketMaker W
  log_text m kind msg = log_record m (text_record kind msg)

-- `fixed n x` is the text of `x` with `n` digits after the point.
module _ {W : Type 0} (fixed : ℕ → W → List ℕ) where
  unfoldable pub log_line : LogRecord W → List ℕ
  log_line r =
      signed_decimal r.t_ns
      ++ comma (
          kind_text r.kind
          ++ comma (
              decimal r.symbol_id
              ++ comma (
                  decimal (side_code r.side)
                  ++ comma (
                      fixed 6 r.px
                      ++ comma (
                          fixed 2 r.qty
                          ++ comma (decimal r.cl_ord_id ++ comma (c_str r.text ++ 10 ∷ [])))))))

  abbrev pub write_next : Option (LogRecord W) → AsyncLogger W → Bool × AsyncLogger W
  write_next none l = (false, l)
  write_next (some r) l = (true, record l { file = write l.file (log_line r) })

  -- One turn of `while (ring_.try_pop(r))`, and whether it popped a record.
  unfoldable pub take_record : AsyncLogger W → Bool × AsyncLogger W
  take_record l =
      let (out, ring) = try_pop log_bits l.ring in write_next out (record l { ring = ring })

  -- The inner loop for at most `fuel` turns; it gives the number of records, `drained`.
  unfoldable pub drain_records : (fuel drained : ℕ) → AsyncLogger W → ℕ × AsyncLogger W
  drain_records zero drained l = (drained, l)
  drain_records (suc fuel) drained l =
      let (popped, l') = take_record l in
      let rest = drain_records fuel (drained + 1) l' in if popped then rest else (drained, l')

  -- The outer loop, on what it reads from `running`, until that runs out; with the outcome whether
  -- it has ended.
  unfoldable pub run_logger :
      (fuel : ℕ) → (readings : List Bool) → AsyncLogger W → Bool × AsyncLogger W
  run_logger fuel [] l = (false, l)
  run_logger fuel (running ∷ readings) l =
      let rest = run_logger fuel readings (drain_records fuel 0 l).1 in
      if goes_on running l then rest else (true, l)
