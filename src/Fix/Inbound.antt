-- ===== src/Fix/Inbound.antt =====
-- src/fix/fix_app.hpp: the two handlers of QuickFIX's reader thread.
use mm_engine.Base.{
  is_blank, digits_value, ℕ, zero, suc, ◌+◌, ◌-◌, ◌^◌, ◌%◌, Bool, true, Option, none, some, List,
  [], ◌∷◌, ◌++◌, ◌==◌, ◌>>=◌, ltb, if◌then◌else◌, u64, u32, set, take, replicate,
}
use mm_engine.Base.Int.{ℤ, pos, negsuc}
use mm_engine.Double.{Double}
use mm_engine.Events.{MdEvent, OrdSide, unset, buy, sell, ExecEvent, ExecKind, max_depth}
use mm_engine.Metrics.{track_max}
use mm_engine.Ring.{try_push, size_approx}
use mm_engine.Strategy.{md_bits, exec_bits}
use mm_engine.Fix.{FixApp, no_symbol, symbol_id}

-- The entry types and report types that the code names; `other` is any other character.
pub data EntryType : Type 0 where
  bid offer trade other : EntryType

pub data ExecType : Type 0 where
  new canceled trade rejected replaced other : ExecType

pub record Entry (W : Type 0) : Type 0 where
  pub type : Option EntryType
  pub px : Option W
  pub size : Option W

-- A message's `NoMDEntries`, and the groups that follow it.
pub record SnapshotMsg (W : Type 0) : Type 0 where
  pub symbol : Option (List ℕ)
  pub count : Option ℤ
  pub entries : List (Entry W)

pub record ExecMsg (W : Type 0) : Type 0 where
  pub cl_ord_id : Option (List ℕ)
  pub exec_type : Option ExecType
  pub is_partial : Option Bool
  pub is_buy : Option Bool
  pub symbol : Option (List ℕ)
  pub last_px : Option W
  pub last_qty : Option W
  pub leaves_qty : Option W
  pub order_id : Option (List ℕ)

-- `strtoull` in base ten: blanks, a sign, digits; a value too large is `ULLONG_MAX`.
abbrev pub fits : ℕ → ℕ
fits v = if ltb v (2 ^ 64) then v else 2 ^ 64 - 1

abbrev pub negated : ℕ → ℕ
negated v = if ltb v (2 ^ 64) then (2 ^ 64 - v) % 2 ^ 64 else 2 ^ 64 - 1

unfoldable pub signed : List ℕ → ℕ
signed [] = 0
signed (c ∷ cs) =
    if c == 45
    then negated (digits_value cs 0)
    else (if c == 43 then fits (digits_value cs 0) else fits (digits_value (c ∷ cs) 0))

unfoldable pub strtoull : List ℕ → ℕ
strtoull [] = 0
strtoull (c ∷ cs) = if is_blank c then strtoull cs else signed (c ∷ cs)

-- `c_str()`, which ends at the first zero byte.
unfoldable pub c_str : List ℕ → List ℕ
c_str [] = []
c_str (c ∷ cs) = if c == 0 then [] else c ∷ c_str cs

-- `strncpy` of 23 bytes into 24 zeroed ones.
unfoldable pub copy_order_id : List ℕ → List ℕ
copy_order_id s = take 24 (take 23 (c_str s) ++ replicate 24 0)

abbrev pub or_else {ℓ} : {A : Type ℓ} → Option A → A → A
or_else none a = a
or_else (some b) a = b

-- A report with no `ClOrdID` keeps the identifier 0.
abbrev pub id_of : Option (List ℕ) → ℕ
id_of none = 0
id_of (some s) = strtoull s

abbrev pub exec_kind : ExecType → ExecKind
exec_kind ExecType.new = ExecKind.new
exec_kind ExecType.canceled = ExecKind.canceled
exec_kind ExecType.trade = ExecKind.filled
exec_kind ExecType.rejected = ExecKind.rejected
exec_kind ExecType.replaced = ExecKind.replaced
exec_kind ExecType.other = ExecKind.other

-- A report with no `ExecType` keeps the value 0, which is `New`.
abbrev pub kind_of : Option ExecType → ExecKind
kind_of none = ExecKind.new
kind_of (some t) = exec_kind t

-- A fill that leaves the order partially filled.
abbrev pub refine_kind : ExecKind → Option Bool → ExecKind
refine_kind ExecKind.filled (some true) = ExecKind.part_fill
refine_kind k _ = k

abbrev pub side_of : Option Bool → OrdSide
side_of none = unset
side_of (some b) = if b then buy else sell

abbrev pub entry_count : ℤ → ℕ
entry_count (pos n) = n
entry_count (negsuc n) = 0

-- `if (ev.symbol_id == UINT32_MAX) return`
abbrev pub known : ℕ → Option ℕ
known id = if id == no_symbol then none else some id

module _ {W : Type 0} where
  abbrev pub symbol_of : FixApp W → Option (List ℕ) → ℕ
  symbol_of app none = 0
  symbol_of app (some s) = symbol_id app s

module _ {W : Type 0} ⦃d : Double W⦄ where
  open d use {nought}

  abbrev pub blank_event : (t0 : ℤ) → (sym seq : ℕ) → MdEvent W
  blank_event t0 sym seq = record {
    t_recv_ns = t0;
    symbol_id = sym;
    n_bids = 0;
    n_asks = 0;
    bid_px = replicate max_depth nought;
    bid_qty = replicate max_depth nought;
    ask_px = replicate max_depth nought;
    ask_qty = replicate max_depth nought;
    last_px = nought;
    seq = seq;
  }

  -- The chain of tests on one entry; a level past the fifth is passed over.
  unfoldable pub add_entry : EntryType → W → W → MdEvent W → MdEvent W
  add_entry EntryType.bid p q ev =
      if ltb ev.n_bids max_depth
      then record ev {
        bid_px = set ev.bid_px ev.n_bids p;
        bid_qty = set ev.bid_qty ev.n_bids q;
        n_bids = ev.n_bids + 1;
      }
      else ev
  add_entry EntryType.offer p q ev =
      if ltb ev.n_asks max_depth
      then record ev {
        ask_px = set ev.ask_px ev.n_asks p;
        ask_qty = set ev.ask_qty ev.n_asks q;
        n_asks = ev.n_asks + 1;
      }
      else ev
  add_entry EntryType.trade p q ev = record ev { last_px = p }
  add_entry EntryType.other p q ev = ev

  -- The loop for `count` entries; `none` where `getGroup` or `get` throws.
  unfoldable pub add_entries : (count : ℕ) → List (Entry W) → MdEvent W → Option (MdEvent W)
  add_entries zero entries ev = some ev
  add_entries (suc count) [] ev = none
  add_entries (suc count) (g ∷ entries) ev = do
    t ← g.type
    add_entries count entries (add_entry t (or_else g.px nought) (or_else g.size nought) ev)

  -- The event of a snapshot; `none` where the handler returns early or throws.
  unfoldable pub parse_snapshot : FixApp W → ℤ → SnapshotMsg W → Option (MdEvent W)
  parse_snapshot app t0 msg = do
    s ← msg.symbol
    id ← known (symbol_id app s)
    n ← msg.count
    add_entries (entry_count n) msg.entries (blank_event t0 id app.md_seq)

  -- The push of a snapshot's event, and its metrics.
  unfoldable pub deliver : FixApp W → MdEvent W → FixApp W
  deliver app ev =
      let (pushed, ring) = try_push md_bits app.md ev in
      record app {
        md = ring;
        metrics = record app.metrics {
          md_msgs_total = u64 (app.metrics.md_msgs_total + 1);
          md_dropped_total =
              if pushed
              then app.metrics.md_dropped_total
              else u64 (app.metrics.md_dropped_total + 1);
          md_queue_max = track_max app.metrics.md_queue_max (size_approx ring);
        };
      }

  abbrev pub deliver_if : FixApp W → Option (MdEvent W) → FixApp W
  deliver_if app none = app
  deliver_if app (some ev) = deliver app ev

  -- `onMessage` on a snapshot, under the `catch` of `fromApp`.
  unfoldable pub on_snapshot : FixApp W → ℤ → SnapshotMsg W → FixApp W
  on_snapshot app t0 msg =
      let app' = record app { md_seq = u32 (app.md_seq + 1) } in
      deliver_if app' (parse_snapshot app' t0 msg)

  unfoldable pub exec_event : FixApp W → ℤ → ExecMsg W → ExecEvent W
  exec_event app now msg = record {
    t_recv_ns = now;
    cl_ord_id = id_of msg.cl_ord_id;
    kind = refine_kind (kind_of msg.exec_type) msg.is_partial;
    side = side_of msg.is_buy;
    symbol_id = symbol_of app msg.symbol;
    last_px = or_else msg.last_px nought;
    last_qty = or_else msg.last_qty nought;
    leaves_qty = or_else msg.leaves_qty nought;
    order_id = copy_order_id (or_else msg.order_id []);
  }

  -- `onMessage` on an execution report; a report that finds the ring full is lost.
  unfoldable pub on_report : FixApp W → ℤ → ExecMsg W → FixApp W
  on_report app now msg = record app {
    exec = (try_push exec_bits app.exec (exec_event app now msg)).1;
    metrics = record app.metrics { execs_total = u64 (app.metrics.execs_total + 1) };
  }
