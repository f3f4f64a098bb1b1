-- ===== src/Tests/Fixes.antt =====
-- The theorems on messages: two symbols, a snapshot of four entries, a report and two commands.
use mm_engine.Base.{
  ℕ, All, ◌≤◌, ◌≡◌, ◌≢◌, refl, true, none, some, List, [], ◌∷◌, arith, get_elem?, replicate,
}
use mm_engine.Base.Int.{ℤ, pos}
use mm_engine.Double.Fixed.{thousandths}
use mm_engine.Events.{MdEvent, OrderCmd, OrdCmdType, sell, max_symbols}
use mm_engine.Oms.{QuoteState, Row, OrderManager, free_quote, on_exec}
use mm_engine.Ring.Queue
use mm_engine.Ring.{Ring, empty, try_push}
use mm_engine.Ring.Refine.{Represents, empty-Represents, try_push_refines}
use mm_engine.Strategy.{ord_bits}
use mm_engine.Fix.{FixApp, fix_app, symbol_id, scan, no_symbol}
use mm_engine.Base.{same_text}
use mm_engine.Fix.Inbound.{
  EntryType, Entry, SnapshotMsg, ExecMsg, ExecType, strtoull, add_entry, add_entries,
  parse_snapshot, exec_event,
}
use mm_engine.Fix.Outbound.{decimal, send_all}
use mm_engine.Fix.Decimal.{strtoull-decimal}
use mm_engine.Fix.Symbols.{symbol_id-first}
use mm_engine.Fix.Arrays.{Holds}
use mm_engine.Fix.Levels.{numbers, is_bid, is_offer, price, quantity, parse_snapshot-levels}
use mm_engine.Fix.Sender.{CmdListed, messages, send_all-messages}
use mm_engine.Fix.Reports.{unknown_symbol-on_exec}
use mm_engine.Tests.Data.{settings, ypf, no_metrics, quote_event, a_report, a_command}

abbrev app : FixApp ℤ
app = fix_app settings (empty 14 quote_event) (empty 12 a_report) no_metrics

strtoull-decimal_example : strtoull (decimal 7000) ≡ 7000
strtoull-decimal_example = strtoull-decimal 7000 (omega arith)

symbol_id-first_example :
    (symbol_id app ypf ≤ 1) × (get_elem? settings.symbols (symbol_id app ypf) ≡ some ypf)
symbol_id-first_example =
    symbol_id-first settings (empty 14 quote_event) (empty 12 a_report) no_metrics ypf 1
      (omega arith) refl

abbrev entry : EntryType → ℕ → ℕ → Entry ℤ
entry t p q = record { type = some t; px = some (pos p); size = some (pos q) }

abbrev groups : List (Entry ℤ)
groups =
    entry EntryType.bid 100000 5000
    ∷ entry EntryType.offer 110000 4000
    ∷ entry EntryType.bid 99000 7000
    ∷ entry EntryType.trade 105000 1000
    ∷ []

abbrev snapshot_msg : SnapshotMsg ℤ
snapshot_msg = record { symbol = some ypf; count = some (pos 4); entries = groups }

abbrev parsed : MdEvent ℤ
parsed = record {
  t_recv_ns = pos 42;
  symbol_id = 1;
  n_bids = 2;
  n_asks = 1;
  bid_px = pos 100000 ∷ pos 99000 ∷ replicate 3 (pos 0);
  bid_qty = pos 5000 ∷ pos 7000 ∷ replicate 3 (pos 0);
  ask_px = pos 110000 ∷ replicate 4 (pos 0);
  ask_qty = pos 4000 ∷ replicate 4 (pos 0);
  last_px = pos 105000;
  seq = 0;
}

parse : parse_snapshot app (pos 42) snapshot_msg ≡ some parsed
unfolding parse_snapshot add_entries add_entry fix_app symbol_id scan same_text
parse = refl

parse_snapshot-levels_example :
    (parsed.symbol_id ≡ symbol_id app ypf)
    × (parsed.symbol_id ≢ no_symbol)
    × (Holds parsed.n_bids parsed.bid_px (numbers is_bid price groups))
    × (Holds parsed.n_bids parsed.bid_qty (numbers is_bid quantity groups))
    × (Holds parsed.n_asks parsed.ask_px (numbers is_offer price groups))
    × (Holds parsed.n_asks parsed.ask_qty (numbers is_offer quantity groups))
parse_snapshot-levels_example =
    parse_snapshot-levels app (pos 42) snapshot_msg ypf (pos 4) parsed refl refl parse

-- The reader has logged on; two commands wait.
abbrev online : FixApp ℤ
online = record app { logged_on = true }

abbrev a_cancel : OrderCmd ℤ
a_cancel = record a_command {
  type = OrdCmdType.cancel;
  side = sell;
  cl_ord_id = 7001;
  orig_cl_ord_id = 6000;
}

abbrev out : Ring (OrderCmd ℤ)
out = (try_push ord_bits (try_push ord_bits (empty 12 a_command) a_command).1 a_cancel).1

two_commands : Represents ord_bits out (a_command ∷ a_cancel ∷ [])
unfolding Queue.push
two_commands =
    (try_push_refines ord_bits
      (try_push_refines ord_bits (empty-Represents ord_bits a_command (omega arith)) a_command).1
      a_cancel).1

both_listed : All (CmdListed settings online.symbols) (a_command ∷ a_cancel ∷ [])
unfolding fix_app
both_listed = (omega arith, (omega arith, tt))

send_all-messages_example :
    (out' : Ring (OrderCmd ℤ)) × (app' : FixApp ℤ) × (send_all settings
        (pos 300 ∷ pos 400 ∷ [])
        out
        online
      ≡ some (messages settings true online.symbols (a_command ∷ a_cancel ∷ []), out', app'))
    × Represents ord_bits out' []
send_all-messages_example =
    send_all-messages settings (pos 300 ∷ pos 400 ∷ []) out online (a_command ∷ a_cancel ∷ [])
      two_commands both_listed (omega arith)

abbrev waiting_row : Row ℤ
waiting_row = record {
  bid = record {
    state = QuoteState.pending_new;
    cl_ord_id = 7000;
    price = pos 101000;
    qty = pos 10000;
    exch_order_id = [];
  };
  ask = free_quote;
}

abbrev quotes : OrderManager ℤ
quotes = replicate max_symbols waiting_row

-- An acknowledgement of order 7000 on the symbol `s`, named "X1" by the exchange.
abbrev ack : List ℕ → ExecMsg ℤ
ack s = record {
  cl_ord_id = some (decimal 7000);
  exec_type = some ExecType.new;
  is_partial = none;
  is_buy = some true;
  symbol = some s;
  last_px = none;
  last_qty = none;
  leaves_qty = none;
  order_id = some (88 ∷ 49 ∷ []);
}

not_listed : symbol_id app [] ≡ no_symbol
unfolding fix_app symbol_id scan same_text
not_listed = refl

unknown_symbol-on_exec_example : on_exec quotes (exec_event app (pos 500) (ack [])) ≡ none
unknown_symbol-on_exec_example =
    unknown_symbol-on_exec app (pos 500) (ack []) [] quotes refl not_listed refl
