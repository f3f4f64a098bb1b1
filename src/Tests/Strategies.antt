-- ===== src/Tests/Strategies.antt =====
-- The strategy's theorems on a thread that quotes once.
use mm_engine.Base.{
  ℕ, ◌+◌, ◌≤◌, ◌<◌, ◌^◌, some, List, [], ◌∷◌, ◌++◌, ◌≡◌, refl, replicate, arith, u64,
}
use mm_engine.Base.Int.{ℤ, pos}
use mm_engine.Double.Fixed.{thousandths}
use mm_engine.Events.{ExecEvent, OrderCmd, buy}
use mm_engine.Oms.{Quote, QuoteState, Row, free_quote}
use mm_engine.Ring.Queue
use mm_engine.Ring.{try_push, try_pop}
use mm_engine.Ring.Refine.{Represents, empty-Represents, try_push_refines}
use mm_engine.Strategy.{MarketMaker, ord_bits, exec_bits, md_bits}
use mm_engine.Strategy.Loop.{market_maker, round}
use mm_engine.Strategy.Ids.{Numbered}
use mm_engine.Strategy.Working.{orders, free_slot, NotFinal}
use mm_engine.Strategy.Stuck.{NamesOther, Holds}
use mm_engine.Strategy.View.{View}
use mm_engine.Strategy.Refine.{Views, Follows}
use mm_engine.Strategy.Rounds.{Fed}
use mm_engine.Strategy.Threads.{
  to_list, Run, start, rounds, reported, quoted, sender, AnyReport, Run-Follows,
  identifiers_in_order, at_most_one_order, in_flight_until_named,
}
use mm_engine.Strategy.Total.{Sized, round-total}
use mm_engine.Tests.Data.{settings, quote_event, a_report, a_command, maker, readings}

abbrev quoted_maker : MarketMaker ℤ
quoted_maker = record maker { md = (try_push md_bits maker.md quote_event).1 }

no_reports : Represents exec_bits quoted_maker.exec []
unfolding market_maker
no_reports = empty-Represents exec_bits a_report (omega arith)

one_quote : Represents md_bits quoted_maker.md (quote_event ∷ [])
unfolding market_maker Queue.push
one_quote =
    (try_push_refines md_bits (empty-Represents md_bits quote_event (omega arith)) quote_event).1

maker-Sized : Sized quoted_maker
unfolding market_maker
maker-Sized = record { quotes = refl; all_books = refl }

round-total_example :
    (m' : MarketMaker ℤ) × (round settings 1 quoted_maker readings ≡ some m')
    × Represents exec_bits m'.exec []
    × Represents md_bits m'.md []
    × Sized m'
unfolding Queue.pop
round-total_example =
    round-total settings 1 quoted_maker readings [] (quote_event ∷ []) no_reports one_quote tt
      (omega arith, tt) maker-Sized (omega arith)

-- The state after that round.
abbrev after_round : MarketMaker ℤ
after_round =
    (round-total settings 1 quoted_maker readings [] (quote_event ∷ []) no_reports one_quote tt
      (omega arith, tt) maker-Sized (omega arith)).0

the_round : round settings 1 quoted_maker readings ≡ some after_round
the_round =
    (round-total settings 1 quoted_maker readings [] (quote_event ∷ []) no_reports one_quote tt
      (omega arith, tt) maker-Sized (omega arith)).1

-- A snapshot comes in, the strategy takes it, and the sender pops what the strategy sent.
abbrev taken : List (OrderCmd ℤ)
taken = to_list (try_pop ord_bits after_round.out).0

abbrev after_sender : MarketMaker ℤ
after_sender = record after_round { out = (try_pop ord_bits after_round.out).1 }

nothing_sent : Represents ord_bits maker.out []
unfolding market_maker
nothing_sent = empty-Represents ord_bits a_command (omega arith)

fed : (Reported : ExecEvent ℤ → Type 0) → Fed Reported maker.exec
unfolding market_maker
fed Reported = record {
  waiting = [];
  holds = empty-Represents exec_bits a_report (omega arith);
  all_reported = tt;
}

one_run : (Reported : ExecEvent ℤ → Type 0) → Run settings Reported maker 1 taken after_sender
one_run Reported = sender (rounds 1 readings (quoted quote_event start) the_round)

small_seed : maker.cl_ord_seed < 2 ^ 64
unfolding market_maker
small_seed = omega arith

identifiers_in_order_example :
    (q : List (OrderCmd ℤ)) × (hi : ℕ) × (hi ≤ 2)
    × Represents ord_bits after_sender.out q
    × (after_sender.cl_ord_seed ≡ u64 (maker.cl_ord_seed + hi))
    × Numbered maker.cl_ord_seed 0 hi (taken ++ q)
identifiers_in_order_example =
    identifiers_in_order settings nothing_sent (fed AnyReport) small_seed (one_run AnyReport)

at_most_one_order_example :
    (q : List (OrderCmd ℤ)) × Represents ord_bits after_sender.out q
    × (orders 0 buy (taken ++ q) ≤ orders {W = ℤ} 0 buy [] + free_slot 0 buy maker.oms)
at_most_one_order_example =
    at_most_one_order settings 0 buy nothing_sent (fed (NotFinal 0 buy)) (one_run (NotFinal 0 buy))

-- The same thread with an order in flight.
abbrev pub waiting_quote : Quote ℤ
waiting_quote = record {
  state = QuoteState.pending_new;
  cl_ord_id = 6999;
  price = pos 102000;
  qty = pos 10000;
  exch_order_id = [];
}

abbrev busy_row : Row ℤ
busy_row = record { bid = waiting_quote; ask = free_quote }

abbrev busy_maker : MarketMaker ℤ
busy_maker = record maker { oms = busy_row ∷ replicate 7 busy_row }

abbrev busy_quoted : MarketMaker ℤ
busy_quoted = record busy_maker {
  exec = (try_push exec_bits busy_maker.exec a_report).1;
  md = (try_push md_bits busy_maker.md quote_event).1;
}

busy_reports : Represents exec_bits busy_quoted.exec (a_report ∷ [])
unfolding market_maker Queue.push
busy_reports =
    (try_push_refines exec_bits (empty-Represents exec_bits a_report (omega arith)) a_report).1

busy_quotes : Represents md_bits busy_quoted.md (quote_event ∷ [])
unfolding market_maker Queue.push
busy_quotes =
    (try_push_refines md_bits (empty-Represents md_bits quote_event (omega arith)) quote_event).1

busy-Sized : Sized busy_quoted
unfolding market_maker
busy-Sized = record { quotes = refl; all_books = refl }

abbrev busy_after : MarketMaker ℤ
busy_after =
    (round-total settings 2 busy_quoted readings (a_report ∷ []) (quote_event ∷ []) busy_reports
      busy_quotes (omega arith, tt) (omega arith, tt) busy-Sized (omega arith)).0

busy_round : round settings 2 busy_quoted readings ≡ some busy_after
busy_round =
    (round-total settings 2 busy_quoted readings (a_report ∷ []) (quote_event ∷ []) busy_reports
      busy_quotes (omega arith, tt) (omega arith, tt) busy-Sized (omega arith)).1

-- The report of order 7 is not the one awaited.
names_other : NamesOther 0 buy waiting_quote a_report
names_other e = λ same. absurd (omega (arith, same))

busy_run : Run settings (NamesOther 0 buy waiting_quote) busy_maker 1 [] busy_after
busy_run = rounds 2 readings (quoted quote_event (reported a_report names_other start)) busy_round

busy-Fed : Fed (NamesOther 0 buy waiting_quote) busy_maker.exec
unfolding market_maker
busy-Fed = record {
  waiting = [];
  holds = empty-Represents exec_bits a_report (omega arith);
  all_reported = tt;
}

busy_unsent : Represents ord_bits busy_maker.out []
unfolding market_maker
busy_unsent = empty-Represents ord_bits a_command (omega arith)

in_flight_until_named_example : Holds 0 buy waiting_quote busy_after.oms
in_flight_until_named_example =
    in_flight_until_named settings 0 buy waiting_quote busy_unsent busy-Fed busy_run refl
      (busy_row, refl, refl)

abbrev first_view : View ℤ
first_view = record { oms = maker.oms; sent = []; seed = maker.cl_ord_seed }

first_Views : Views [] maker first_view
first_Views = record {
  same_oms = refl;
  same_seed = refl;
  queue = [];
  holds = nothing_sent;
  history = refl;
}

Run-Follows_example :
    (Follows settings AnyReport taken 2 first_view after_sender) × Fed AnyReport after_sender.exec
Run-Follows_example = Run-Follows settings AnyReport (fed AnyReport) first_Views (one_run AnyReport)
