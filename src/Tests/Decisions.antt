-- ===== src/Tests/Decisions.antt =====
-- The decision's theorems on a wide and on a narrow book.
use mm_engine.Base.{some, [], ◌∷◌, ◌≡◌, refl, replicate, arith, get_elem?}
use mm_engine.Base.Int.{ℤ, pos, ◌+ℤ◌, ◌-ℤ◌, ◌*ℤ◌}
use mm_engine.Double.Fixed.{thousandths}
use mm_engine.Book.{OrderBook, best_bid, best_ask, spread}
use mm_engine.Events.{buy, sell}
use mm_engine.Oms.{QuoteState, Row, free_quote}
use mm_engine.Ring.Refine.{Represents, empty-Represents}
use mm_engine.Strategy.{MarketMaker, ord_bits}
use mm_engine.Strategy.Loop.{market_maker, decide}
use mm_engine.Strategy.Decide.{Decided, order_at, placed, decide_wide}
use mm_engine.Tests.Strategies.{waiting_quote}
use mm_engine.Tests.Data.{settings, quote_book, a_command, maker}

nothing_sent : Represents ord_bits maker.out []
unfolding market_maker
nothing_sent = empty-Represents ord_bits a_command (omega arith)

free_row_there : get_elem? maker.oms 0 ≡ some (record { bid = free_quote; ask = free_quote })
unfolding market_maker
free_row_there = refl

-- A bid at 101 and an ask at 109.
decide_wide_example :
    Decided settings 0 []
      (order_at settings 0 buy (pos 101000) 7000 (pos 100) (pos 170)
        ∷ order_at settings 0 sell (pos 109000) 7001 (pos 100) (pos 180)
        ∷ [])
      (record {
        bid = placed settings free_quote (pos 101000) 7000;
        ask = placed settings free_quote (pos 109000) 7001;
      })
      (decide settings maker 0 quote_book (pos 100) (pos 170) (pos 180))
unfolding best_bid best_ask spread ◌*ℤ◌ ◌-ℤ◌ ◌+ℤ◌ market_maker
decide_wide_example =
    decide_wide settings maker [] 0 quote_book (pos 100) (pos 170) (pos 180) refl free_row_there
      nothing_sent (omega arith) refl refl

-- A book whose sides are one tick apart.
abbrev narrow_book : OrderBook ℤ
narrow_book = record quote_book { ask_px = pos 101000 ∷ [] }

abbrev live_row : Row ℤ
live_row = record { bid = record waiting_quote { state = QuoteState.live }; ask = free_quote }

abbrev live_maker : MarketMaker ℤ
live_maker = record maker { oms = live_row ∷ replicate 7 live_row }
