-- ===== src/Strategy/Decide.antt =====
-- What `MarketMaker::decide` in src/strategy/market_maker.hpp makes of the two quotes of a symbol.
mod Sides
use mathlib.Core.List.{append_assoc}
use mm_engine.Base.{
  ℕ, ◌+◌, ◌^◌, ◌≤◌, ◌≡◌, refl, true, false, Option, some, List, ◌++◌, subst, arith, get_elem?,
  length, length-append,
}
use mm_engine.Base.Int.{ℤ}
use mm_engine.Double.{Double}
use mm_engine.Config.{EngineConfig}
use mm_engine.Events.{OrderCmd, buy, sell}
use mm_engine.Book.{OrderBook, best_bid, best_ask, spread}
use mm_engine.Oms.{Row}
use mm_engine.Ring.Refine.{Represents}
use mm_engine.Strategy.{MarketMaker, ord_bits, requote_row, requote}
use mm_engine.Strategy.Loop.{decide, our_bid, our_ask, is_wide, would_cross}
pub use Sides.{order_at, cancel_of, placed, near, wanted_quote, wanted, pulled, pulls, id_after}
use Sides.{requote_row-Leaves, wanted-length}

module _ {W : Type 0} ⦃d : Double W⦄ (cfg : EngineConfig W) where
  -- What `decide` leaves: the row `new` in its place, and the commands `cs` at the end of the queue.
  pub record Decided (s : ℕ) (queue cs : List (OrderCmd W)) (new : Row W)
      (o : Option (MarketMaker W)) : Type 0 where
    pub after : MarketMaker W
    pub is : o ≡ some after
    pub quotes : get_elem? after.oms s ≡ some new
    pub sent : Represents ord_bits after.out (queue ++ cs)

  -- In a market at least as wide as the settings ask for, where prices one tick inside the best ones
  -- are no closer than half a tick, with orders enabled and room for two commands in the order ring:
  -- for each side with no quote a new order at its price one tick inside goes to the ring, with the
  -- quantity of the settings, and the quote waits for it under its identifier, price and quantity;
  -- for each live quote half a tick or more from its price a request to cancel its order goes to the
  -- ring and the quote waits for that; other quotes stay, and nothing else goes to the ring. The
  -- commands are the bid's and then the ask's, under the next identifiers.
  pub decide_wide :
      (m : MarketMaker W) (queue : List (OrderCmd W)) (s : ℕ) (ob : OrderBook W)
      (t_md t_buy t_sell : ℤ) {row : Row W}
      → cfg.dry_run ≡ false
      → get_elem? m.oms s ≡ some row
      → Represents ord_bits m.out queue
      → length queue + 2 ≤ 2 ^ ord_bits
      → d.le cfg.minimum_spread (d.sub (best_ask ob) (best_bid ob)) ≡ true
      → d.lt
          (d.sub (d.sub (best_ask ob) cfg.tick_size) (d.add (best_bid ob) cfg.tick_size))
          (d.mul cfg.tick_size d.half)
        ≡ false
      → let id = m.cl_ord_seed in
        let bid_px = d.add (best_bid ob) cfg.tick_size in
        let ask_px = d.sub (best_ask ob) cfg.tick_size in
        let bids = wanted cfg row.bid.state row.bid s buy bid_px id t_md t_buy in
        let id' = id_after cfg id bids in
        Decided s queue
          (bids ++ wanted cfg row.ask.state row.ask s sell ask_px id' t_md t_sell)
          (record {
            bid = wanted_quote cfg row.bid.state row.bid bid_px id;
            ask = wanted_quote cfg row.ask.state row.ask ask_px id';
          })
          (decide cfg m s ob t_md t_buy t_sell)
  unfolding decide requote spread best_ask best_bid
  decide_wide m queue s ob t_md t_buy t_sell {row} wet at r room wide apart =
      let bids = wanted cfg row.bid.state row.bid s buy (our_bid cfg ob) m.cl_ord_seed t_md t_buy in
      let m1 = requote_row cfg row.bid.state m row s buy (our_bid cfg ob) t_md t_buy in
      let one =
        requote_row-Leaves cfg wet s buy row.bid.state m queue row (our_bid cfg ob) t_md t_buy at r
          (omega (arith, room)) in
      let row1 : Row W = record row {
        bid = wanted_quote cfg row.bid.state row.bid (our_bid cfg ob) m.cl_ord_seed;
      } in
      let two =
        requote_row-Leaves cfg wet s sell row.ask.state m1 (queue ++ bids) row1 (our_ask cfg ob)
          t_md t_sell one.slot one.sent
          (omega (
            arith,
            room,
            length-append queue bids,
            wanted-length cfg row.bid.state row.bid s buy (our_bid cfg ob) m.cl_ord_seed t_md t_buy,
          )) in
      let wide' : is_wide cfg ob ≡ true = wide in
      let apart' : would_cross cfg ob ≡ false = apart in
      let decided : decide cfg m s ob t_md t_buy t_sell
          ≡ some (requote_row cfg row.ask.state m1 row1 s sell (our_ask cfg ob) t_md t_sell) =
        rw (wide', apart', at, one.slot) refl in
      subst
        (λ id.
          Decided s queue
            (bids ++ wanted cfg row.ask.state row.ask s sell (our_ask cfg ob) id t_md t_sell)
            (record {
              bid = wanted_quote cfg row.bid.state row.bid (our_bid cfg ob) m.cl_ord_seed;
              ask = wanted_quote cfg row.ask.state row.ask (our_ask cfg ob) id;
            })
            (decide cfg m s ob t_md t_buy t_sell))
        one.seed
        (record {
          after = requote_row cfg row.ask.state m1 row1 s sell (our_ask cfg ob) t_md t_sell;
          is = decided;
          quotes = two.slot;
          sent = rw (← append_assoc) two.sent;
        })
