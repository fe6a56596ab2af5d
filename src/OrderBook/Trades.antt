-- ===== src/OrderBook/Trades.antt =====
-- processOrder of include/OrderBook.hpp does to the two queues of quotes what price and time
-- priority ask for, and accounts for every share.
use exchange_server.Prelude.{ℕ, ◌≡◌, inl, inr, arith, Fresh-swap, ltb, Bool-cases}
use exchange_server.Common.{OrderSide, buy, sell}
use exchange_server.OrderBook.{
  Book, higher, ask_stops, bid_stops, buy_record, sell_record, match_buy_order, match_sell_order,
  match_order, process_order,
}
use exchange_server.OrderBook.Spec.{addresses, market_of, submit_to, submit}
use exchange_server.OrderBook.Push.{ltb-IsOrder, higher-IsOrder, push_back-refines}
use exchange_server.OrderBook.Invariant.{IsValid, match_levels-others}
use exchange_server.OrderBook.Match.{IsNew, found_lem, found-taker}
use exchange_server.OrderBook.Process.{
  bought, sold, match_buy_order-rest, match_buy_order-done, match_sell_order-rest,
  match_sell_order-done,
}

module _ (now : ℕ → ℕ) (p : ℕ) (b : Book) (v : IsValid b) (new : IsNew p b) where
  match_buy_order-refines :
      market_of (match_buy_order now p b) ≡ submit_to now b.ticker_id buy (b.store p) (market_of b)
  match_buy_order-refines =
      let c = (bought now p b v new).1 in
      let same =
        match_levels-others now buy_record ask_stops p higher buy b.asks b.bids b v.bids new.bids
          v.apart in
      let f = found_lem now buy_record ask_stops ltb sell p b.asks b v.asks new.asks in
      let t = found-taker now buy_record ask_stops ltb sell p b.asks b v.asks new.asks in
      elim (Bool-cases (ltb 0 (c.store p).quantity)) [
        | inl h ↦ rw (match_buy_order-rest now p b v new h) (
            ground (
              arith,
              f,
              t,
              same.0,
              push_back-refines higher higher-IsOrder (b.store p).price p c.store b.bids
                  v.bids.filled v.bids.sorted,
            ))
        | inr h ↦ rw (match_buy_order-done now p b v new h) (ground (arith, f, t, same.0))
      ]

  match_sell_order-refines :
      market_of (match_sell_order now p b)
      ≡ submit_to now b.ticker_id sell (b.store p) (market_of b)
  match_sell_order-refines =
      let c = (sold now p b v new).1 in
      let same =
        match_levels-others now sell_record bid_stops p ltb sell b.bids b.asks b v.asks new.asks
          (Fresh-swap (addresses b.bids) (addresses b.asks) v.apart) in
      let f = found_lem now sell_record bid_stops higher buy p b.bids b v.bids new.bids in
      let t = found-taker now sell_record bid_stops higher buy p b.bids b v.bids new.bids in
      elim (Bool-cases (ltb 0 (c.store p).quantity)) [
        | inl h ↦ rw (match_sell_order-rest now p b v new h) (
            ground (
              arith,
              f,
              t,
              same.0,
              push_back-refines ltb ltb-IsOrder (b.store p).price p c.store b.asks v.asks.filled
                  v.asks.sorted,
            ))
        | inr h ↦ rw (match_sell_order-done now p b v new h) (ground (arith, f, t, same.0))
      ]

  match_order-refines :
      (own : OrderSide)
      → market_of (match_order now own p b)
        ≡ submit_to now b.ticker_id own (b.store p) (market_of b)
  match_order-refines buy = match_buy_order-refines
  match_order-refines sell = match_sell_order-refines

  -- On a well formed book, processing a new order does what `submit` does to the two queues of
  -- quotes: the same records in the same order, and the same quotes left on both sides.
  pub process_order-refines :
      market_of (process_order now p b) ≡ submit now b.ticker_id (b.store p) (market_of b)
  unfolding process_order
  process_order-refines =
      elim (Bool-cases (ltb 0 ((match_order now (b.store p).side p b).store p).quantity)) [
        | inl h ↦ rw h (match_order-refines (b.store p).side)
        | inr h ↦ rw h (match_order-refines (b.store p).side)
      ]
