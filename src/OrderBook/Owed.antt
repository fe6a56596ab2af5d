-- ===== src/OrderBook/Owed.antt =====
-- The cash behind the resting bids of include/OrderBook.hpp: each is good for its price times its
-- quantity, which its owner has frozen.
use exchange_server.Prelude.{
  ℕ, ◌+◌, ◌-◌, ◌*◌, min, Bool, false, List, [], ◌∷◌, ◌++◌, ◌==◌, if◌then◌else◌, ltb, ◌≡◌, refl, ap,
  ◌∙◌, arith,
}
use exchange_server.Common.{OrderSide, buy, sell, Order, MatchRecord}
use exchange_server.OrderBook.{
  Book, higher, ask_stops, bid_stops, buy_record, sell_record, process_order,
}
use exchange_server.OrderBook.Spec.{Quote, fill, enqueue, Market, market_of, rest, submit_to}
use exchange_server.OrderBook.Fill.{fill-taker}
use exchange_server.OrderBook.Invariant.{IsValid}
use exchange_server.OrderBook.Match.{IsNew}
use exchange_server.OrderBook.Trades.{process_order-refines}

module _ (u : ℕ) where
  abbrev pub price_for : Order → ℕ
  price_for o = if o.user_id == u then o.price else 0

  -- What the resting bids of a user are good for, and what the user owes for trades.
  abbrev pub owed : List Quote → ℕ
  owed [] = 0
  owed ((price, o) ∷ q) = price_for o * o.quantity + owed q

  abbrev pub due_for : MatchRecord → ℕ
  due_for r = if r.buyer_user_id == u then r.buyer_expected_price else 0

  abbrev pub due : List MatchRecord → ℕ
  due [] = 0
  due (r ∷ rs) = due_for r * r.match_quantity + due rs

  due-append : (rs ss : List MatchRecord) → due (rs ++ ss) ≡ due rs + due ss
  due-append [] ss = omega arith
  due-append (r ∷ rs) ss = omega (arith, due-append rs ss)

  split_min : (w q k : ℕ) → w * (q - min q k) + w * min q k ≡ w * q
  split_min w q k = grind arith

  split_min_right : (w q k : ℕ) → w * (k - min q k) + w * min q k ≡ w * k
  split_min_right w q k = grind arith

  module _ (now : ℕ → ℕ) (stops : ℕ → ℕ → Bool) (ticker : ℕ) where
    -- A buying order pays its own price for each share.
    fill_buy-due :
        (t : Order) (k : ℕ) (rs : List MatchRecord) (q : List Quote)
        → let o = fill now buy_record stops ticker t k rs q in
          price_for t * o.taker.quantity + due o.records ≡ price_for t * t.quantity + due rs
    unfolding fill
    fill_buy-due t k rs [] = refl
    fill_buy-due t k rs ((price, m) ∷ q) =
        let qty = min t.quantity m.quantity in
        let r = buy_record ticker t m price qty (now k) in
        ground (
          arith,
          due-append rs (r ∷ []),
          split_min (price_for t) t.quantity m.quantity,
          fill_buy-due (record t { quantity = t.quantity - qty }) (k + 1) (rs ++ r ∷ []) q,
        )

    -- A selling order takes from bids, each of which pays its own price.
    fill_sell-due :
        (t : Order) (k : ℕ) (rs : List MatchRecord) (q : List Quote)
        → let o = fill now sell_record stops ticker t k rs q in
          owed o.queue + due o.records ≡ owed q + due rs
    unfolding fill
    fill_sell-due t k rs [] = refl
    fill_sell-due t k rs ((price, m) ∷ q) =
        let qty = min t.quantity m.quantity in
        let r = sell_record ticker t m price qty (now k) in
        ground (
          arith,
          due-append rs (r ∷ []),
          split_min_right (price_for m) t.quantity m.quantity,
          fill_sell-due (record t { quantity = t.quantity - qty }) (k + 1) (rs ++ r ∷ []) q,
        )

  owed-enqueue :
      (before : ℕ → ℕ → Bool) (x : Quote) (q : List Quote)
      → owed (enqueue before x q) ≡ price_for x.1 * x.1.quantity + owed q
  unfolding enqueue
  owed-enqueue before x [] = refl
  owed-enqueue before x (y ∷ q) = ground (arith, owed-enqueue before x q)

  none_left : (w q : ℕ) → ltb 0 q ≡ false → w * q ≡ 0
  none_left w q h = grind arith

  owed-rest :
      (before : ℕ → ℕ → Bool) (o : Order) (q : List Quote)
      → owed (rest before o q) ≡ price_for o * o.quantity + owed q
  owed-rest before o q =
      ground (arith, owed-enqueue before (o.price, o) q, none_left (price_for o) o.quantity)

  -- What an order adds to that: a buy order its price times its quantity, a sell order nothing.
  abbrev pub placed : OrderSide → Order → ℕ
  placed buy t = price_for t * t.quantity
  placed sell t = 0

  submit-owed :
      (now : ℕ → ℕ) (ticker : ℕ) (side : OrderSide) (t : Order) (m : Market)
      → let n = submit_to now ticker side t m in
        owed n.bids + due n.records ≡ owed m.bids + due m.records + placed side t
  submit-owed now ticker buy t m =
      let o = fill now buy_record ask_stops ticker t m.ticks m.records m.asks in
      let same =
        ap price_for (fill-taker now buy_record ask_stops ticker t m.ticks m.records m.asks) in
      let e = fill_buy-due now ask_stops ticker t m.ticks m.records m.asks in
      let f = owed-rest higher o.taker m.bids in
      let g = ap (λ w. w * o.taker.quantity) same in omega (arith, e, f, g)
  submit-owed now ticker sell t m =
      omega (arith, fill_sell-due now bid_stops ticker t m.ticks m.records m.bids)

  -- Processing a new order on a well formed book moves a user's cash and makes none: what the resting
  -- bids of the user are good for, at their prices, with what the user owes for trades, at the prices
  -- that the user offered, grows by price times quantity of a buy order of the user, and else stays.
  pub process_order-owed :
      (now : ℕ → ℕ) (p : ℕ) (b : Book)
      → IsValid b
      → IsNew p b
      → let c = process_order now p b in
        owed (market_of c).bids + due c.results
        ≡ owed (market_of b).bids + due b.results + placed (b.store p).side (b.store p)
  process_order-owed now p b v new =
      ap (λ (m : Market). owed m.bids + due m.records) (process_order-refines now p b v new)
      ∙ submit-owed now b.ticker_id (b.store p).side (b.store p) (market_of b)
