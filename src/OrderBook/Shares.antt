-- ===== src/OrderBook/Shares.antt =====
-- Every share and every price of processOrder in include/OrderBook.hpp.
use exchange_server.Prelude.{
  ℕ, ◌+◌, ◌*◌, ◌≤◌, ◌<◌, Bool, false, List, [], ◌∷◌, ◌++◌, ◌≡◌, refl, ap, ◌∙◌, arith, min, All, ltb,
}
use exchange_server.Common.{OrderSide, buy, sell, Order, MatchRecord}
use exchange_server.OrderBook.{
  Book, higher, ask_stops, bid_stops, buy_record, sell_record, process_order,
}
use exchange_server.OrderBook.Spec.{Quote, fill, enqueue, Market, market_of, rest, submit_to}
use exchange_server.OrderBook.Fill.{Rests, volume, depth, fill_conserves, fill-All, fill-append}
use exchange_server.OrderBook.Invariant.{IsValid}
use exchange_server.OrderBook.Match.{IsNew}
use exchange_server.OrderBook.Trades.{process_order-refines}

depth-enqueue :
    (before : ℕ → ℕ → Bool) (x : Quote) (q : List Quote)
    → depth (enqueue before x q) ≡ x.1.quantity + depth q
unfolding enqueue
depth-enqueue before x [] = refl
depth-enqueue before x (y ∷ q) = ground (arith, depth-enqueue before x q)

depth-rest :
    (before : ℕ → ℕ → Bool) (o : Order) (q : List Quote)
    → depth (rest before o q) ≡ o.quantity + depth q
depth-rest before o q = ground (arith, depth-enqueue before (o.price, o) q)

-- The shares that rest on both sides, with those traded, which left twice.
abbrev pub shares : Market → ℕ
shares m = depth m.bids + depth m.asks + 2 * volume m.records

submit-shares :
    (now : ℕ → ℕ) (ticker : ℕ) (side : OrderSide) (t : Order) (m : Market)
    → shares (submit_to now ticker side t m) ≡ shares m + t.quantity
submit-shares now ticker buy t m =
    let o = fill now buy_record ask_stops ticker t m.ticks m.records m.asks in
    let e =
      fill_conserves now buy_record ask_stops ticker (λ a b c d f. refl) t m.ticks m.records
        m.asks in
    omega (arith, e.0, e.1, depth-rest higher o.taker m.bids)
submit-shares now ticker sell t m =
    let o = fill now sell_record bid_stops ticker t m.ticks m.records m.bids in
    let e =
      fill_conserves now sell_record bid_stops ticker (λ a b c d f. refl) t m.ticks m.records
        m.bids in
    omega (arith, e.0, e.1, depth-rest ltb o.taker m.asks)

-- What a record of a trade of `t` has to say: at least one share, at a price within both limits.
abbrev Within : OrderSide → ℕ → ℕ → Type 0
Within buy limit price = price ≤ limit
Within sell limit price = limit ≤ price

pub record Honours (t : Order) (r : MatchRecord) : Type 0 where
  pub traded : 0 < r.match_quantity
  pub limit : Within t.side t.price r.match_price
  pub bound : r.match_price ≤ r.buyer_expected_price
  pub taker : r.taker_order_id ≡ t.order_id

buy-Gives :
    (t : Order) (ticker : ℕ)
    → t.side ≡ buy
    → (n time : ℕ) (m : Order) (price : ℕ) → ask_stops price t.price ≡ false
    → 0 < n
    → Rests sell (price, m)
    → Honours t (buy_record ticker (record t { quantity = n }) m price (min n m.quantity) time)
buy-Gives t ticker e n time m price h pos r = record {
  traded = omega (arith, r.2);
  limit = rw e (ground arith);
  bound = ground arith;
  taker = refl;
}

sell-Gives :
    (t : Order) (ticker : ℕ)
    → t.side ≡ sell
    → (n time : ℕ) (m : Order) (price : ℕ) → bid_stops price t.price ≡ false
    → 0 < n
    → Rests buy (price, m)
    → Honours t (sell_record ticker (record t { quantity = n }) m price (min n m.quantity) time)
sell-Gives t ticker e n time m price h pos r = record {
  traded = omega (arith, r.2);
  limit = rw e (ground arith);
  bound = omega (arith, r.1);
  taker = refl;
}

submit-Honours :
    (now : ℕ → ℕ) (ticker : ℕ) (side : OrderSide) (t : Order) (m : Market)
    → t.side ≡ side
    → All (Rests buy) m.bids
    → All (Rests sell) m.asks
    → (rs : List MatchRecord) × ((submit_to now ticker side t m).records ≡ m.records ++ rs)
      × All (Honours t) rs
submit-Honours now ticker buy t m e hb ha = (
  (fill now buy_record ask_stops ticker t m.ticks [] m.asks).records,
  fill-append now buy_record ask_stops ticker t m.ticks m.records m.asks,
  fill-All now buy_record ask_stops ticker (Honours t) sell t m.ticks [] m.asks
      (buy-Gives t ticker e) ha tt,
)
submit-Honours now ticker sell t m e hb ha = (
  (fill now sell_record bid_stops ticker t m.ticks [] m.bids).records,
  fill-append now sell_record bid_stops ticker t m.ticks m.records m.bids,
  fill-All now sell_record bid_stops ticker (Honours t) buy t m.ticks [] m.bids
      (sell-Gives t ticker e) hb tt,
)

module _ (now : ℕ → ℕ) (p : ℕ) (b : Book) (v : IsValid b) (new : IsNew p b) where
  -- No share is lost or made by processing a new order on a well formed book: the shares that rest
  -- on the two sides and twice the traded ones grow by exactly the order's quantity.
  pub process_order-shares :
      shares (market_of (process_order now p b)) ≡ shares (market_of b) + (b.store p).quantity
  process_order-shares =
      ap shares (process_order-refines now p b v new)
      ∙ submit-shares now b.ticker_id (b.store p).side (b.store p) (market_of b)

  -- The records that a new order adds are for at least one share each, at a price within its limit
  -- and within what the buyer expected to pay, and name it as the taker; the older ones stay.
  pub process_order-Honours :
      (rs : List MatchRecord) × ((process_order now p b).results ≡ b.results ++ rs)
      × All (Honours (b.store p)) rs
  process_order-Honours =
      let (rs, e, h) =
        submit-Honours now b.ticker_id (b.store p).side (b.store p) (market_of b) refl v.bids.rests
          v.asks.rests in
      (rs, ap (λ (m : Market). m.records) (process_order-refines now p b v new) ∙ e, h)
