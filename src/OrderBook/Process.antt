-- ===== src/OrderBook/Process.antt =====
-- processOrder of include/OrderBook.hpp: it keeps the book well formed.
use exchange_server.Prelude.{
  ℕ, ◌<◌, true, false, List, ◌≡◌, ◌≢◌, refl, sym, subst, inl, inr, arith, All, Fresh, Fresh-swap,
  ltb, Bool-cases,
}
use exchange_server.Common.{OrderSide, buy, sell}
use exchange_server.OrderBook.{
  Levels, Book, push_back, match_levels, higher, ask_stops, bid_stops, buy_record, sell_record,
  match_buy_order, match_sell_order, match_order, process_order,
}
use exchange_server.OrderBook.Spec.{addresses}
use exchange_server.OrderBook.Levels.{
  All-swap, match_levels-same, match_levels-prices, match_levels-All,
}
use exchange_server.OrderBook.Push.{
  ltb-IsOrder, higher-IsOrder, push_back-prices, apart_push, push_back-All,
}
use exchange_server.OrderBook.Invariant.{
  IsValid, push_back-IsSide, match_levels-IsSide, match_levels-others,
}
use exchange_server.OrderBook.Match.{
  IsNew, asks_above, bids_below, All-under, All-both, found-taker, found-Rests, found-front,
}

module _ (now : ℕ → ℕ) (p : ℕ) (b : Book) (v : IsValid b) (new : IsNew p b) where
  abbrev pub bought : Levels × Book
  bought = match_levels now buy_record ask_stops p b.asks b

  pub match_buy_order-rest :
      ltb 0 (bought.1.store p).quantity ≡ true
      → match_buy_order now p b
        ≡ record bought.1 { asks = bought.0; bids = push_back higher (b.store p).price p b.bids }
  unfolding match_buy_order
  match_buy_order-rest h = ground (
    arith,
    found-taker now buy_record ask_stops ltb sell p b.asks b v.asks new.asks,
    match_levels-same now buy_record ask_stops p b.asks b,
  )

  pub match_buy_order-done :
      ltb 0 (bought.1.store p).quantity ≡ false
      → match_buy_order now p b ≡ record bought.1 { asks = bought.0; bids = b.bids }
  unfolding match_buy_order
  match_buy_order-done h = ground (arith, match_levels-same now buy_record ask_stops p b.asks b)

  match_buy_order-IsValid : (b.store p).side ≡ buy → IsValid (match_buy_order now p b)
  match_buy_order-IsValid own =
      let c = bought.1 in
      let asks' =
        match_levels-IsSide now buy_record ask_stops p ltb sell b.asks b v.asks new.asks in
      let (same, bids') =
        match_levels-others now buy_record ask_stops p higher buy b.asks b.bids b v.bids new.bids
          v.apart in
      let apart' =
        All-swap (λ x y. x ≢ y) (addresses b.asks) (addresses bought.0)
          (λ x. match_levels-All now buy_record ask_stops p (λ y. x ≢ y) b.asks b)
          (addresses b.bids) v.apart in
      let uncrossed' =
        All-under (λ x. All (λ (l : ℕ × List ℕ). x < l.0) b.asks)
          (λ x. All (λ (l : ℕ × List ℕ). x < l.0) bought.0) b.bids
          (λ x. match_levels-prices now buy_record ask_stops p (λ y. x < y) b.asks b) v.uncrossed in
      elim (Bool-cases (ltb 0 (c.store p).quantity)) [
        | inl h ↦ subst IsValid (sym (match_buy_order-rest h)) (record {
          bids =
              push_back-IsSide higher buy c.store (b.store p).price p b.bids higher-IsOrder bids'
                new.bids
                (found-Rests now buy_record ask_stops ltb sell p b.asks b v.asks new.asks buy own
                  h);
          asks = asks';
          apart =
              push_back-All higher higher-IsOrder (b.store p).price p
                (λ q. Fresh q (addresses bought.0)) b.bids
                (match_levels-All now buy_record ask_stops p (λ y. p ≢ y) b.asks b new.asks) apart';
          uncrossed =
              push_back-prices higher higher-IsOrder (b.store p).price p
                (λ x. All (λ (l : ℕ × List ℕ). x < l.0) bought.0) b.bids
                (asks_above c.store (b.store p).price bought.0 asks'.filled asks'.sorted
                  (found-front now buy_record ask_stops ltb sell p b.asks b v.asks new.asks h))
                uncrossed';
        })
        | inr h ↦
            subst IsValid (sym (match_buy_order-done h))
              (record { bids = bids'; asks = asks'; apart = apart'; uncrossed = uncrossed' })
      ]

  abbrev pub sold : Levels × Book
  sold = match_levels now sell_record bid_stops p b.bids b

  pub match_sell_order-rest :
      ltb 0 (sold.1.store p).quantity ≡ true
      → match_sell_order now p b
        ≡ record sold.1 { bids = sold.0; asks = push_back ltb (b.store p).price p b.asks }
  unfolding match_sell_order
  match_sell_order-rest h = ground (
    arith,
    found-taker now sell_record bid_stops higher buy p b.bids b v.bids new.bids,
    match_levels-same now sell_record bid_stops p b.bids b,
  )

  pub match_sell_order-done :
      ltb 0 (sold.1.store p).quantity ≡ false
      → match_sell_order now p b ≡ record sold.1 { bids = sold.0; asks = b.asks }
  unfolding match_sell_order
  match_sell_order-done h = ground (arith, match_levels-same now sell_record bid_stops p b.bids b)

  match_sell_order-IsValid : (b.store p).side ≡ sell → IsValid (match_sell_order now p b)
  match_sell_order-IsValid own =
      let c = sold.1 in
      let bids' =
        match_levels-IsSide now sell_record bid_stops p higher buy b.bids b v.bids new.bids in
      let (same, asks') =
        match_levels-others now sell_record bid_stops p ltb sell b.bids b.asks b v.asks new.asks
          (Fresh-swap (addresses b.bids) (addresses b.asks) v.apart) in
      let apart' =
        match_levels-All now sell_record bid_stops p (λ q. Fresh q (addresses b.asks)) b.bids b
          v.apart in
      let uncrossed' =
        match_levels-prices now sell_record bid_stops p
          (λ x. All (λ (l : ℕ × List ℕ). x < l.0) b.asks) b.bids b v.uncrossed in
      elim (Bool-cases (ltb 0 (c.store p).quantity)) [
        | inl h ↦ subst IsValid (sym (match_sell_order-rest h)) (record {
          bids = bids';
          asks =
              push_back-IsSide ltb sell c.store (b.store p).price p b.asks ltb-IsOrder asks'
                new.asks
                (found-Rests now sell_record bid_stops higher buy p b.bids b v.bids new.bids sell
                  own h);
          apart =
              apart_push ltb ltb-IsOrder (b.store p).price p b.asks (addresses sold.0)
                (match_levels-All now sell_record bid_stops p (λ y. p ≢ y) b.bids b new.bids)
                apart';
          uncrossed =
              All-both (λ x. x < (b.store p).price) (λ x. All (λ (l : ℕ × List ℕ). x < l.0) b.asks)
                (λ x. All (λ (l : ℕ × List ℕ). x < l.0) (push_back ltb (b.store p).price p b.asks))
                sold.0
                (λ x. push_back-prices ltb ltb-IsOrder (b.store p).price p (λ y. x < y) b.asks)
                (bids_below c.store (b.store p).price sold.0 bids'.filled bids'.sorted
                  (found-front now sell_record bid_stops higher buy p b.bids b v.bids new.bids h))
                uncrossed';
        })
        | inr h ↦
            subst IsValid (sym (match_sell_order-done h))
              (record { bids = bids'; asks = asks'; apart = apart'; uncrossed = uncrossed' })
      ]

  match_order-IsValid :
      (own : OrderSide) → (b.store p).side ≡ own → IsValid (match_order now own p b)
  match_order-IsValid buy e = match_buy_order-IsValid e
  match_order-IsValid sell e = match_sell_order-IsValid e

  -- An order that is new to a well formed book leaves it well formed: the prices in order, no level
  -- empty, each order once and with a share left, and the best bid below the best ask.
  pub process_order-IsValid : IsValid (process_order now p b)
  unfolding process_order
  process_order-IsValid =
      let w = match_order-IsValid (b.store p).side refl in
      elim (Bool-cases (ltb 0 ((match_order now (b.store p).side p b).store p).quantity)) [
        | inl h ↦
            rw h (record { bids = w.bids; asks = w.asks; apart = w.apart; uncrossed = w.uncrossed })
        | inr h ↦ rw h w
      ]
