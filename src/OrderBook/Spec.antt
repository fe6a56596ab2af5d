-- ===== src/OrderBook/Spec.antt =====
-- What include/OrderBook.hpp promises, with neither addresses nor price levels: the other side of
-- the book is one queue of quotes in price and time order, and an order takes from its front.
use exchange_server.Prelude.{
  ℕ, ◌+◌, ◌-◌, min, Bool, true, false, List, [], ◌∷◌, ◌++◌, ◌==◌, ◌&&◌, if◌then◌else◌, ltb,
}
use exchange_server.Common.{OrderSide, buy, sell, Order, MatchRecord}
use exchange_server.OrderBook.{
  Store, Levels, Book, buy_record, sell_record, ask_stops, bid_stops, higher,
}

-- A resting order and the price of its level.
abbrev pub Quote : Type 0
Quote = ℕ × Order

pub record Outcome : Type 0 where
  pub taker : Order
  pub queue : List Quote
  pub records : List MatchRecord
  pub ticks : ℕ

module _ (now : ℕ → ℕ) (make : ℕ → Order → Order → ℕ → ℕ → ℕ → MatchRecord) (stops : ℕ → ℕ → Bool)
    (ticker : ℕ) where
  -- The order takes from the first quote until it is served, meets a price at which it stops, or
  -- leaves a quote partly filled.
  unfoldable pub fill : Order → ℕ → List MatchRecord → List Quote → Outcome
  fill t k rs [] = record { taker = t; queue = []; records = rs; ticks = k }
  fill t k rs ((price, m) ∷ quotes) = elim (t.quantity == 0) [
    | true ↦ record { taker = t; queue = (price, m) ∷ quotes; records = rs; ticks = k }
    | false ↦ elim (stops price t.price) [
      | true ↦ record { taker = t; queue = (price, m) ∷ quotes; records = rs; ticks = k }
      | false ↦
          let qty = min t.quantity m.quantity in
          let t' = record t { quantity = t.quantity - qty } in
          let m' = record m { quantity = m.quantity - qty } in
          let rs' = rs ++ make ticker t m price qty (now k) ∷ [] in
          elim (m'.quantity == 0) [
            | true ↦ fill t' (k + 1) rs' quotes
            | false ↦ record {
              taker = t';
              queue = (price, m') ∷ quotes;
              records = rs';
              ticks = k + 1;
            }
          ]
    ]
  ]

-- The queue that a side of the book stands for.
abbrev pub quotes_at : Store → ℕ → List ℕ → List Quote
quotes_at s price [] = []
quotes_at s price (m ∷ ms) = (price, s m) ∷ quotes_at s price ms

abbrev pub queue_of : Store → Levels → List Quote
queue_of s [] = []
queue_of s ((price, ms) ∷ ls) = quotes_at s price ms ++ queue_of s ls

abbrev pub addresses : Levels → List ℕ
addresses [] = []
addresses ((price, ms) ∷ ls) = ms ++ addresses ls

-- No level is empty.
abbrev pub Filled : Levels → Type 0
Filled [] = Unit
Filled ((price, []) ∷ ls) = ⊥
Filled ((price, m ∷ ms) ∷ ls) = Filled ls

-- A new quote goes behind those that the order of prices does not put after it.
unfoldable pub enqueue : (ℕ → ℕ → Bool) → Quote → List Quote → List Quote
enqueue before x [] = x ∷ []
enqueue before x (y ∷ q) = if before x.0 y.0 then x ∷ y ∷ q else y ∷ enqueue before x q

-- The quotes at a price with an order id go; the others keep their order.
unfoldable pub withdraw : ℕ → ℕ → List Quote → List Quote
withdraw price oid [] = []
withdraw price oid ((p, o) ∷ q) =
    let rest = withdraw price oid q in
    if (p == price) && (o.order_id == oid) then rest else (p, o) ∷ rest

-- The book that a client sees: two queues, the records and the readings of the clock.
pub record Market : Type 0 where
  pub bids : List Quote
  pub asks : List Quote
  pub records : List MatchRecord
  pub ticks : ℕ

abbrev pub market_of : Book → Market
market_of b = record {
  bids = queue_of b.store b.bids;
  asks = queue_of b.store b.asks;
  records = b.results;
  ticks = b.ticks;
}

abbrev pub rest : (ℕ → ℕ → Bool) → Order → List Quote → List Quote
rest before o q = if ltb 0 o.quantity then enqueue before (o.price, o) q else q

-- An order takes from the other side, and what is left of it rests on its own.
abbrev pub submit_to : (ℕ → ℕ) → ℕ → OrderSide → Order → Market → Market
submit_to now ticker buy t m =
    let o = fill now buy_record ask_stops ticker t m.ticks m.records m.asks in
    record {
      bids = rest higher o.taker m.bids;
      asks = o.queue;
      records = o.records;
      ticks = o.ticks;
    }
submit_to now ticker sell t m =
    let o = fill now sell_record bid_stops ticker t m.ticks m.records m.bids in
    record { bids = o.queue; asks = rest ltb o.taker m.asks; records = o.records; ticks = o.ticks }

abbrev pub submit : (ℕ → ℕ) → ℕ → Order → Market → Market
submit now ticker t m = submit_to now ticker t.side t m
