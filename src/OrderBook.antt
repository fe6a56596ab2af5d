-- ===== src/OrderBook.antt =====
-- include/OrderBook.hpp: the order book of one ticker. A `shared_ptr<Order>` is an address in
-- `store`; the price levels and the index of active orders hold addresses.
pub mod Spec
pub mod Push
pub mod Remove
pub mod Fill
pub mod Levels
pub mod Invariant
pub mod Match
pub mod Process
pub mod Trades
pub mod Shares
pub mod Owed
pub mod Index
pub mod Indexed
pub mod Once
pub mod Removed
pub mod Active
pub mod Cancel
pub mod Listed
pub mod Listing
pub mod Resting
pub mod Example
mod Tests
pub mod Refines
use exchange_server.Prelude.{
  ℕ, ◌+◌, ◌-◌, ◌^◌, ◌%◌, min, Bool, true, false, Option, none, some, List, [], ◌∷◌, ◌++◌, map, ltb,
  leb, ◌==◌, if◌then◌else◌,
}
use exchange_server.Prelude.Words.{sub64}
use exchange_server.Prelude.Map.{Map, lookup, lookup_or, insert, erase}
use exchange_server.Common.{OrderSide, buy, sell, Order, MatchRecord}

abbrev pub Store : Type 0
Store = ℕ → Order

-- `std::map<uint64_t, OrderList>` in the order of its iteration.
abbrev pub Levels : Type 0
Levels = List (ℕ × List ℕ)

pub record Book : Type 0 where
  pub ticker_id : ℕ
  pub bids : Levels
  pub asks : Levels
  pub active : Map (Map ℕ)
  pub store : Store
  pub results : List MatchRecord
  pub ticks : ℕ

-- `p->quantity -= qty`
abbrev pub reduce : ℕ → ℕ → Store → Store
reduce p qty s r = if p == r then record (s r) { quantity = sub64 (s r).quantity qty } else s r

-- `user_active_orders_[user_id].erase(order_id)`
abbrev pub forget : ℕ → ℕ → Map (Map ℕ) → Map (Map ℕ)
forget uid oid m = insert uid (erase oid (lookup_or [] uid m)) m

-- `user_active_orders_[user_id][order_id] = p`
abbrev pub remember : ℕ → ℕ → ℕ → Map (Map ℕ) → Map (Map ℕ)
remember uid oid p m = insert uid (insert oid p (lookup_or [] uid m)) m

-- The record that `matchBuyOrder` pushes: the taker is the buyer.
abbrev pub buy_record : ℕ → Order → Order → ℕ → ℕ → ℕ → MatchRecord
buy_record ticker taker maker price qty time = record {
  ticker_id = ticker;
  maker_order_id = maker.order_id;
  taker_order_id = taker.order_id;
  buyer_user_id = taker.user_id;
  sell_user_id = maker.user_id;
  buyer_expected_price = taker.price;
  match_price = price;
  match_quantity = qty;
  timestamp = time;
}

-- The record that `matchSellOrder` pushes: the maker is the buyer.
abbrev pub sell_record : ℕ → Order → Order → ℕ → ℕ → ℕ → MatchRecord
sell_record ticker taker maker price qty time = record {
  ticker_id = ticker;
  maker_order_id = maker.order_id;
  taker_order_id = taker.order_id;
  buyer_user_id = maker.user_id;
  sell_user_id = taker.user_id;
  buyer_expected_price = maker.price;
  match_price = price;
  match_quantity = qty;
  timestamp = time;
}

-- `bids_[price].push_back(p)`, where `before a b` says that the map lists `a` ahead of `b`.
abbrev pub push_back : (ℕ → ℕ → Bool) → ℕ → ℕ → Levels → Levels
push_back before price p [] = (price, p ∷ []) ∷ []
push_back before price p ((q, ps) ∷ ls) =
    if price == q
    then (q, ps ++ p ∷ []) ∷ ls
    else if before price q
    then (price, p ∷ []) ∷ (q, ps) ∷ ls
    else (q, ps) ∷ push_back before price p ls

abbrev pub higher : ℕ → ℕ → Bool
higher a b = ltb b a

-- `if (ask_list.empty()) it = asks_.erase(it); else it++;`
abbrev pub put_level : ℕ → List ℕ → Levels → Levels
put_level price [] ls = ls
put_level price (p ∷ ps) ls = (price, p ∷ ps) ∷ ls

-- `now n` is the n-th reading of the system clock; `taker` is the address of the new order.
module _ (now : ℕ → ℕ) (make : ℕ → Order → Order → ℕ → ℕ → ℕ → MatchRecord) (stops : ℕ → ℕ → Bool)
    (taker : ℕ) where
  -- One round of the inner loop up to the test for a filled maker.
  abbrev pub trade : ℕ → ℕ → Book → Book
  trade price maker b =
      let t = b.store taker in
      let m = b.store maker in
      let qty = min t.quantity m.quantity in
      record b {
        results = b.results ++ make b.ticker_id t m price qty (now b.ticks) ∷ [];
        ticks = b.ticks + 1;
        store = reduce maker qty (reduce taker qty b.store);
      }

  -- The inner loop over one price level: what is left of the level, and the book.
  pub match_level : ℕ → List ℕ → Book → List ℕ × Book
  match_level price [] b = ([], b)
  match_level price (m ∷ ms) b = elim ((b.store taker).quantity == 0) [
    | true ↦ (m ∷ ms, b)
    | false ↦
        let c = trade price m b in
        let o = c.store m in
        elim (o.quantity == 0) [
          | true ↦ match_level price ms (record c { active = forget o.user_id o.order_id c.active })
          | false ↦ let rest = match_level price ms c in (m ∷ rest.0, rest.1)
        ]
  ]

  -- The outer loop over the price levels of the other side.
  pub match_levels : Levels → Book → Levels × Book
  match_levels [] b = ([], b)
  match_levels ((price, ms) ∷ ls) b = elim ((b.store taker).quantity == 0) [
    | true ↦ ((price, ms) ∷ ls, b)
    | false ↦ elim (stops price (b.store taker).price) [
      | true ↦ ((price, ms) ∷ ls, b)
      | false ↦
          let level = match_level price ms b in
          let rest = match_levels ls level.1 in (put_level price level.0 rest.0, rest.1)
    ]
  ]

-- `if (ask_price > buy_order->price) break;`
abbrev pub ask_stops : ℕ → ℕ → Bool
ask_stops ask_price price = ltb price ask_price

-- `if (bids_price < sell_order->price) break;`
abbrev pub bid_stops : ℕ → ℕ → Bool
bid_stops bid_price price = ltb bid_price price

module _ (now : ℕ → ℕ) where
  pub match_buy_order : ℕ → Book → Book
  match_buy_order p b =
      let (asks', c) = match_levels now buy_record ask_stops p b.asks b in
      let o = c.store p in
      if ltb 0 o.quantity
      then record c { asks = asks'; bids = push_back higher o.price p c.bids }
      else record c { asks = asks' }

  pub match_sell_order : ℕ → Book → Book
  match_sell_order p b =
      let (bids', c) = match_levels now sell_record bid_stops p b.bids b in
      let o = c.store p in
      if ltb 0 o.quantity
      then record c { bids = bids'; asks = push_back ltb o.price p c.asks }
      else record c { bids = bids' }

  abbrev pub match_order : OrderSide → ℕ → Book → Book
  match_order buy = match_buy_order
  match_order sell = match_sell_order

  pub process_order : ℕ → Book → Book
  process_order p b =
      let c = match_order (b.store p).side p b in
      let o = c.store p in
      if ltb 0 o.quantity then record c { active = remember o.user_id o.order_id p c.active } else c

-- The price of the first level, 0 on an empty side.
abbrev pub best : Levels → ℕ
best [] = 0
best ((price, ps) ∷ ls) = price

pub get_best_bid_offer : Book → ℕ × ℕ
get_best_bid_offer b = (best b.bids, best b.asks)

-- `list.remove_if([order_id](o) { return o->order_id == order_id; })`
abbrev pub remove_id : Store → ℕ → List ℕ → List ℕ
remove_id s oid [] = []
remove_id s oid (p ∷ ps) =
    let rest = remove_id s oid ps in if (s p).order_id == oid then rest else p ∷ rest

-- `auto& list = bids_[price]; list.remove_if(…); if (list.empty()) bids_.erase(price);` A price that
-- is missing is added with an empty list and erased at once.
abbrev pub remove_at : Store → ℕ → ℕ → Levels → Levels
remove_at s price oid [] = []
remove_at s price oid ((q, ps) ∷ ls) =
    let rest = remove_at s price oid ls in
    if q == price then put_level q (remove_id s oid ps) ls else (q, ps) ∷ rest

abbrev pub remove_from : OrderSide → ℕ → ℕ → Book → Book
remove_from buy price oid b = record b { bids = remove_at b.store price oid b.bids }
remove_from sell price oid b = record b { asks = remove_at b.store price oid b.asks }

-- The parameter `order_id` is a `uint32_t`, so the caller's 64 bits are cut.
pub cancel_order : ℕ → ℕ → Book → Option ℕ × Book
cancel_order id uid b =
    let oid = id % 2 ^ 32 in
    elim (lookup uid b.active) [
      | none ↦ (none, b)
      | some orders ↦ elim (lookup oid orders) [
        | none ↦ (none, b)
        | some p ↦
            let o = b.store p in
            let c = remove_from o.side o.price oid b in
            (some p, record c { active = insert uid (erase oid orders) c.active })
      ]
    ]

unfoldable pub get_user_active_order : ℕ → Book → List ℕ
get_user_active_order uid b = map (λ e. e.1) (lookup_or [] uid b.active)
