-- ===== src/Engine.antt =====
-- include/EngineEvent.hpp and include/MatchingEngine.hpp: the events, and their routing to the
-- queue of the ticker's processor. An order is an address in the store of all orders.
use exchange_server.Prelude.{ℕ, Bool, true, false, none, some, List, [], ◌∷◌, ◌++◌, map}
use exchange_server.Common.{Order}
use exchange_server.Prelude.Map.{Map, lookup, insert}
use exchange_server.OrderBook.{Store, Book, get_best_bid_offer, get_user_active_order}

pub data EventType : Type 0 where
  new_order cancel_order : EventType

pub record EngineEvent : Type 0 where
  pub type : EventType
  pub order : ℕ
  pub cancel_order_id : ℕ
  pub cancel_user_id : ℕ
  pub ticker_id : ℕ

-- A processor: its book and the queue that other threads fill.
pub record Processor : Type 0 where
  pub book : Book
  pub queue : List EngineEvent

abbrev pub Engine : Type 0
Engine = Map Processor

abbrev pub empty_book : Store → ℕ → Book
empty_book s ticker = record {
  ticker_id = ticker;
  bids = [];
  asks = [];
  active = [];
  store = s;
  results = [];
  ticks = 0;
}

unfoldable pub init : Store → ℕ → Engine → Engine
init s ticker e = elim (lookup ticker e) [
  | none ↦ insert ticker (record { book = empty_book s ticker; queue = [] }) e
  | some p ↦ e
]

-- `queue_.enqueue(ev)`
abbrev pub enqueue : EngineEvent → Processor → Processor
enqueue ev p = record p { queue = p.queue ++ ev ∷ [] }

abbrev pub new_event : ℕ → EngineEvent
new_event p = record {
  type = new_order;
  order = p;
  cancel_order_id = 0;
  cancel_user_id = 0;
  ticker_id = 0;
}

abbrev pub cancel_event : ℕ → ℕ → EngineEvent
cancel_event id uid = record {
  type = cancel_order;
  order = 0;
  cancel_order_id = id;
  cancel_user_id = uid;
  ticker_id = 0;
}

unfoldable pub route_order : Store → ℕ → Engine → Bool × Engine
route_order s p e = elim (lookup (s p).ticker_id e) [
  | none ↦ (false, e)
  | some q ↦ (true, insert (s p).ticker_id (enqueue (new_event p) q) e)
]

unfoldable pub route_cancel : ℕ → ℕ → ℕ → Engine → Engine
route_cancel ticker id uid e = elim (lookup ticker e) [
  | none ↦ e
  | some q ↦ insert ticker (enqueue (cancel_event id uid) q) e
]

-- The caller's two variables keep their values for an unknown ticker.
pub engine_best_bid_offer : ℕ → ℕ × ℕ → Engine → ℕ × ℕ
engine_best_bid_offer ticker was e = elim (lookup ticker e) [
  | none ↦ was
  | some q ↦ get_best_bid_offer q.book
]

-- The orders that the returned pointers show.
unfoldable pub engine_user_active_order : ℕ → Engine → List Order
engine_user_active_order uid [] = []
engine_user_active_order uid ((ticker, q) ∷ e) =
    map q.book.store (get_user_active_order uid q.book) ++ engine_user_active_order uid e
