-- ===== src/Wal.antt =====
-- include/WALManager.hpp: the log of requests. What the worker dequeued is an argument; the file is
-- the list of records written to it.
pub mod Replay
pub mod Forward
mod Tests
use exchange_server.Prelude.{ℕ, ◌+◌, ◌==◌, List, [], ◌∷◌, ◌++◌}
use exchange_server.Common.{OrderSide, buy, sell, Order}
use exchange_server.OrderBook.{Store}
use exchange_server.Engine.{
  EventType, new_order, cancel_order, EngineEvent, Engine, route_order, route_cancel,
}

pub record WalRecord : Type 0 where
  pub type : ℕ
  pub timestamp : ℕ
  pub order_id : ℕ
  pub ticker_id : ℕ
  pub user_id : ℕ
  pub side : ℕ
  pub price : ℕ
  pub quantity : ℕ

abbrev pub side_code : OrderSide → ℕ
side_code buy = 0
side_code sell = 1

abbrev pub order_record : Order → WalRecord
order_record o = record {
  type = 0;
  timestamp = o.timestamp;
  order_id = o.order_id;
  ticker_id = o.ticker_id;
  user_id = o.user_id;
  side = side_code o.side;
  price = o.price;
  quantity = o.quantity;
}

abbrev pub cancel_record : ℕ → EngineEvent → WalRecord
cancel_record time ev = record {
  type = 1;
  timestamp = time;
  order_id = ev.cancel_order_id;
  ticker_id = ev.ticker_id;
  user_id = ev.cancel_user_id;
  side = 0;
  price = 0;
  quantity = 0;
}

-- The file, the engine and the readings of the clock.
pub record Wal : Type 0 where
  pub file : List WalRecord
  pub engine : Engine
  pub ticks : ℕ

module _ (now : ℕ → ℕ) (s : Store) where
  abbrev pub record_of : EventType → EngineEvent → ℕ → WalRecord
  record_of new_order ev k = order_record (s ev.order)
  record_of cancel_order ev k = cancel_record (now k) ev

  abbrev pub ticks_of : EventType → ℕ → ℕ
  ticks_of new_order k = k
  ticks_of cancel_order k = k + 1

  -- The first loop of the worker, and how often it read the clock.
  pub records_of : List EngineEvent → ℕ → List WalRecord × ℕ
  records_of [] k = ([], k)
  records_of (ev ∷ evs) k =
      let rest = records_of evs (ticks_of ev.type k) in (record_of ev.type ev k ∷ rest.0, rest.1)

  abbrev pub forward_of : EventType → EngineEvent → Engine → Engine
  forward_of new_order ev e = (route_order s ev.order e).1
  forward_of cancel_order ev e = route_cancel ev.ticker_id ev.cancel_order_id ev.cancel_user_id e

  -- The second loop.
  pub forward : List EngineEvent → Engine → Engine
  forward [] e = e
  forward (ev ∷ evs) e = forward evs (forward_of ev.type ev e)

  -- The body of `processerLoop` for a batch, with the file open.
  pub log_batch : List EngineEvent → Wal → Wal
  log_batch evs w =
      let r = records_of evs w.ticks in
      record { file = w.file ++ r.0; engine = forward evs w.engine; ticks = r.1 }

abbrev pub append_order : ℕ → List EngineEvent → List EngineEvent
append_order p q =
    q
    ++ record {
      type = new_order;
      order = p;
      cancel_order_id = 0;
      cancel_user_id = 0;
      ticker_id = 0;
    }
      ∷ []

abbrev pub append_cancel : ℕ → ℕ → ℕ → List EngineEvent → List EngineEvent
append_cancel ticker id uid q =
    q
    ++ record {
      type = cancel_order;
      order = 0;
      cancel_order_id = id;
      cancel_user_id = uid;
      ticker_id = ticker;
    }
      ∷ []
