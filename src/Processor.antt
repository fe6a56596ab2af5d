-- ===== src/Processor.antt =====
-- include/OrderBookProcessor.hpp: the worker of one ticker. What it dequeued is an argument.
pub mod Batch
pub mod Active
mod Tests
use exchange_server.Prelude.{
  ℕ, ◌+◌, Bool, true, false, Option, none, some, List, [], ◌∷◌, ◌++◌, if◌then◌else◌,
}
use exchange_server.Common.{Order, MatchRecord, CancelRecord}
use exchange_server.OrderBook
use exchange_server.OrderBook.{Book}
use exchange_server.Engine.{EventType, new_order, cancel_order, EngineEvent}

-- What the worker holds: the book, whose `results` is its vector, and what it has handed to the
-- settlement and to the publisher.
pub record Worker : Type 0 where
  pub book : Book
  pub cancels : List CancelRecord
  pub settled : List MatchRecord
  pub published : List MatchRecord

abbrev pub cancel_record : ℕ → Order → CancelRecord
cancel_record time o = record {
  ticker_id = o.ticker_id;
  order_id = o.order_id;
  user_id = o.user_id;
  side = o.side;
  price = o.price;
  quantity = o.quantity;
  timestamp = time;
}

module _ (now : ℕ → ℕ) (settlement : Bool) where
  -- `if (canceled_order != nullptr && settlementProcessor_)`
  abbrev pub report_cancel : Option ℕ → Worker → Worker
  report_cancel none w = w
  report_cancel (some p) w =
      if settlement
      then record w {
        cancels = w.cancels ++ cancel_record (now w.book.ticks) (w.book.store p) ∷ [];
        book = record (w.book) { ticks = w.book.ticks + 1 };
      }
      else w

  abbrev pub run_event_of : EventType → EngineEvent → Worker → Worker
  run_event_of new_order ev w = record w { book = OrderBook.process_order now ev.order w.book }
  run_event_of cancel_order ev w =
      let r = OrderBook.cancel_order ev.cancel_order_id ev.cancel_user_id w.book in
      report_cancel r.0 (record w { book = r.1 })

  pub run_event : EngineEvent → Worker → Worker
  run_event ev w = run_event_of ev.type ev w

  pub run_events : List EngineEvent → Worker → Worker
  run_events [] w = w
  run_events (ev ∷ evs) w = run_events evs (run_event ev w)

  -- `if (!results.empty())`: handing over no record changes nothing.
  abbrev pub hand_over : Worker → Worker
  hand_over w = record w {
    published = w.published ++ w.book.results;
    settled = if settlement then w.settled ++ w.book.results else w.settled;
  }

  -- The body of `processLoop` for a batch.
  pub run_batch : List EngineEvent → Worker → Worker
  run_batch evs w =
      hand_over (run_events evs (record w { book = record (w.book) { results = [] } }))
