-- ===== src/Processor/Tests.antt =====
-- A batch of include/OrderBookProcessor.hpp on a small book.
use exchange_server.Prelude.{true, List, [], ◌∷◌, arith}
use exchange_server.OrderBook.Invariant.{IsValid}
use exchange_server.OrderBook.Example.{book, clock, book-IsValid, book-IsIndexed}
use exchange_server.Engine.{EngineEvent, new_event, cancel_event}
use exchange_server.Processor.{Worker, run_batch}
use exchange_server.Processor.Active.{Unused, ids_of, run_batch-IsIndexed, run_batch-Lists}
use exchange_server.OrderBook
use exchange_server.OrderBook.Active.{IsIndexed}
use exchange_server.OrderBook.Listing.{Lists}

abbrev worker : Worker
worker = record { book = book; cancels = []; settled = []; published = [] }

-- A new order that trades twice, and then a cancellation.
abbrev batch : List EngineEvent
batch = new_event 4 ∷ cancel_event 13 9 ∷ []

unused : Unused (ids_of book) (4 ∷ []) book
unused = omega arith

run_batch-IsIndexed_example :
    (let b = (run_batch clock true batch worker).book in IsValid b × IsIndexed b)
run_batch-IsIndexed_example =
    run_batch-IsIndexed clock true batch worker book-IsValid book-IsIndexed (tt, tt) unused

run_batch-Lists_example :
    (let b = (run_batch clock true batch worker).book in
      Lists 9 b (OrderBook.get_user_active_order 9 b))
run_batch-Lists_example =
    run_batch-Lists clock true batch worker book-IsValid book-IsIndexed (tt, tt) unused 9
