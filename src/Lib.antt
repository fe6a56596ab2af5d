-- ===== src/Lib.antt =====
-- A verification library for the exchange server: order books that match by price and time, the
-- log of requests in front of them, the accounts in memory, and the settlement of trades.
--
-- The program and its parts. The bytes of a connection are cut into packets (MyEchoBusiness in
-- src/server/main.cpp), and a handler (include/Handler.hpp) answers each of them. The trade
-- handler freezes cash or shares and gives the order to the log. A request is logged and passed on
-- by the log (include/WALManager.hpp) to the engine (include/MatchingEngine.hpp), which queues it
-- at the worker of its ticker (include/OrderBookProcessor.hpp). The worker runs it on its book
-- (include/OrderBook.hpp) and hands the match records to the settlement
-- (include/SettlementProcessor.hpp), which writes to the database through its repositories
-- (include/Repositories.h) and to the accounts in memory (include/UserManager.hpp), with the
-- symbols of include/TickerManager.hpp. The worker gives the records to the publisher as well
-- (include/MarketDataPublisher.hpp), which adds them to the histories that the trend handler reads.
--
-- The files and the code that they model:
--   Prelude       tests and conditionals, lists, signed integers, maps, byte strings, machine words
--   Common        include/Common.hpp
--   OrderBook     include/OrderBook.hpp: processOrder is process_order, matchBuyOrder and
--                 matchSellOrder are match_buy_order and match_sell_order over one pair of loops
--                 (match_levels, match_level), cancelOrder is cancel_order. OrderBook.Spec is the
--                 independent description: two queues of quotes, in order of price and time; OrderBook.Index
--                 is what the index of active orders has to hold
--   Accounts      include/UserManager.hpp: one function per operation, in snake case
--   Tickers       include/TickerManager.hpp
--   Repositories  include/Repositories.h; Repositories.Contract is what it promises of the accounts
--   Sql           src/server/UserRepositoryImpl.cpp and src/server/StockRepositoryImpl.cpp, over a
--                 MySQL client that is a parameter (Sql.Memory has a concrete one)
--   Settlement    include/SettlementProcessor.hpp: settle_round is a round of processLoop
--   Engine        include/EngineEvent.hpp and include/MatchingEngine.hpp
--   Processor     include/OrderBookProcessor.hpp: run_batch is a batch of processLoop
--   Wal           include/WALManager.hpp: log_batch is a batch of processerLoop
--   Framing       MyEchoBusiness of src/server/main.cpp, and send_pkt of src/client/client.cpp
--   Ids           include/OrderIdGenerator.hpp
--   Protocol      include/Protocol.hpp: the layouts of requests and responses
--   Handlers      include/Handler.hpp: one function per handler, and the session of
--                 include/Router.hpp
--   Tcp           include/SessionManager.hpp, include/TimerManager.hpp, and the clean-up of
--                 src/server/TcpServer.cpp; Tcp.Loop has its acceptConnection and start as a relation
--                 of steps of the loop, the tasks and the time-outs, one call per step
--                 where a task and the loop can meet over one descriptor
--   Router        registerHandler and dispatch of include/Router.hpp
--   Main          main of src/server/main.cpp up to the start of the network
--   Pools         src/server/DBPool.cpp and src/server/RedisPool.cpp: taking and giving back a
--                 connection are the steps of a relation
--   Client        src/client/client.cpp: packets on a connection (Socket), benchmark_worker and the
--                 threads of main (Worker), and view_root_stocks (View)
--   ThreadPool    include/ThreadPool.hpp: what workers, callers and the destructor do are the steps
--                 of a relation
--   MarketData    include/MarketDataPublisher.hpp, and what the trend handler reads back
--                 (MarketData.Memory has concrete sorted sets)
--   Logger        include/Logger.hpp: process_logs is processLogs, shut_down the destructor
--
-- How state is modelled. A `shared_ptr<Order>` is an address in a store, so that the book, its index
-- and the caller share one order. `std::map` is a list of price levels in the map's order,
-- `unordered_map` an association list that holds each key once. A pointer to an account is its user
-- id, since accounts are never removed. A mutex makes what it guards one step. Unsigned 64-bit
-- amounts wrap where the source multiplies or subtracts them (mul64, sub64), and the conversions to
-- signed and to narrower types are written out (as_int64, as_int32, the `% 2 ^ 32` of cancel_order).
-- Balances wrap around in 64 bits and holdings in 32 (wrap64, wrap32), as on the usual machines; the
-- C++ standard leaves signed overflow undefined.
--
-- Third-party code is a parameter or an argument: what a queue yields is the list of a batch, the
-- clock is a function of the number of its readings, the repositories are records of operations on
-- any type of database, the MySQL client is one of what each statement answers and does, the Redis
-- client one of two commands (its server keeps a score as a double, by a conversion that is a
-- parameter too), and the JSON library a function from a text to a price. The dispatch to
-- handlers is a parameter of the framing. Three functions run on fuel: the loop over packets (drain),
-- with as many rounds as the buffer has bytes, while each round takes six bytes or more; the worker of
-- the logger (process_logs), which needs one round for each item at most; and the digits of a number
-- (to_string), which are fewer than the number and one. All other loops are recursion on a list or on
-- a number that the source counts.
--
-- A handler's state is what the handlers share: accounts, database, the log's queue, the orders
-- made so far, and the counter of the identifiers. A name that fills its field in a request is
-- read up to the end of the payload, where the source reads on to the next NUL.
--
-- Not modelled: the pool of news and its shuffling, which are an argument of the handler; the timing
-- of threads; the calls that set sockets up; the vendored json and queue libraries; the text that the
-- client prints and the rates in it. Of the kernel the event loop has the open descriptors and
-- the list of epoll. The time-outs and the arrival of one event are one step each, on the thread that
-- also accepts. Tcp.Tests has the run in which a clean-up closes a connection that got its descriptor.
pub mod Prelude
pub mod Common
pub mod OrderBook
pub mod Accounts
pub mod Tickers
pub mod Repositories
pub mod Sql
pub mod Settlement
pub mod Engine
pub mod Processor
pub mod Wal
pub mod Framing
pub mod Ids
pub mod Protocol
pub mod Handlers
pub mod Tcp
pub mod Router
pub mod Main
pub mod Pools
pub mod Logger
pub mod ThreadPool
pub mod MarketData
pub mod Client
