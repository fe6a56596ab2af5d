-- ===== src/Client/Tests.antt =====
-- The client of src/client/client.cpp on small connections.
use exchange_server.Prelude.{
  true, some, ◌==◌, if◌then◌else◌, ℕ, none, List, [], ◌∷◌, ◌++◌, map, ◌≡◌, ◌≤◌, ◌*◌, ◌+◌, refl,
  arith,
}
use exchange_server.Framing.{Packet, Connection, Received, bytes}
use exchange_server.Common.{Order}
use exchange_server.OrderBook.{get_user_active_order}
use exchange_server.OrderBook.Example.{book}
use exchange_server.Handlers.{Session}
use exchange_server.Handlers.Example.{server, session, account}
use exchange_server.Accounts.{UserAccount, UserManager}
use exchange_server.Prelude.Int.{ℤ, pos}
use exchange_server.Tickers.{TickerManager}
use exchange_server.Repositories.{StockRepository}
use exchange_server.Client.View.{view_root_stocks, shown}
use exchange_server.Client.Shows.{SendsAll, view_root_stocks-get_holdings_handler}
use exchange_server.Handlers.Queries.{get_orders_handler}
use exchange_server.Engine.{Engine, engine_user_active_order}
use exchange_server.Client.{Arrived}
use exchange_server.Client.Receive.{Receives, recv_pkt-reply_packet}
use exchange_server.Client.Socket.{Socket, recv_on, orders_in}
use exchange_server.Client.Replies.{ReceivesReply, orders_in-get_orders_handler}
use exchange_server.Client.Worker.{Benchmark, fresh, Report, run_threads, rounds}
use exchange_server.Client.Counts.{run_threads-counts}
use exchange_server.Client.Rounds.{Good}
use exchange_server.Client.Served.{Serves, rounds-Serves}

-- A reply of three bytes that arrives in three pieces, with the start of another one.
abbrev arrived : Arrived
arrived = (0 ∷ 0 ∷ 0 ∷ []) ∷ (3 ∷ 11 ∷ 188 ∷ 7 ∷ []) ∷ (8 ∷ 9 ∷ 0 ∷ 0 ∷ []) ∷ []

recv_pkt-reply_packet_example : Receives arrived 3004 (7 ∷ 8 ∷ 9 ∷ []) (0 ∷ 0 ∷ [])
recv_pkt-reply_packet_example =
    recv_pkt-reply_packet arrived 3003 7 (8 ∷ 9 ∷ []) (0 ∷ 0 ∷ [])
      (omega arith, (omega arith, (omega arith, tt))) refl (omega arith)

-- A connection that sends a request for the market in two calls and gets a reply of one byte.
abbrev socket : Socket
socket = record {
  sends = (4 ∷ 6 ∷ []) ∷ [];
  arrived = (0 ∷ 0 ∷ 0 ∷ 1 ∷ 15 ∷ 164 ∷ 1 ∷ []) ∷ [];
  sent = [];
}

-- The request as it is sent.
abbrev market_bytes : List ℕ
market_bytes = 0 ∷ 0 ∷ 0 ∷ 4 ∷ 15 ∷ 163 ∷ 7 ∷ 0 ∷ 0 ∷ 0 ∷ []

abbrev generator : ℕ → ℕ
generator n = 0

abbrev echo : ℕ → ℕ → List ℕ → List ℕ × ℕ
echo n type payload = (payload, n + 1)

socket-Good : Good (fresh socket)
socket-Good = record { bytes = omega arith; ids = tt }

abbrev connection : Connection ℕ
connection = record { buffer = []; state = 0; sent = [] }

rounds-Serves_example :
    Serves echo
      ((bytes (0 ∷ 0 ∷ 0 ∷ 4 ∷ 15 ∷ []) ∷ []) ∷ (bytes (163 ∷ 7 ∷ 0 ∷ 0 ∷ 0 ∷ []) ∷ []) ∷ [])
      connection
      1
unfolding rounds exchange_server.Client.Worker.attempt exchange_server.Client.Socket.send_on
    exchange_server.Client.send_all exchange_server.Client.Socket.recv_on
    exchange_server.Client.recv_pkt exchange_server.Client.recv_all exchange_server.Framing.read_all
rounds-Serves_example =
    rounds-Serves echo [] generator generator 0 (7 ∷ []) 1 0 (fresh socket) market_bytes
      ((bytes (0 ∷ 0 ∷ 0 ∷ 4 ∷ 15 ∷ []) ∷ []) ∷ (bytes (163 ∷ 7 ∷ 0 ∷ 0 ∷ 0 ∷ []) ∷ []) ∷ [])
      connection tt (omega arith, tt) socket-Good refl refl
      (
        0 ∷ 0 ∷ 0 ∷ 4 ∷ 15 ∷ [],
        163 ∷ 7 ∷ 0 ∷ 0 ∷ 0 ∷ [],
        refl,
        (163 ∷ 7 ∷ 0 ∷ 0 ∷ 0 ∷ [], [], refl, refl, refl),
        refl,
      )
      refl

-- Two threads without a connection.
run_threads-counts_example :
    (let r = run_threads [] (λ i. generator) (λ i. generator) 0 3 (λ i. none) 2 in
      (r.succ + r.failed ≤ 2 * 3) × (r.failed ≡ 0 → r.succ ≡ 2 * 3))
run_threads-counts_example =
    run_threads-counts [] (λ i. generator) (λ i. generator) 0 3 (λ i. none) 2

-- A book in which the user 9 has one order.
abbrev engine : Engine
engine = (1, record { book = book; queue = [] }) ∷ []

abbrev bidder : Session
bidder = record { username = 66 ∷ []; user_id = 9 }

-- The reply with that order, cut after its header.
abbrev orders_reply : List ℕ
orders_reply =
    1 ∷ 1 ∷ 0 ∷ 0 ∷ 0 ∷ 13 ∷ 0 ∷ 0 ∷ 0 ∷ 0 ∷ 0 ∷ 0 ∷ 0 ∷ 1 ∷ 0 ∷ 0 ∷ 0 ∷ 0 ∷ 99 ∷ 0 ∷ 0 ∷ 0 ∷ 0 ∷ 0
    ∷ 0 ∷ 0 ∷ 5 ∷ 0 ∷ 0 ∷ 0 ∷ 0 ∷ 0 ∷ 0 ∷ 0 ∷ []

abbrev answered : Socket
answered = record {
  sends = [];
  arrived = (0 ∷ 0 ∷ 0 ∷ 34 ∷ 15 ∷ 166 ∷ []) ∷ (orders_reply ++ 5 ∷ []) ∷ [];
  sent = [];
}

orders_in-get_orders_handler_example :
    ReceivesReply (get_orders_handler engine bidder [] server).0 (5 ∷ []) (recv_on answered)
    × (orders_in (1 ∷ []) (get_orders_handler engine bidder [] server).0
        ≡ map (λ (o : Order). o.order_id) (engine_user_active_order 9 engine))
unfolding engine_user_active_order get_user_active_order get_orders_handler
orders_in-get_orders_handler_example =
    orders_in-get_orders_handler (1 ∷ []) answered (omega arith, (omega arith, tt)) (5 ∷ []) bidder
      [] server engine refl (omega arith, tt) (omega arith) refl

-- The replies to `view_root_stocks`: the id 9, a stock, and three shares of it.
abbrev view_socket : Socket
view_socket = record {
  sends = (70 ∷ []) ∷ (6 ∷ []) ∷ (6 ∷ []) ∷ [];
  arrived =
      (0 ∷ 0 ∷ 0 ∷ 9 ∷ 3 ∷ 236 ∷ 1 ∷ 9 ∷ 0 ∷ 0 ∷ 0 ∷ 0 ∷ 0 ∷ 0 ∷ 0 ∷ [])
      ∷ (0 ∷ 0 ∷ 0 ∷ 25 ∷ 15 ∷ 172 ∷ 1 ∷ 1 ∷ 0 ∷ 0 ∷ 0 ∷ [])
      ∷ (2 ∷ 0 ∷ 0 ∷ 0 ∷ 65 ∷ 0 ∷ 0 ∷ 0 ∷ 0 ∷ 0 ∷ 0 ∷ 0 ∷ 0 ∷ 0 ∷ 0 ∷ 0 ∷ 0 ∷ 0 ∷ 0 ∷ 0 ∷ [])
      ∷ (0 ∷ 0 ∷ 0 ∷ 13 ∷ 15 ∷ 162 ∷ 1 ∷ 1 ∷ 0 ∷ 0 ∷ 0 ∷ 2 ∷ 0 ∷ 0 ∷ 0 ∷ 3 ∷ 0 ∷ 0 ∷ 0 ∷ 7 ∷ [])
      ∷ [];
  sent = [];
}

abbrev owner : UserAccount
owner = record account { available_stock = (2, pos 3) ∷ [] }

abbrev owners : UserManager
owners i =
    if i == 1
    then record { account = (1, owner) ∷ []; find_account = [] }
    else record { account = []; find_account = [] }

abbrev tickers : TickerManager
tickers = record { symbol_to_id = (65 ∷ [], 2) ∷ []; id_to_symbol = (2, 65 ∷ []) ∷ [] }

abbrev stocks : StockRepository ℤ
stocks = record {
  get_stock_holding = λ name symbol db. pos 0;
  update_stock_holding = λ name symbol delta db. (true, db);
  get_all_holdings = λ name db. [];
  get_all_stocks = λ db. (65 ∷ []) ∷ [];
  deduct_stock_holding = λ name symbol amount db. (true, db);
}

sends_all : SendsAll view_socket
unfolding exchange_server.Client.Socket.send_on exchange_server.Client.send_all recv_on
    exchange_server.Client.recv_pkt exchange_server.Client.recv_all
sends_all = record { sends_login = refl; sends_stocks = refl; sends_holdings = refl }

view_root_stocks-get_holdings_handler_example :
    view_root_stocks [] (some view_socket)
    ≡ shown (record {
      user_id = 9;
      stocks = some (record { ticker_id = 2; symbol = 65 ∷ [] } ∷ []);
      rows = some (record { ticker = 2; symbol = 65 ∷ []; quantity = 3 } ∷ []);
    })
unfolding exchange_server.Tickers.get_ticker_id exchange_server.Prelude.Names.same_name
    exchange_server.Accounts.get_holdings exchange_server.Handlers.Queries.get_holdings_handler
    exchange_server.Handlers.Queries.get_all_stocks_handler
view_root_stocks-get_holdings_handler_example =
    view_root_stocks-get_holdings_handler [] view_socket sends_all (omega arith) 9 (7 ∷ []) stocks
      tickers session [] (record server { accounts = owners }) refl (omega arith) (omega arith)
      (omega arith) (omega arith) (omega arith) refl
