-- ===== src/Main.antt =====
-- `main` of src/server/main.cpp: what is registered where, and the books that are started. The
-- singletons are fields of one record.
pub mod Start
pub mod Books
mod Tests
use exchange_server.Prelude.{ℕ, none, some, List, [], ◌∷◌}
use exchange_server.Prelude.Map.{Map, lookup, insert}
use exchange_server.Prelude.Int.{ℤ}
use exchange_server.Prelude.Names.{Name}
use exchange_server.OrderBook.{Store}
use exchange_server.Accounts.{UserManager}
use exchange_server.Accounts.Load.{load_all_from_db, no_accounts, no_tickers}
use exchange_server.Tickers.{TickerManager, load_all_tickers, get_all_ticker_ids}
use exchange_server.Repositories.{UserRepository, StockRepository}
use exchange_server.Engine.{Engine, init}
use exchange_server.Handlers.{
  Handler, login_handler, register_user_handler, exit_handler, get_balance_handler, deposit_handler,
  trade_handler, cancel_order_handler,
}
use exchange_server.Handlers.Queries.{
  NewsTemplate, get_holdings_handler, get_market_handler, get_news_handler, get_trend_handler,
  get_orders_handler, get_all_stocks_handler,
}
use exchange_server.Router.{Router, register_handler}

-- The requests of `MsgType`, and their numbers.
pub data MsgType : Type 0 where
  register_req login_req logout_req deposit_req balance_req trade_req cancel_req : MsgType
  holdings_req market_req orders_req trend_req news_req all_stocks_req : MsgType

abbrev pub code : MsgType → ℕ
code register_req = 1001
code login_req = 1003
code logout_req = 1005
code deposit_req = 2001
code balance_req = 2003
code trade_req = 3001
code cancel_req = 3003
code holdings_req = 4001
code market_req = 4003
code orders_req = 4005
code trend_req = 4007
code news_req = 4009
code all_stocks_req = 4011

-- What the handlers are made of, and what they read from outside.
pub record Parts (Db : Type 0) : Type 0 where
  pub users : UserRepository Db
  pub stocks : StockRepository Db
  pub tickers : TickerManager
  pub engine : Engine
  pub clock_ms : ℕ → ℕ
  pub clock : ℕ → ℕ
  pub rubbish : ℕ
  pub prices : ℕ → List ℕ
  pub time : ℕ
  pub shuffled : List NewsTemplate

-- The global `g_router`, and the object that `Router::getInstance()` returns.
pub record Routers (Db : Type 0) : Type 0 where
  pub g_router : Router Db
  pub instance_router : Router Db

module _ {Db : Type 0} where
  -- The calls of `g_router.registerHandler`, the last one outermost.
  pub register_all : Parts Db → Router Db → Router Db
  register_all x r =
      register_handler (code all_stocks_req) (get_all_stocks_handler x.stocks x.tickers) (
        register_handler (code cancel_req) cancel_order_handler (
          register_handler (code orders_req) (get_orders_handler x.engine) (
            register_handler (code trend_req) (get_trend_handler x.prices) (
              register_handler (code news_req) (get_news_handler x.time x.shuffled) (
                register_handler (code market_req) (get_market_handler x.engine) (
                  register_handler (code holdings_req) get_holdings_handler (
                    register_handler (code trade_req) (trade_handler x.clock_ms x.clock) (
                      register_handler (code deposit_req) (deposit_handler x.users) (
                        register_handler (code balance_req) get_balance_handler (
                          register_handler (code logout_req) exit_handler (
                            register_handler (code register_req) (register_user_handler x.users) (
                              register_handler (code login_req) (login_handler x.users x.rubbish)
                                r))))))))))))

  -- The routers when the server starts to listen.
  pub started_routers : Parts Db → Routers Db
  started_routers x = record { g_router = register_all x []; instance_router = [] }

-- `for (auto id : all_ticker_ids) engine->init(id);`
pub init_all : Store → List ℕ → Engine → Engine
init_all s [] e = e
init_all s (id ∷ ids) e = init_all s ids (init s id e)

pub record Started : Type 0 where
  pub accounts : UserManager
  pub tickers : TickerManager
  pub engine : Engine

-- The start of `main` up to the engine: the accounts, then the tickers, then the books. The rows of
-- the three tables are arguments.
pub start : Store → List (ℕ × Name × ℤ) → List (ℕ × Name × ℤ) → List (ℕ × Name) → Started
start s account_rows holding_rows ticker_rows =
    let t = load_all_tickers ticker_rows no_tickers in
    record {
      accounts = load_all_from_db no_tickers account_rows holding_rows no_accounts;
      tickers = t;
      engine = init_all s (get_all_ticker_ids t) [];
    }
