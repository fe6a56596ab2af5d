-- ===== src/Handlers.antt =====
-- include/Handler.hpp and the session of include/Router.hpp. A handler takes the session, the payload
-- and the server's state to the reply and to the two next states.
pub mod Queries
pub mod Trade
pub mod Login
pub mod Example
mod Tests
use exchange_server.Prelude.{
  ℕ, ◌+◌, ◌==◌, Bool, true, false, Option, none, some, List, [], ◌∷◌, ◌++◌, length, map, ltb, leb,
  if◌then◌else◌,
}
use exchange_server.Prelude.Int.{ℤ, pos, negsuc, leb_ℤ}
use exchange_server.Prelude.Words.{as_int64, as_int32, mul64}
use exchange_server.Prelude.Names.{Name}
use exchange_server.Prelude.Bytes.{from_le, to_le}
use exchange_server.Common.{OrderSide, buy, sell, Order}
use exchange_server.OrderBook.{Store}
use exchange_server.Accounts.{
  UserManager, get_id, create_user_account, try_freeze_balance, try_freeze_stock, add_balance,
  get_holdings,
}
use exchange_server.Accounts
use exchange_server.Tickers.{TickerManager, get_ticker_id}
use exchange_server.Repositories.{UserRepository, StockRepository}
use exchange_server.Engine.{EngineEvent, Engine, engine_best_bid_offer, engine_user_active_order}
use exchange_server.Wal.{append_order, append_cancel}
use exchange_server.Ids.{generate}
use exchange_server.Protocol

-- `Session` without its descriptor and its buffer.
pub record Session : Type 0 where
  pub username : Name
  pub user_id : ℕ

-- What the handlers share: the accounts, the database, the queue of the log, the orders made so far,
-- the counter of the generator, and how often a clock was read.
pub record Server (Db : Type 0) : Type 0 where
  pub accounts : UserManager
  pub db : Db
  pub log : List EngineEvent
  pub store : Store
  pub next : ℕ
  pub sequence : ℕ
  pub ticks : ℕ

abbrev pub Handler : Type 0 → Type 0
Handler Db = Session → List ℕ → Server Db → List ℕ × Session × Server Db

abbrev pub is_logged_in : Session → Bool
is_logged_in s = elim s.username [ [] ↦ false | c ∷ cs ↦ true ]

module _ {Db : Type 0} (users : UserRepository Db) where
  -- The account of a user who logs in, made where it is missing: its id, and the accounts.
  abbrev pub login_account : Name → Server Db → ℕ × UserManager
  login_account username w =
      let id = get_id username w.accounts in
      let db_id = users.get_user_id username w.db in
      if id == 0
      then (
        db_id,
        (if db_id == 0 then w.accounts else create_user_account db_id username w.accounts),
      )
      else (id, w.accounts)

  -- `rubbish` is what the response held before it was filled.
  pub login_handler : ℕ → Handler Db
  login_handler rubbish s req w =
      let a = Protocol.auth_request req in
      let r = login_account a.username w in
      if ltb (length req) Protocol.auth_request_size
      then ([], s, w)
      else if users.check_login a.username a.password w.db
      then (
        Protocol.value_response 1 r.0,
        record { username = a.username; user_id = r.0 },
        record w { accounts = r.1 },
      )
      else (Protocol.value_response 0 rubbish, s, w)

  pub register_user_handler : Handler Db
  register_user_handler s req w =
      let a = Protocol.auth_request req in
      let r = users.register_user a.username a.password w.db in
      let id = users.get_user_id a.username r.1 in
      if ltb (length req) Protocol.auth_request_size
      then ([], s, w)
      else if r.0
      then (
        Protocol.value_response 1 id,
        record { username = a.username; user_id = id },
        record w { accounts = create_user_account id a.username w.accounts; db = r.1 },
      )
      else (Protocol.value_response 0 0, s, record w { db = r.1 })

  -- The database first, then the account in memory.
  pub deposit_handler : Handler Db
  deposit_handler s req w =
      let amount = as_int64 (Protocol.field 0 8 req) in
      let r = users.update_balance s.username amount w.db in
      if is_logged_in s
      then if ltb (length req) Protocol.deposit_request_size
        then ([], s, w)
        else if leb_ℤ amount (pos 0)
        then (Protocol.value_response 0 0, s, w)
        else if r.0
        then (
          Protocol.value_response 1 (Protocol.as_uint64 (users.get_balance s.username r.1)),
          s,
          record w { accounts = add_balance s.user_id amount w.accounts; db = r.1 },
        )
        else (Protocol.value_response 0 0, s, record w { db = r.1 })
      else (Protocol.value_response 0 0, s, w)

-- `(req->side == 0) ? BUY : SELL`
abbrev pub side_of : ℕ → OrderSide
side_of side = if side == 0 then buy else sell

-- The freeze that an order needs.
abbrev pub freeze_order : OrderSide → ℕ → Protocol.TradeRequest → UserManager → Bool × UserManager
freeze_order buy uid r = try_freeze_balance uid (as_int64 (mul64 r.price r.amount))
freeze_order sell uid r = try_freeze_stock uid r.ticker_id (as_int32 r.amount)

module _ {Db : Type 0} where
  pub exit_handler : Handler Db
  exit_handler s req w =
      if is_logged_in s
      then (Protocol.generic_response 1, record s { username = [] }, w)
      else (Protocol.generic_response 0, s, w)

  pub get_balance_handler : Handler Db
  get_balance_handler s req w =
      if is_logged_in s
      then (
        Protocol.value_response 1 (Protocol.as_uint64 (Accounts.get_balance s.user_id w.accounts)),
        s,
        w,
      )
      else (Protocol.value_response 0 0, s, w)

  pub cancel_order_handler : Handler Db
  cancel_order_handler s req w =
      let r = Protocol.cancel_request req in
      if is_logged_in s
      then if ltb (length req) Protocol.cancel_request_size then ([], s, w) else (
        Protocol.generic_response 1,
        s,
        record w { log = append_cancel r.ticker_id r.order_id s.user_id w.log },
      )
      else (Protocol.generic_response 0, s, w)

  -- The n-th reading of the clock, in milliseconds and in the clock's own unit.
  module _ (now_ms now : ℕ → ℕ) where
    abbrev pub new_order : Session → Protocol.TradeRequest → Server Db → Order
    new_order s r w = record {
      order_id = (generate (now_ms w.ticks) w.sequence).0;
      ticker_id = r.ticker_id;
      user_id = s.user_id;
      side = side_of r.side;
      price = r.price;
      quantity = r.amount;
      timestamp = now (w.ticks + 1);
    }

    -- `make_shared<Order>()`, filled: a new address.
    abbrev pub make_order : Order → Server Db → Server Db
    make_order o w = record w {
      store = λ q. if q == w.next then o else w.store q;
      next = w.next + 1;
      sequence = (generate (now_ms w.ticks) w.sequence).1;
      ticks = w.ticks + 2;
    }

    pub trade_handler : Handler Db
    trade_handler s req w =
        let r = Protocol.trade_request req in
        let o = new_order s r w in
        let c = make_order o w in
        let f = freeze_order o.side s.user_id r w.accounts in
        if is_logged_in s
        then if ltb (length req) Protocol.trade_request_size
          then ([], s, w)
          else if f.0
          then (
            Protocol.generic_response 1,
            s,
            record c { accounts = f.1; log = append_order w.next w.log },
          )
          else (Protocol.generic_response 0, s, record c { accounts = f.1 })
        else (Protocol.generic_response 0, s, w)
