-- ===== src/Sql.antt =====
-- src/server/UserRepositoryImpl.cpp and src/server/StockRepositoryImpl.cpp over a MySQL client, which
-- is a parameter. A connection from the pool is taken to be there.
pub mod Accounts
pub mod Memory
mod Tests
use exchange_server.Prelude.{
  ℕ, Bool, true, false, none, some, Option, List, [], ◌∷◌, ◌++◌, ltb, length, if◌then◌else◌,
}
use exchange_server.Prelude.Int.{ℤ, pos, negsuc}
use exchange_server.Prelude.Names.{Name, NameMap, assign}
use exchange_server.Prelude.Texts.{codes}
use exchange_server.Repositories.{UserRepository, StockRepository}

-- A bound parameter, or a cell of a result.
pub data Value : Type 0 where
  text : Name → Value
  number : ℤ → Value
  null : Value

-- What `mysql_stmt_execute` leaves: whether it returned 0, the affected rows, and the database.
pub record Executed (Db : Type 0) : Type 0 where
  pub ok : Bool
  pub affected : ℕ
  pub db : Db

-- The client library. The first three and `bind_result` say whether the call succeeds; `stored` are
-- the rows of an executed query, none where its execution failed; `query` is `mysql_query` with
-- `mysql_store_result`, and nothing where either fails. `to_double` is the value of an `int64_t` that
-- went through a `double`.
pub record MySql (Db : Type 0) : Type 0 where
  pub stmt_init : Db → Bool
  pub stmt_prepare : Name → Db → Bool
  pub bind_param : Name → List Value → Db → Bool
  pub execute : Name → List Value → Db → Executed Db
  pub bind_result : Name → Db → Bool
  pub stored : Name → List Value → Db → List (List Value)
  pub query : Name → Db → Option (List (List Value))
  pub escape : Name → Name
  pub to_double : ℤ → ℤ

abbrev pub insert_account : Name
insert_account = codes "INSERT INTO accounts (username, password, balance) VALUES (?, ?, 0.00)"

abbrev pub select_login : Name
select_login = codes "SELECT * FROM accounts WHERE username=? AND password=?"

abbrev pub select_balance : Name
select_balance = codes "SELECT balance FROM accounts WHERE username=?"

abbrev pub add_to_balance : Name
add_to_balance = codes "UPDATE accounts SET balance = balance + ? WHERE username = ?"

abbrev pub take_from_balance : Name
take_from_balance =
    codes "UPDATE accounts SET balance = balance - ? WHERE username = ? AND balance >= ?"

abbrev pub select_id : Name → Name
select_id escaped = codes "SELECT id FROM accounts WHERE username='" ++ escaped ++ codes "'"

abbrev pub select_quantity : Name
select_quantity = codes "SELECT quantity FROM holdings WHERE username=? AND symbol=?"

abbrev pub add_to_holding : Name
add_to_holding =
    codes "INSERT INTO holdings (username, symbol, quantity) VALUES (?, ?, ?) "
    ++ codes "ON DUPLICATE KEY UPDATE quantity = quantity + ?"

abbrev pub select_holdings : Name → Name
select_holdings username =
    codes "SELECT symbol, quantity FROM holdings WHERE username = '" ++ username ++ codes "'"

abbrev pub select_symbols : Name
select_symbols = codes "SELECT DISTINCT symbol FROM holdings"

abbrev pub take_from_holding : Name
take_from_holding =
    codes "UPDATE holdings SET quantity = quantity - ? "
    ++ codes "WHERE username = ? AND symbol = ? AND quantity >= ?"

-- The number in the first cell of a row, 0 where there is none.
abbrev pub first_number : List Value → ℤ
first_number [] = pos 0
first_number (text t ∷ vs) = pos 0
first_number (number n ∷ vs) = n
first_number (null ∷ vs) = pos 0

-- `std::stoull(row[0])`
abbrev pub to_id : ℤ → ℕ
to_id (pos n) = n
to_id (negsuc n) = 0

abbrev pub first_id : List (List Value) → ℕ
first_id [] = 0
first_id (row ∷ rows) = to_id (first_number row)

-- `h_json[row[0]] = std::stoi(row[1])` where both cells are there.
abbrev pub add_holding : List Value → NameMap ℤ → NameMap ℤ
add_holding (text s ∷ number q ∷ vs) m = assign s q m
add_holding vs m = m

pub holdings_of : List (List Value) → NameMap ℤ → NameMap ℤ
holdings_of [] m = m
holdings_of (row ∷ rows) m = holdings_of rows (add_holding row m)

pub symbols_of : List (List Value) → List Name
symbols_of [] = []
symbols_of ((text s ∷ vs) ∷ rows) = s ∷ symbols_of rows
symbols_of (vs ∷ rows) = symbols_of rows

module _ {Db : Type 0} (c : MySql Db) where
  -- `mysql_stmt_init` and `mysql_stmt_prepare`, which every prepared statement starts with.
  abbrev pub prepared : Name → Db → Bool
  prepared sql db = if c.stmt_init db then c.stmt_prepare sql db else false

  pub register_user : Name → Name → Db → Bool × Db
  register_user username password db =
      let params = text username ∷ text password ∷ [] in
      let e = c.execute insert_account params db in
      if prepared insert_account db
      then (if c.bind_param insert_account params db then (e.ok, e.db) else (false, db))
      else (false, db)

  pub check_login : Name → Name → Db → Bool
  check_login username password db =
      if prepared select_login db
      then ltb 0 (length (c.stored select_login (text username ∷ text password ∷ []) db))
      else false

  abbrev pub fetched_balance : List (List Value) → ℤ
  fetched_balance [] = negsuc 0
  fetched_balance (row ∷ rows) = c.to_double (first_number row)

  pub get_balance : Name → Db → ℤ
  get_balance username db =
      if prepared select_balance db
      then fetched_balance (c.stored select_balance (text username ∷ []) db)
      else negsuc 0

  pub update_balance : Name → ℤ → Db → Bool × Db
  update_balance username amount db =
      let e = c.execute add_to_balance (number amount ∷ text username ∷ []) db in
      if prepared add_to_balance db then (e.ok, e.db) else (false, db)

  pub deduct_balance : Name → ℤ → Db → Bool × Db
  deduct_balance username amount db =
      let e = c.execute take_from_balance (number amount ∷ text username ∷ number amount ∷ []) db in
      if prepared take_from_balance db then (ltb 0 e.affected, e.db) else (false, db)

  pub get_user_id : Name → Db → ℕ
  get_user_id username db = elim (c.query (select_id (c.escape username)) db) [
    | none ↦ 0
    | some rows ↦ first_id rows
  ]

  abbrev pub fetched_quantity : List (List Value) → ℤ
  fetched_quantity [] = pos 0
  fetched_quantity (row ∷ rows) = first_number row

  pub get_stock_holding : Name → Name → Db → ℤ
  get_stock_holding username symbol db =
      let params = text username ∷ text symbol ∷ [] in
      if prepared select_quantity db
      then (if c.bind_param select_quantity params db
          then (if (c.execute select_quantity params db).ok
              then (if c.bind_result select_quantity db
                  then fetched_quantity (c.stored select_quantity params db)
                  else pos 0)
              else pos 0)
          else pos 0)
      else pos 0

  pub update_stock_holding : Name → Name → ℤ → Db → Bool × Db
  update_stock_holding username symbol delta db =
      let e =
        c.execute add_to_holding (text username ∷ text symbol ∷ number delta ∷ number delta ∷ [])
          db in
      if prepared add_to_holding db then (e.ok, e.db) else (false, db)

  -- The name stands in the text of the query as it is.
  pub get_all_holdings : Name → Db → NameMap ℤ
  get_all_holdings username db = elim (c.query (select_holdings username) db) [
    | none ↦ []
    | some rows ↦ holdings_of rows []
  ]

  pub get_all_stocks : Db → List Name
  get_all_stocks db = elim (c.query select_symbols db) [ none ↦ [] | some rows ↦ symbols_of rows ]

  pub deduct_stock_holding : Name → Name → ℤ → Db → Bool × Db
  deduct_stock_holding username symbol amount db =
      let params = number amount ∷ text username ∷ text symbol ∷ number amount ∷ [] in
      let e = c.execute take_from_holding params db in
      if prepared take_from_holding db then (ltb 0 e.affected, e.db) else (false, db)

  -- The two implementations of the interfaces.
  abbrev pub user_repository : UserRepository Db
  user_repository = record {
    register_user = register_user;
    check_login = check_login;
    get_balance = get_balance;
    update_balance = update_balance;
    deduct_balance = deduct_balance;
    get_user_id = get_user_id;
  }

  abbrev pub stock_repository : StockRepository Db
  stock_repository = record {
    get_stock_holding = get_stock_holding;
    update_stock_holding = update_stock_holding;
    get_all_holdings = get_all_holdings;
    get_all_stocks = get_all_stocks;
    deduct_stock_holding = deduct_stock_holding;
  }
