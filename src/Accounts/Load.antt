-- ===== src/Accounts/Load.antt =====
-- `loadAllFromDB` of include/UserManager.hpp. The rows of its two queries are arguments, with their
-- numbers parsed.
use exchange_server.Prelude.{
  ℕ, none, some, List, [], ◌∷◌, ◌==◌, if◌then◌else◌, ◌≡◌, refl, ◌∙◌, ap, arith,
}
use exchange_server.Prelude.Int.{ℤ}
use exchange_server.Prelude.Map.{insert, lookup-insert}
use exchange_server.Prelude.Names.{Name}
use exchange_server.Accounts.{
  UserAccount, UserManager, id_to_mtx, get_account, put_account, add_account, fresh_account,
  get_holdings,
}
use exchange_server.Tickers.{TickerManager, get_ticker_id}

-- `SELECT id, username, balance FROM accounts`
pub load_accounts : List (ℕ × Name × ℤ) → UserManager → UserManager
load_accounts [] m = m
load_accounts ((uid, username, balance) ∷ rows) m =
    load_accounts rows (add_account uid (fresh_account uid username balance) m)

-- A row of the holdings: skipped where its ticker or its account is unknown.
abbrev pub load_holding : TickerManager → ℕ × Name × ℤ → UserManager → UserManager
load_holding t (uid, symbol, quantity) m =
    let ticker = get_ticker_id symbol t in
    elim (get_account uid m) [
      | none ↦ m
      | some a ↦
          if ticker == 0
          then m
          else put_account uid
              (record a { available_stock = insert ticker quantity a.available_stock }) m
    ]

-- `SELECT a.id, h.symbol, h.quantity FROM holdings h JOIN accounts a …`
pub load_holdings : TickerManager → List (ℕ × Name × ℤ) → UserManager → UserManager
load_holdings t [] m = m
load_holdings t (row ∷ rows) m = load_holdings t rows (load_holding t row m)

pub load_all_from_db :
    TickerManager → List (ℕ × Name × ℤ) → List (ℕ × Name × ℤ) → UserManager → UserManager
load_all_from_db t accounts holdings m = load_holdings t holdings (load_accounts accounts m)

-- The managers as the program starts.
abbrev pub no_tickers : TickerManager
no_tickers = record { symbol_to_id = []; id_to_symbol = [] }

abbrev pub no_accounts : UserManager
no_accounts i = record { account = []; find_account = [] }

get_account-add :
    (uid u : ℕ) (a : UserAccount) (m : UserManager)
    → get_account u (add_account uid a m) ≡ (if uid == u then some a else get_account u m)
get_account-add uid u a m = ground (arith, lookup-insert uid u a (m (id_to_mtx uid)).account)

unknown_ticker : (symbol : Name) → get_ticker_id symbol no_tickers ≡ 0
unfolding get_ticker_id
unknown_ticker symbol = refl

load_holding-no_tickers : (row : ℕ × Name × ℤ) (m : UserManager) → load_holding no_tickers row m ≡ m
load_holding-no_tickers (uid, symbol, quantity) m = ground (arith, unknown_ticker symbol)

load_holdings-no_tickers :
    (rows : List (ℕ × Name × ℤ)) (m : UserManager) → load_holdings no_tickers rows m ≡ m
unfolding load_holdings
load_holdings-no_tickers [] m = refl
load_holdings-no_tickers (row ∷ rows) m =
    load_holdings-no_tickers rows (load_holding no_tickers row m) ∙ load_holding-no_tickers row m

load_accounts-holdings :
    (rows : List (ℕ × Name × ℤ)) (m : UserManager)
    → ((u : ℕ) → get_holdings u m ≡ [])
    → (u : ℕ) → get_holdings u (load_accounts rows m) ≡ []
unfolding load_accounts get_holdings
load_accounts-holdings [] m h u = h u
load_accounts-holdings ((uid, username, balance) ∷ rows) m h u =
    load_accounts-holdings rows (add_account uid (fresh_account uid username balance) m)
      (λ v. ground (arith, h v, get_account-add uid v (fresh_account uid username balance) m)) u

-- With no ticker loaded, as when `main` calls it, loading gives no user any holding, whatever the
-- rows of the two tables.
pub load_all_from_db-no_tickers :
    (accounts holdings : List (ℕ × Name × ℤ)) (u : ℕ)
    → get_holdings u (load_all_from_db no_tickers accounts holdings no_accounts) ≡ []
unfolding load_all_from_db get_holdings
load_all_from_db-no_tickers accounts holdings u =
    ap (get_holdings u) (load_holdings-no_tickers holdings (load_accounts accounts no_accounts))
    ∙ load_accounts-holdings accounts no_accounts (λ v. refl) u
