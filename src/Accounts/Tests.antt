-- ===== src/Accounts/Tests.antt =====
-- Loading a table with one user and one holding.
use exchange_server.Prelude.{ℕ, List, [], ◌∷◌, ◌≡◌}
use exchange_server.Prelude.Int.{ℤ, pos}
use exchange_server.Prelude.Names.{Name}
use exchange_server.Accounts.{get_holdings}
use exchange_server.Accounts.Load.{
  load_all_from_db, no_tickers, no_accounts, load_all_from_db-no_tickers,
}

abbrev account_rows : List (ℕ × Name × ℤ)
account_rows = (1, 65 ∷ [], pos 2000) ∷ []

abbrev holding_rows : List (ℕ × Name × ℤ)
holding_rows = (1, 66 ∷ [], pos 50) ∷ []

load_all_from_db-no_tickers_example :
    get_holdings 1 (load_all_from_db no_tickers account_rows holding_rows no_accounts) ≡ []
load_all_from_db-no_tickers_example = load_all_from_db-no_tickers account_rows holding_rows 1
