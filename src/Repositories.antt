-- ===== src/Repositories.antt =====
-- include/Repositories.h: the two interfaces to the database, over an abstract database state.
pub mod Contract
use exchange_server.Prelude.{ℕ, Bool, List}
use exchange_server.Prelude.Int.{ℤ}
use exchange_server.Prelude.Names.{Name}

pub record UserRepository (Db : Type 0) : Type 0 where
  pub register_user : Name → Name → Db → Bool × Db
  pub check_login : Name → Name → Db → Bool
  pub get_balance : Name → Db → ℤ
  pub update_balance : Name → ℤ → Db → Bool × Db
  pub deduct_balance : Name → ℤ → Db → Bool × Db
  pub get_user_id : Name → Db → ℕ

pub record StockRepository (Db : Type 0) : Type 0 where
  pub get_stock_holding : Name → Name → Db → ℤ
  pub update_stock_holding : Name → Name → ℤ → Db → Bool × Db
  pub get_all_holdings : Name → Db → List (Name × ℤ)
  pub get_all_stocks : Db → List Name
  pub deduct_stock_holding : Name → Name → ℤ → Db → Bool × Db
