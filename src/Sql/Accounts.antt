-- ===== src/Sql/Accounts.antt =====
-- src/server/UserRepositoryImpl.cpp implements what include/Repositories.h promises, on a server that
-- answers.
use exchange_server.Prelude.{
  ℕ, ◌-◌, ◌^◌, Bool, true, false, Option, none, some, List, [], ◌∷◌, ltb, length, if◌then◌else◌,
  ◌≡◌, refl, ◌∙◌, ap,
}
use exchange_server.Prelude.Int.{ℤ, pos, negsuc, ◌≤ℤ◌}
use exchange_server.Prelude.Names.{Name, same_name}
use exchange_server.Repositories.Contract.{
  AccountRow, credited, debited, covers, is_free, has_password, id_of, opened, IsUserRepository,
}
use exchange_server.Sql.{
  Value, text, number, MySql, insert_account, select_login, select_balance, add_to_balance,
  take_from_balance, select_id, prepared, first_id, register_user, check_login, get_balance,
  update_balance, deduct_balance, get_user_id, user_repository,
}

-- The rows of a query for one column of an account, and the count of a statement's affected rows.
abbrev pub balance_rows : Option AccountRow → List (List Value)
balance_rows none = []
balance_rows (some a) = (number a.balance ∷ []) ∷ []

abbrev pub id_rows : Option AccountRow → List (List Value)
id_rows none = []
id_rows (some a) = (number (pos a.id) ∷ []) ∷ []

abbrev pub affected_rows : Bool → ℕ
affected_rows true = 1
affected_rows false = 0

-- A server that accepts every statement and does to the table `accounts` what the statements say,
-- with `username` as a unique key and `id` counted up; a `double` holds integers up to 2^53.
pub record IsServer {Db : Type 0} (c : MySql Db) (account : Name → Db → Option AccountRow)
    (new_id : Db → ℕ) : Type 0 where
  pub up : (sql : Name) (db : Db) → prepared c sql db ≡ true
  pub binds : (sql : Name) (params : List Value) (db : Db) → c.bind_param sql params db ≡ true
  pub insert_ok :
      (n p : Name) (db : Db)
      → (c.execute insert_account (text n ∷ text p ∷ []) db).ok ≡ is_free (account n db)
  pub insert_rows :
      (n p u : Name) (db : Db)
      → account u (c.execute insert_account (text n ∷ text p ∷ []) db).db
        ≡ (if same_name n u then opened (new_id db) p (account u db) else account u db)
  pub login_rows :
      (n p : Name) (db : Db)
      → length (c.stored select_login (text n ∷ text p ∷ []) db)
        ≡ affected_rows (has_password p (account n db))
  pub balance_stored :
      (n : Name) (db : Db) → c.stored select_balance (text n ∷ []) db ≡ balance_rows (account n db)
  pub add_ok :
      (n : Name) (x : ℤ) (db : Db)
      → (c.execute add_to_balance (number x ∷ text n ∷ []) db).ok ≡ true
  pub add_rows :
      (n u : Name) (x : ℤ) (db : Db)
      → account u (c.execute add_to_balance (number x ∷ text n ∷ []) db).db
        ≡ (if same_name n u then credited x (account u db) else account u db)
  pub take_affected :
      (n : Name) (x : ℤ) (db : Db)
      → (c.execute take_from_balance (number x ∷ text n ∷ number x ∷ []) db).affected
        ≡ affected_rows (covers x (account n db))
  pub take_rows :
      (n u : Name) (x : ℤ) (db : Db)
      → account u (c.execute take_from_balance (number x ∷ text n ∷ number x ∷ []) db).db
        ≡ (if same_name n u then debited x (account u db) else account u db)
  pub id_query :
      (n : Name) (db : Db) → c.query (select_id (c.escape n)) db ≡ some (id_rows (account n db))
  pub exact : (x : ℤ) → negsuc (2 ^ 53 - 1) ≤ℤ x → x ≤ℤ pos (2 ^ 53) → c.to_double x ≡ x

first_id-rows : (o : Option AccountRow) → first_id (id_rows o) ≡ id_of o
first_id-rows none = refl
first_id-rows (some a) = refl

positive_affected : (b : Bool) → ltb 0 (affected_rows b) ≡ b
positive_affected true = refl
positive_affected false = refl

module _ {Db : Type 0} (c : MySql Db) (account : Name → Db → Option AccountRow) (new_id : Db → ℕ)
    (s : IsServer c account new_id) where
  register_user-up :
      (n p : Name) (db : Db)
      → register_user c n p db
        ≡ (let e = c.execute insert_account (text n ∷ text p ∷ []) db in (e.ok, e.db))
  unfolding register_user
  register_user-up n p db =
      rw (register_user, s.up insert_account db, s.binds insert_account (text n ∷ text p ∷ []) db)
        refl

  update_balance-up :
      (n : Name) (x : ℤ) (db : Db)
      → update_balance c n x db
        ≡ (let e = c.execute add_to_balance (number x ∷ text n ∷ []) db in (e.ok, e.db))
  unfolding update_balance
  update_balance-up n x db = rw (update_balance, s.up add_to_balance db) refl

  deduct_balance-up :
      (n : Name) (x : ℤ) (db : Db)
      → deduct_balance c n x db ≡ (
          let e = c.execute take_from_balance (number x ∷ text n ∷ number x ∷ []) db in
          (ltb 0 e.affected, e.db))
  unfolding deduct_balance
  deduct_balance-up n x db = rw (deduct_balance, s.up take_from_balance db) refl

  check_login-up : (n p : Name) (db : Db) → check_login c n p db ≡ has_password p (account n db)
  unfolding check_login
  check_login-up n p db =
      rw (check_login, s.up select_login db, s.login_rows n p db) (positive_affected _)

  get_balance-up :
      (n : Name) (a : AccountRow) (db : Db)
      → account n db ≡ some a
      → get_balance c n db ≡ c.to_double a.balance
  unfolding get_balance
  get_balance-up n a db h = rw (get_balance, s.up select_balance db, s.balance_stored n db, h) refl

  get_user_id-up : (n : Name) (db : Db) → get_user_id c n db ≡ id_of (account n db)
  unfolding get_user_id
  get_user_id-up n db = rw (get_user_id, s.id_query n db) (first_id-rows (account n db))

  -- On a server that accepts the statements and runs them on its table of accounts, the repository
  -- keeps every promise of the interface: it registers a free name and no other, knows a login by
  -- its password, adds and deducts at one name only, and deducts only what the balance covers.
  pub user_repository-IsUserRepository : IsUserRepository (user_repository c) account new_id
  user_repository-IsUserRepository = record {
    register_answer = λ n p db. ap (λ r. r.0) (register_user-up n p db) ∙ s.insert_ok n p db;
    register_rows =
        λ n p u db. ap (λ r. account u r.1) (register_user-up n p db) ∙ s.insert_rows n p u db;
    login_answer = check_login-up;
    balance_answer = λ n a db h lo hi. get_balance-up n a db h ∙ s.exact a.balance lo hi;
    update_answer = λ n x db. ap (λ r. r.0) (update_balance-up n x db) ∙ s.add_ok n x db;
    update_rows =
        λ n u x db. ap (λ r. account u r.1) (update_balance-up n x db) ∙ s.add_rows n u x db;
    deduct_answer = λ n x db.
        ap (λ r. r.0) (deduct_balance-up n x db)
        ∙ ap (λ k. ltb 0 k) (s.take_affected n x db)
        ∙ positive_affected (covers x (account n db));
    deduct_rows =
        λ n u x db. ap (λ r. account u r.1) (deduct_balance-up n x db) ∙ s.take_rows n u x db;
    id_answer = get_user_id-up;
  }
