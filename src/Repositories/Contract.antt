-- ===== src/Repositories/Contract.antt =====
-- What include/Repositories.h promises of the accounts in a database, by name.
use exchange_server.Prelude.{ℕ, ◌-◌, ◌^◌, Bool, true, false, Option, none, some, if◌then◌else◌, ◌≡◌}
use exchange_server.Prelude.Int.{ℤ, pos, negsuc, ◌+ℤ◌, ◌-ℤ◌, ◌≤ℤ◌, leb_ℤ}
use exchange_server.Prelude.Names.{Name, same_name}
use exchange_server.Repositories.{UserRepository}

pub record AccountRow : Type 0 where
  pub id : ℕ
  pub password : Name
  pub balance : ℤ

abbrev pub credited : ℤ → Option AccountRow → Option AccountRow
credited x none = none
credited x (some a) = some (record a { balance = a.balance +ℤ x })

abbrev pub debited : ℤ → Option AccountRow → Option AccountRow
debited x none = none
debited x (some a) = some (if leb_ℤ x a.balance then record a { balance = a.balance -ℤ x } else a)

abbrev pub covers : ℤ → Option AccountRow → Bool
covers x none = false
covers x (some a) = leb_ℤ x a.balance

abbrev pub is_free : Option AccountRow → Bool
is_free none = true
is_free (some a) = false

abbrev pub has_password : Name → Option AccountRow → Bool
has_password p none = false
has_password p (some a) = same_name a.password p

abbrev pub id_of : Option AccountRow → ℕ
id_of none = 0
id_of (some a) = a.id

-- The row that a registration makes.
abbrev pub opened : ℕ → Name → Option AccountRow → Option AccountRow
opened id p none = some (record { id = id; password = p; balance = pos 0 })
opened id p (some a) = some a

-- `account` is the row of a name, and `new_id` the next id.
pub record IsUserRepository {Db : Type 0} (r : UserRepository Db)
    (account : Name → Db → Option AccountRow) (new_id : Db → ℕ) : Type 0 where
  pub register_answer : (n p : Name) (db : Db) → (r.register_user n p db).0 ≡ is_free (account n db)
  pub register_rows :
      (n p u : Name) (db : Db)
      → account u (r.register_user n p db).1
        ≡ (if same_name n u then opened (new_id db) p (account u db) else account u db)
  pub login_answer : (n p : Name) (db : Db) → r.check_login n p db ≡ has_password p (account n db)
  pub balance_answer :
      (n : Name) (a : AccountRow) (db : Db)
      → account n db ≡ some a
      → negsuc (2 ^ 53 - 1) ≤ℤ a.balance
      → a.balance ≤ℤ pos (2 ^ 53)
      → r.get_balance n db ≡ a.balance
  pub update_answer : (n : Name) (x : ℤ) (db : Db) → (r.update_balance n x db).0 ≡ true
  pub update_rows :
      (n u : Name) (x : ℤ) (db : Db)
      → account u (r.update_balance n x db).1
        ≡ (if same_name n u then credited x (account u db) else account u db)
  pub deduct_answer :
      (n : Name) (x : ℤ) (db : Db) → (r.deduct_balance n x db).0 ≡ covers x (account n db)
  pub deduct_rows :
      (n u : Name) (x : ℤ) (db : Db)
      → account u (r.deduct_balance n x db).1
        ≡ (if same_name n u then debited x (account u db) else account u db)
  pub id_answer : (n : Name) (db : Db) → r.get_user_id n db ≡ id_of (account n db)
