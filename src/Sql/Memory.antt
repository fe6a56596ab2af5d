-- ===== src/Sql/Memory.antt =====
-- A table of accounts in memory that runs the statements of src/server/UserRepositoryImpl.cpp.
use exchange_server.Prelude.{
  ℕ, ◌+◌, Bool, true, false, Option, none, some, List, [], ◌∷◌, ◌++◌, length, if◌then◌else◌, ◌≡◌,
  refl, ◌∙◌, ap, Option-cases, Bool-cases, inl, inr, subst,
}
use exchange_server.Prelude.Int.{ℤ}
use exchange_server.Prelude.Names.{
  Name, NameMap, same_name, same_name_refl, same_name-eq, find, assign, find-assign,
}
use exchange_server.Prelude.Bytes.{drop}
use exchange_server.Repositories.Contract.{
  AccountRow, credited, debited, covers, is_free, has_password, opened,
}
use exchange_server.Sql.{
  Value, text, number, null, Executed, MySql, insert_account, select_login, select_balance,
  add_to_balance, take_from_balance,
}
use exchange_server.Sql.Accounts.{balance_rows, id_rows, affected_rows, IsServer}

abbrev pub Table : Type 0
Table = NameMap AccountRow

abbrev failed : Table → Executed Table
failed db = record { ok = false; affected = 0; db = db }

-- Writing a row back, where there is one.
abbrev put : Name → Option AccountRow → Table → Table
put n none db = db
put n (some a) db = assign n a db

abbrev run_insert : List Value → Table → Executed Table
run_insert (text n ∷ text p ∷ []) db = record {
  ok = is_free (find n db);
  affected = affected_rows (is_free (find n db));
  db = put n (opened (length db + 1) p (find n db)) db;
}
run_insert params db = failed db

abbrev run_add : List Value → Table → Executed Table
run_add (number x ∷ text n ∷ []) db = record {
  ok = true;
  affected = 1;
  db = put n (credited x (find n db)) db;
}
run_add params db = failed db

abbrev run_take : List Value → Table → Executed Table
run_take (number x ∷ text n ∷ number y ∷ []) db = record {
  ok = true;
  affected = affected_rows (covers x (find n db));
  db = put n (debited x (find n db)) db;
}
run_take params db = failed db

unfoldable pub run : Name → List Value → Table → Executed Table
run sql params db =
    if same_name sql insert_account
    then run_insert params db
    else if same_name sql add_to_balance
    then run_add params db
    else if same_name sql take_from_balance
    then run_take params db
    else failed db

abbrev login_found : Bool → List (List Value)
login_found true = (null ∷ []) ∷ []
login_found false = []

abbrev read_login : List Value → Table → List (List Value)
read_login (text n ∷ text p ∷ []) db = login_found (has_password p (find n db))
read_login params db = []

abbrev read_balance : List Value → Table → List (List Value)
read_balance (text n ∷ []) db = balance_rows (find n db)
read_balance params db = []

unfoldable pub read : Name → List Value → Table → List (List Value)
read sql params db =
    if same_name sql select_login
    then read_login params db
    else if same_name sql select_balance
    then read_balance params db
    else []

-- The name in a query for an id: what stands between the first 40 bytes and the last one.
abbrev but_last : Name → Name
but_last [] = []
but_last (c ∷ []) = []
but_last (c ∷ d ∷ cs) = c ∷ but_last (d ∷ cs)

unfoldable pub ask : Name → Table → Option (List (List Value))
ask sql db = some (id_rows (find (but_last (drop 40 sql)) db))

abbrev pub memory : MySql Table
memory = record {
  stmt_init = λ db. true;
  stmt_prepare = λ sql db. true;
  bind_param = λ sql params db. true;
  execute = run;
  bind_result = λ sql db. true;
  stored = read;
  query = ask;
  escape = λ n. n;
  to_double = λ x. x;
}

but_last-snoc : (n : Name) (c : ℕ) → but_last (n ++ c ∷ []) ≡ n
but_last-snoc [] c = refl
but_last-snoc (d ∷ []) c = refl
but_last-snoc (d ∷ e ∷ n) c = ap (λ m. d ∷ m) (but_last-snoc (e ∷ n) c)

find-own :
    (f : Option AccountRow → Option AccountRow)
    → ((o : Option AccountRow) → f o ≡ none → o ≡ none)
    → (n : Name) (db : Table)
    → find n (put n (f (find n db)) db) ≡ (if same_name n n then f (find n db) else find n db)
find-own f keeps n db = elim (Option-cases (f (find n db))) [
  | inl m ↦ rw (same_name_refl n, m) (keeps (find n db) m)
  | inr (a, m) ↦ rw (same_name_refl n, m) (find-assign n n a db ∙ rw (same_name_refl n) refl)
]

opened-keeps : (id : ℕ) (p : Name) (o : Option AccountRow) → opened id p o ≡ none → o ≡ none
opened-keeps id p none h = refl
opened-keeps id p (some a) h = h

credited-keeps : (x : ℤ) (o : Option AccountRow) → credited x o ≡ none → o ≡ none
credited-keeps x none h = refl
credited-keeps x (some a) h = cc

debited-keeps : (x : ℤ) (o : Option AccountRow) → debited x o ≡ none → o ≡ none
debited-keeps x none h = refl
debited-keeps x (some a) h = cc

-- Changing the row of a name, by a change that removes no row.
find-put :
    (f : Option AccountRow → Option AccountRow)
    → ((o : Option AccountRow) → f o ≡ none → o ≡ none)
    → (n u : Name) (db : Table)
    → find u (put n (f (find n db)) db) ≡ (if same_name n u then f (find u db) else find u db)
find-put f keeps n u db = elim (Bool-cases (same_name n u)) [
  | inl e ↦
      let s = same_name-eq n u e in
      subst
        (λ v.
          find v (put n (f (find n db)) db) ≡ (if same_name n v then f (find v db) else find v db))
        s (find-own f keeps n db)
  | inr e ↦ elim (Option-cases (f (find n db))) [
    | inl m ↦ rw (e, m) refl
    | inr (a, m) ↦ rw (e, m) (find-assign n u a db ∙ rw e refl)
  ]
]

login_found_lem : (b : Bool) → length (login_found b) ≡ affected_rows b
login_found_lem true = refl
login_found_lem false = refl

abbrev pub next_id : Table → ℕ
next_id db = length db + 1

pub memory-IsServer : IsServer memory find next_id
unfolding run read ask same_name
memory-IsServer = record {
  up = λ sql db. refl;
  binds = λ sql params db. refl;
  insert_ok = λ n p db. refl;
  insert_rows = λ n p u db. find-put (opened (next_id db) p) (opened-keeps (next_id db) p) n u db;
  login_rows = λ n p db. login_found_lem (has_password p (find n db));
  balance_stored = λ n db. refl;
  add_ok = λ n x db. refl;
  add_rows = λ n u x db. find-put (credited x) (credited-keeps x) n u db;
  take_affected = λ n x db. refl;
  take_rows = λ n u x db. find-put (debited x) (debited-keeps x) n u db;
  id_query = λ n db. ap (λ m. some (id_rows (find m db))) (but_last-snoc n 39);
  exact = λ x lo hi. refl;
}
