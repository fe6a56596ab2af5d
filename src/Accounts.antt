-- ===== src/Accounts.antt =====
-- include/UserManager.hpp: the accounts in memory, in 256 buckets by user id. An account's mutex
-- makes each operation one step. A raw pointer to an account is its user id. Balances wrap around in
-- 64 bits and shares in 32, which is what `int64_t` and `int` do on the machine where they overflow.
pub mod Laws
pub mod Freeze
pub mod Totals
pub mod Frozen
pub mod Created
pub mod Load
mod Tests
use exchange_server.Prelude.{
  ℕ, zero, suc, ◌+◌, ◌-◌, ◌%◌, Bool, true, false, Option, none, some, List, [], ◌∷◌, ◌==◌,
  if◌then◌else◌,
}
use exchange_server.Prelude.Int.{ℤ, pos, negsuc, ◌+ℤ◌, ◌-ℤ◌, leb_ℤ}
use exchange_server.Prelude.Modulo.{wrap64, wrap32}
use exchange_server.Prelude.Map.{Map, lookup, lookup_or, insert}
use exchange_server.Prelude.Names.{Name, NameMap, find, assign}

pub record UserAccount : Type 0 where
  pub user_id : ℕ
  pub username : Name
  pub available_balance : ℤ
  pub frozen_balance : ℤ
  pub available_stock : Map ℤ
  pub frozen_stock : Map ℤ

pub record AccountBucket : Type 0 where
  pub account : Map UserAccount
  pub find_account : NameMap ℕ

abbrev pub mtx_count : ℕ
mtx_count = 256

-- The array of buckets.
abbrev pub UserManager : Type 0
UserManager = ℕ → AccountBucket

abbrev pub id_to_mtx : ℕ → ℕ
id_to_mtx uid = uid % mtx_count

abbrev pub set_bucket : ℕ → AccountBucket → UserManager → UserManager
set_bucket i b m j = if i == j then b else m j

abbrev pub get_account : ℕ → UserManager → Option UserAccount
get_account uid m = lookup uid (m (id_to_mtx uid)).account

-- Writing through the pointer to an account that is there.
abbrev pub put_account : ℕ → UserAccount → UserManager → UserManager
put_account uid a m =
    let b = m (id_to_mtx uid) in
    set_bucket (id_to_mtx uid) (record b { account = insert uid a b.account }) m

-- `make_unique<UserAccount>()` with its two names set
abbrev pub fresh_account : ℕ → Name → ℤ → UserAccount
fresh_account uid username balance = record {
  user_id = uid;
  username = username;
  available_balance = balance;
  frozen_balance = pos 0;
  available_stock = [];
  frozen_stock = [];
}

abbrev pub add_account : ℕ → UserAccount → UserManager → UserManager
add_account uid a m =
    let b = m (id_to_mtx uid) in
    set_bucket (id_to_mtx uid)
      (record {
        account = insert uid a b.account;
        find_account = assign a.username uid b.find_account;
      })
      m

pub create_user_account : ℕ → Name → UserManager → UserManager
create_user_account uid username m = elim (lookup uid (m (id_to_mtx uid)).account) [
  | none ↦ add_account uid (fresh_account uid username (pos 0)) m
  | some a ↦ m
]

-- The scan of the buckets from `i` on, `left` of them.
pub get_id_from : ℕ → ℕ → Name → UserManager → ℕ
get_id_from zero i username m = 0
get_id_from (suc left) i username m =
    let rest = get_id_from left (i + 1) username m in
    elim (find username (m i).find_account) [
      | none ↦ rest
      | some uid ↦ elim (lookup uid (m i).account) [ none ↦ 0 | some a ↦ a.user_id ]
    ]

pub get_id : Name → UserManager → ℕ
unfolding get_id_from
get_id username m = get_id_from mtx_count 0 username m

-- "UNKNOWN"
abbrev pub unknown : Name
unknown = b'U' ∷ b'N' ∷ b'K' ∷ b'N' ∷ b'O' ∷ b'W' ∷ b'N' ∷ []

unfoldable pub get_name : ℕ → UserManager → Name
get_name uid m = elim (get_account uid m) [ none ↦ unknown | some a ↦ a.username ]

abbrev pub stock_of : ℕ → Map ℤ → ℤ
stock_of = lookup_or (pos 0)

-- `stock[ticker_id] += qty`
abbrev pub add_stock : ℕ → ℤ → Map ℤ → Map ℤ
add_stock ticker qty s = insert ticker (wrap32 (stock_of ticker s +ℤ qty)) s

-- `stock[ticker_id] -= qty`
abbrev pub sub_stock : ℕ → ℤ → Map ℤ → Map ℤ
sub_stock ticker qty s = insert ticker (wrap32 (stock_of ticker s -ℤ qty)) s

unfoldable pub try_freeze_balance : ℕ → ℤ → UserManager → Bool × UserManager
try_freeze_balance uid amount m = elim (get_account uid m) [
  | none ↦ (false, m)
  | some a ↦
      if leb_ℤ amount a.available_balance
      then (
        true,
        put_account uid
            (record a {
              available_balance = wrap64 (a.available_balance -ℤ amount);
              frozen_balance = wrap64 (a.frozen_balance +ℤ amount);
            })
            m,
      )
      else (false, m)
]

-- A missing ticker is read as 0 and thereby added.
pub try_freeze_stock : ℕ → ℕ → ℤ → UserManager → Bool × UserManager
try_freeze_stock uid ticker qty m = elim (get_account uid m) [
  | none ↦ (false, m)
  | some a ↦
      if leb_ℤ qty (stock_of ticker a.available_stock)
      then (
        true,
        put_account uid
            (record a {
              available_stock = sub_stock ticker qty a.available_stock;
              frozen_stock = add_stock ticker qty a.frozen_stock;
            })
            m,
      )
      else (
        false,
        put_account uid
            (record a {
              available_stock = insert ticker (stock_of ticker a.available_stock) a.available_stock;
            })
            m,
      )
]

-- What an operation does to the account, if there is one.
abbrev pub update_account : (UserAccount → UserAccount) → ℕ → UserManager → UserManager
update_account f uid m = elim (get_account uid m) [ none ↦ m | some a ↦ put_account uid (f a) m ]

unfoldable pub commit_buy : ℕ → ℕ → ℤ → ℤ → ℤ → UserManager → UserManager
commit_buy uid ticker cost qty refund_diff =
    update_account
      (λ a. record a {
        frozen_balance = wrap64 (a.frozen_balance -ℤ wrap64 (cost +ℤ refund_diff));
        available_balance = wrap64 (a.available_balance +ℤ refund_diff);
        available_stock = add_stock ticker qty a.available_stock;
      })
      uid

unfoldable pub commit_sell : ℕ → ℕ → ℤ → ℤ → UserManager → UserManager
commit_sell uid ticker revenue qty =
    update_account
      (λ a. record a {
        frozen_stock = sub_stock ticker qty a.frozen_stock;
        available_balance = wrap64 (a.available_balance +ℤ revenue);
      })
      uid

unfoldable pub unfreeze_balance : ℕ → ℤ → UserManager → UserManager
unfreeze_balance uid amount =
    update_account
      (λ a. record a {
        frozen_balance = wrap64 (a.frozen_balance -ℤ amount);
        available_balance = wrap64 (a.available_balance +ℤ amount);
      })
      uid

unfoldable pub unfreeze_stock : ℕ → ℕ → ℤ → UserManager → UserManager
unfreeze_stock uid ticker qty =
    update_account
      (λ a. record a {
        frozen_stock = sub_stock ticker qty a.frozen_stock;
        available_stock = add_stock ticker qty a.available_stock;
      })
      uid

unfoldable pub add_balance : ℕ → ℤ → UserManager → UserManager
add_balance uid amount =
    update_account (λ a. record a { available_balance = wrap64 (a.available_balance +ℤ amount) })
      uid

pub get_balance : ℕ → UserManager → ℤ
get_balance uid m = elim (get_account uid m) [ none ↦ pos 0 | some a ↦ a.available_balance ]

unfoldable pub get_holdings : ℕ → UserManager → Map ℤ
get_holdings uid m = elim (get_account uid m) [ none ↦ [] | some a ↦ a.available_stock ]
