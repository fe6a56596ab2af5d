-- ===== src/Accounts/Freeze.antt =====
-- Freezing in include/UserManager.hpp.
use exchange_server.Prelude.{
  ℕ, Bool, true, false, Option, none, some, ◌==◌, if◌then◌else◌, ◌≡◌, refl, arith, inl, inr,
  Option-cases, Bool-cases,
}
use exchange_server.Prelude.Int.{ℤ, ◌+ℤ◌, ◌-ℤ◌, leb_ℤ}
use exchange_server.Prelude.Modulo.{wrap64}
use exchange_server.Accounts.{
  UserAccount, UserManager, get_account, put_account, try_freeze_balance,
}
use exchange_server.Accounts.Laws.{get_account-put}

-- An amount goes from the available to the frozen balance, in 64 bits.
abbrev pub frozen_by : ℤ → UserAccount → UserAccount
frozen_by x a = record a {
  available_balance = wrap64 (a.available_balance -ℤ x);
  frozen_balance = wrap64 (a.frozen_balance +ℤ x);
}

-- What tryFreezeBalance promises of user `u`'s account, given the account of `uid`.
abbrev Freezes : ℕ → ℤ → UserManager → Option UserAccount → Bool × UserManager → Type 0
Freezes uid x m none r = r ≡ (false, m)
Freezes uid x m (some a) r =
    (if leb_ℤ x a.available_balance
      then (r.0 ≡ true)
        × ((u : ℕ)
            → get_account u r.1 ≡ (if uid == u then some (frozen_by x a) else get_account u m))
      else r ≡ (false, m))

module _ (uid : ℕ) (x : ℤ) (m : UserManager) where
  pub try_freeze_balance-covered :
      (a : UserAccount)
      → get_account uid m ≡ some a
      → leb_ℤ x a.available_balance ≡ true
      → try_freeze_balance uid x m ≡ (true, put_account uid (frozen_by x a) m)
  unfolding try_freeze_balance
  try_freeze_balance-covered a h c = ground arith

  pub try_freeze_balance-short :
      (a : UserAccount)
      → get_account uid m ≡ some a
      → leb_ℤ x a.available_balance ≡ false
      → try_freeze_balance uid x m ≡ (false, m)
  unfolding try_freeze_balance
  try_freeze_balance-short a h c = ground arith

  pub try_freeze_balance-missing :
      get_account uid m ≡ none → try_freeze_balance uid x m ≡ (false, m)
  unfolding try_freeze_balance
  try_freeze_balance-missing h = ground arith

  -- It succeeds exactly when the account is there and its available balance covers the amount;
  -- then the amount moves from the available to the frozen balance of that account and no other
  -- account changes, and else nothing changes.
  try_freeze_balance-Freezes : Freezes uid x m (get_account uid m) (try_freeze_balance uid x m)
  try_freeze_balance-Freezes = elim (Option-cases (get_account uid m)) [
    | inl h ↦ rw h (try_freeze_balance-missing h)
    | inr (a, h) ↦ elim (Bool-cases (leb_ℤ x a.available_balance)) [
      | inl c ↦
          rw (h, c, try_freeze_balance-covered a h c)
            (refl, λ u. get_account-put uid u (frozen_by x a) m)
      | inr c ↦ rw (h, c) (try_freeze_balance-short a h c)
    ]
  ]
