-- ===== src/Accounts/Frozen.antt =====
-- The frozen balance of one user under the operations of include/UserManager.hpp.
use mathlib.Core.Option
use exchange_server.Prelude.{
  ℕ, true, false, none, ◌==◌, ◌≡◌, ◌≢◌, refl, ap, ◌∙◌, subst, if◌then◌else◌, arith, inl, inr,
  Option-cases, Bool-cases,
}
use exchange_server.Prelude.Int.{ℤ, ◌+ℤ◌, leb_ℤ}
use exchange_server.Prelude.Modulo.{wrap64, wrap64-sub, wrap64-FitsInt64, Moved, wrap64-Moved}
use exchange_server.Accounts.{
  UserAccount, UserManager, get_account, update_account, commit_buy, commit_sell, unfreeze_balance,
  try_freeze_balance,
}
use exchange_server.Accounts.Laws.{measured, get_account-update, update-exists, get_account-put}
use exchange_server.Accounts.Freeze.{
  try_freeze_balance-covered, try_freeze_balance-short, try_freeze_balance-missing, frozen_by,
}

abbrev pub frozen_of : ℕ → UserManager → ℤ
frozen_of u m = measured (λ a. a.frozen_balance) (get_account u m)

module _ (f : UserAccount → UserAccount) (uid : ℕ) (m : UserManager) where
  frozen-hit :
      (x : ℤ)
      → ((a : UserAccount) → Moved x a.frozen_balance (f a).frozen_balance)
      → get_account uid m ≢ none
      → Moved x (frozen_of uid m) (frozen_of uid (update_account f uid m))
  frozen-hit x change there = elim (Option-cases (get_account uid m)) [
    | inl h ↦ absurd (there h)
    | inr (a, h) ↦
        let before : a.frozen_balance ≡ frozen_of uid m = ground (arith, h) in
        let after : (f a).frozen_balance ≡ frozen_of uid (update_account f uid m) =
          ground (arith, h, get_account-update f uid uid m) in
        subst (λ z. Moved x z (frozen_of uid (update_account f uid m))) before
          (subst (λ z. Moved x a.frozen_balance z) after (change a))
  ]

  frozen-keep :
      (u : ℕ)
      → ((a : UserAccount) → (f a).frozen_balance ≡ a.frozen_balance)
      → frozen_of u (update_account f uid m) ≡ frozen_of u m
  frozen-keep u change = elim (Option-cases (get_account u m)) [
    | inl h ↦ ground (arith, h, get_account-update f uid u m)
    | inr (a, h) ↦ ground (arith, h, get_account-update f uid u m, change a)
  ]

  frozen-other : (u : ℕ) → (uid == u) ≡ false → frozen_of u (update_account f uid m) ≡ frozen_of u m
  frozen-other u e = ap (measured (λ a. a.frozen_balance)) (
      get_account-update f uid u m
      ∙ ap (λ b. if b then Option.map f (get_account u m) else get_account u m) e)

module _ (uid : ℕ) (m : UserManager) (there : get_account uid m ≢ none) where
  pub frozen_of-commit_buy :
      (ticker : ℕ) (cost qty refund : ℤ)
      → Moved
          (cost +ℤ refund)
          (frozen_of uid m)
          (frozen_of uid (commit_buy uid ticker cost qty refund m))
  unfolding commit_buy
  frozen_of-commit_buy ticker cost qty refund =
      frozen-hit _ uid m (cost +ℤ refund)
        (λ a. (wrap64-sub a.frozen_balance (cost +ℤ refund), λ f. wrap64-FitsInt64 _)) there

  pub frozen_of-unfreeze_balance :
      (x : ℤ) → Moved x (frozen_of uid m) (frozen_of uid (unfreeze_balance uid x m))
  unfolding unfreeze_balance
  frozen_of-unfreeze_balance x = frozen-hit _ uid m x (λ a. wrap64-Moved x a.frozen_balance) there

-- A purchase of one user leaves the frozen balance of another.
pub frozen_of-commit_buy_other :
    (u uid ticker : ℕ) (cost qty refund : ℤ) (m : UserManager)
    → (uid == u) ≡ false
    → frozen_of u (commit_buy uid ticker cost qty refund m) ≡ frozen_of u m
unfolding commit_buy
frozen_of-commit_buy_other u uid ticker cost qty refund m e = frozen-other _ uid m u e

pub frozen_of-commit_sell :
    (u uid ticker : ℕ) (revenue qty : ℤ) (m : UserManager)
    → frozen_of u (commit_sell uid ticker revenue qty m) ≡ frozen_of u m
unfolding commit_sell
frozen_of-commit_sell u uid ticker revenue qty m = frozen-keep _ uid m u (λ a. refl)

-- Neither of them makes an account vanish.
pub commit_buy_exists :
    (u uid ticker : ℕ) (cost qty refund : ℤ) (m : UserManager)
    → get_account u m ≢ none
    → get_account u (commit_buy uid ticker cost qty refund m) ≢ none
unfolding commit_buy
commit_buy_exists u uid ticker cost qty refund m h = update-exists _ uid u m h

pub commit_sell_exists :
    (u uid ticker : ℕ) (revenue qty : ℤ) (m : UserManager)
    → get_account u m ≢ none
    → get_account u (commit_sell uid ticker revenue qty m) ≢ none
unfolding commit_sell
commit_sell_exists u uid ticker revenue qty m h = update-exists _ uid u m h

-- A freeze that succeeds adds to the frozen balance, and the account is there.
pub frozen_of-freeze :
    (uid : ℕ) (x : ℤ) (m : UserManager)
    → (try_freeze_balance uid x m).0 ≡ true
    → (frozen_of uid (try_freeze_balance uid x m).1 ≡ wrap64 (frozen_of uid m +ℤ x))
      × (get_account uid (try_freeze_balance uid x m).1 ≢ none)
frozen_of-freeze uid x m ok = elim (Option-cases (get_account uid m)) [
  | inl h ↦ cc (try_freeze_balance-missing uid x m h)
  | inr (a, h) ↦ elim (Bool-cases (leb_ℤ x a.available_balance)) [
    | inl c ↦ rw (try_freeze_balance-covered uid x m a h c) (
      ground (arith, h, get_account-put uid uid (frozen_by x a) m),
      ground (arith, get_account-put uid uid (frozen_by x a) m),
    )
    | inr c ↦ cc (try_freeze_balance-short uid x m a h c)
  ]
]
