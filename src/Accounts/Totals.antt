-- ===== src/Accounts/Totals.antt =====
-- What the confirming operations of include/UserManager.hpp do to the cash and to the shares of a
-- ticker that a set of users holds.
use exchange_server.Prelude.{
  ℕ, ◌^◌, Bool, true, false, none, List, ◌≡◌, ◌≢◌, sym, Distinct, ◌==◌, Bool-cases, inl, inr,
}
use exchange_server.Prelude.Int.{ℤ, pos, ◌+ℤ◌, ◌-ℤ◌, int_laws, add_zero, add_in, add_assoc}
use exchange_server.Prelude.Modulo.{
  Same, Same-trans, Same-sum, Same-refl, eq_Same, wrap64-Same, wrap64-sub, wrap32-Same,
}
use exchange_server.Prelude.Map.{Map}
use exchange_server.Accounts.{
  UserManager, get_account, stock_of, add_stock, sub_stock, commit_buy, commit_sell,
  unfreeze_balance, unfreeze_stock,
}
use exchange_server.Accounts.Laws.{
  cash, holding, cash_of, holding_of, total, In, total-update, update-exists, stock_of-add,
  stock_of-sub,
}

abbrev pub signed : Bool → ℤ → ℤ
signed true x = x
signed false x = pos 0

stock_of-add_Same :
    (ticker t : ℕ) (x : ℤ) (s : Map ℤ)
    → Same (2 ^ 32) (stock_of t (add_stock ticker x s)) (stock_of t s +ℤ signed (ticker == t) x)
stock_of-add_Same ticker t x s = elim (Bool-cases (ticker == t)) [
  | inl e ↦ rw (stock_of-add ticker t x s, e) (wrap32-Same (stock_of t s +ℤ x))
  | inr e ↦ rw (stock_of-add ticker t x s, e) (eq_Same (2 ^ 32) _ _ (sym (add_zero (stock_of t s))))
]

stock_of-sub_Same :
    (ticker t : ℕ) (x : ℤ) (s : Map ℤ)
    → Same
        (2 ^ 32)
        (stock_of t (sub_stock ticker x s))
        (stock_of t s +ℤ signed (ticker == t) (pos 0 -ℤ x))
stock_of-sub_Same ticker t x s = elim (Bool-cases (ticker == t)) [
  | inl e ↦
      rw (stock_of-sub ticker t x s, e)
        (Same-trans (2 ^ 32) _ (stock_of t s -ℤ x) _ (wrap32-Same (stock_of t s -ℤ x))
          (eq_Same (2 ^ 32) (stock_of t s -ℤ x) (stock_of t s +ℤ (pos 0 -ℤ x)) (omega int_laws)))
  | inr e ↦ rw (stock_of-sub ticker t x s, e) (eq_Same (2 ^ 32) _ _ (sym (add_zero (stock_of t s))))
]

moved_shares :
    (b : Bool) (x y q : ℤ) → x +ℤ signed b q +ℤ (y +ℤ signed b (pos 0 -ℤ q)) ≡ x +ℤ y +ℤ pos 0
moved_shares true x y q = omega int_laws
moved_shares false x y q = omega int_laws

module _ (us : List ℕ) (d : Distinct us) (t : ℕ) where
  abbrev pub cash_total : UserManager → ℤ
  cash_total m = total (λ u. cash_of u m) us

  abbrev pub share_total : UserManager → ℤ
  share_total m = total (λ u. holding_of t u m) us

  -- A user of the list who has an account.
  abbrev pub Known : UserManager → ℕ → Type 0
  Known m u = (get_account u m ≢ none) × (In u us ≡ true)

  module _ (uid ticker : ℕ) (m : UserManager) (k : Known m uid) where
    pub cash-commit_buy :
        (cost qty refund : ℤ)
        → Same
            (2 ^ 64)
            (cash_total (commit_buy uid ticker cost qty refund m))
            (cash_total m +ℤ (pos 0 -ℤ cost))
    unfolding commit_buy
    cash-commit_buy cost qty refund =
        total-update (2 ^ 64) cash _ (pos 0 -ℤ cost)
          (λ a.
            Same-sum (2 ^ 64) _ _ (a.available_balance +ℤ refund)
              (a.frozen_balance -ℤ (cost +ℤ refund)) _ (wrap64-Same (a.available_balance +ℤ refund))
              (wrap64-sub a.frozen_balance (cost +ℤ refund)) (omega int_laws))
          uid m us k.0 d k.1

    pub cash-commit_sell :
        (revenue qty : ℤ)
        → Same
            (2 ^ 64)
            (cash_total (commit_sell uid ticker revenue qty m))
            (cash_total m +ℤ revenue)
    unfolding commit_sell
    cash-commit_sell revenue qty =
        total-update (2 ^ 64) cash _ revenue
          (λ a.
            Same-sum (2 ^ 64) _ _ (a.available_balance +ℤ revenue) a.frozen_balance _
              (wrap64-Same (a.available_balance +ℤ revenue)) (Same-refl (2 ^ 64) a.frozen_balance)
              (omega int_laws))
          uid m us k.0 d k.1

    pub cash-unfreeze_balance :
        (amount : ℤ)
        → Same (2 ^ 64) (cash_total (unfreeze_balance uid amount m)) (cash_total m +ℤ pos 0)
    unfolding unfreeze_balance
    cash-unfreeze_balance amount =
        total-update (2 ^ 64) cash _ (pos 0)
          (λ a.
            Same-sum (2 ^ 64) _ _ (a.available_balance +ℤ amount) (a.frozen_balance -ℤ amount) _
              (wrap64-Same (a.available_balance +ℤ amount))
              (wrap64-Same (a.frozen_balance -ℤ amount)) (omega int_laws))
          uid m us k.0 d k.1

    pub cash-unfreeze_stock :
        (qty : ℤ)
        → Same (2 ^ 64) (cash_total (unfreeze_stock uid ticker qty m)) (cash_total m +ℤ pos 0)
    unfolding unfreeze_stock
    cash-unfreeze_stock qty =
        total-update (2 ^ 64) cash _ (pos 0) (λ a. eq_Same (2 ^ 64) _ _ (sym (add_zero (cash a))))
          uid m us k.0 d k.1

    pub shares-commit_buy :
        (cost qty refund : ℤ)
        → Same
            (2 ^ 32)
            (share_total (commit_buy uid ticker cost qty refund m))
            (share_total m +ℤ signed (ticker == t) qty)
    unfolding commit_buy
    shares-commit_buy cost qty refund =
        total-update (2 ^ 32) (holding t) _ (signed (ticker == t) qty)
          (λ a.
            Same-sum (2 ^ 32) _ _ (stock_of t a.available_stock +ℤ signed (ticker == t) qty)
              (stock_of t a.frozen_stock) _ (stock_of-add_Same ticker t qty a.available_stock)
              (Same-refl (2 ^ 32) (stock_of t a.frozen_stock))
              (add_in (stock_of t a.available_stock) (stock_of t a.frozen_stock)
                (signed (ticker == t) qty)))
          uid m us k.0 d k.1

    pub shares-commit_sell :
        (revenue qty : ℤ)
        → Same
            (2 ^ 32)
            (share_total (commit_sell uid ticker revenue qty m))
            (share_total m +ℤ signed (ticker == t) (pos 0 -ℤ qty))
    unfolding commit_sell
    shares-commit_sell revenue qty =
        total-update (2 ^ 32) (holding t) _ (signed (ticker == t) (pos 0 -ℤ qty))
          (λ a.
            Same-sum (2 ^ 32) _ _ (stock_of t a.available_stock)
              (stock_of t a.frozen_stock +ℤ signed (ticker == t) (pos 0 -ℤ qty)) _
              (Same-refl (2 ^ 32) (stock_of t a.available_stock))
              (stock_of-sub_Same ticker t qty a.frozen_stock)
              (add_assoc (stock_of t a.available_stock) (stock_of t a.frozen_stock)
                (signed (ticker == t) (pos 0 -ℤ qty))))
          uid m us k.0 d k.1

    pub shares-unfreeze_balance :
        (amount : ℤ)
        → Same (2 ^ 32) (share_total (unfreeze_balance uid amount m)) (share_total m +ℤ pos 0)
    unfolding unfreeze_balance
    shares-unfreeze_balance amount =
        total-update (2 ^ 32) (holding t) _ (pos 0)
          (λ a. eq_Same (2 ^ 32) _ _ (sym (add_zero (holding t a)))) uid m us k.0 d k.1

    pub shares-unfreeze_stock :
        (qty : ℤ)
        → Same (2 ^ 32) (share_total (unfreeze_stock uid ticker qty m)) (share_total m +ℤ pos 0)
    unfolding unfreeze_stock
    shares-unfreeze_stock qty =
        total-update (2 ^ 32) (holding t) _ (pos 0)
          (λ a.
            Same-sum (2 ^ 32) _ _ (stock_of t a.available_stock +ℤ signed (ticker == t) qty)
              (stock_of t a.frozen_stock +ℤ signed (ticker == t) (pos 0 -ℤ qty)) _
              (stock_of-add_Same ticker t qty a.available_stock)
              (stock_of-sub_Same ticker t qty a.frozen_stock)
              (moved_shares (ticker == t) (stock_of t a.available_stock) (stock_of t a.frozen_stock)
                qty))
          uid m us k.0 d k.1

  -- A user who is known stays so.
  module _ (u uid ticker : ℕ) (m : UserManager) (k : Known m u) where
    pub Known-commit_buy : (cost qty refund : ℤ) → Known (commit_buy uid ticker cost qty refund m) u
    unfolding commit_buy
    Known-commit_buy cost qty refund = (update-exists _ uid u m k.0, k.1)

    pub Known-commit_sell : (revenue qty : ℤ) → Known (commit_sell uid ticker revenue qty m) u
    unfolding commit_sell
    Known-commit_sell revenue qty = (update-exists _ uid u m k.0, k.1)

    pub Known-unfreeze_balance : (amount : ℤ) → Known (unfreeze_balance uid amount m) u
    unfolding unfreeze_balance
    Known-unfreeze_balance amount = (update-exists _ uid u m k.0, k.1)

    pub Known-unfreeze_stock : (qty : ℤ) → Known (unfreeze_stock uid ticker qty m) u
    unfolding unfreeze_stock
    Known-unfreeze_stock qty = (update-exists _ uid u m k.0, k.1)
