-- ===== src/Accounts/Laws.antt =====
-- What the operations of include/UserManager.hpp do to the account of each user.
use mathlib.Core.Option
use exchange_server.Prelude.{
  ℕ, Bool, true, false, Option, none, some, List, [], ◌∷◌, ◌==◌, if◌then◌else◌, ◌≡◌, ◌≢◌, refl, sym,
  ◌∙◌, subst, arith, Bool-cases, ==_iff, inl, inr, Option-cases, Fresh, Distinct,
}
use exchange_server.Prelude.Int.{ℤ, pos, ◌+ℤ◌, ◌-ℤ◌, add_in, add_assoc}
use exchange_server.Prelude.Modulo.{wrap32, Same, Same-trans, Same-add, eq_Same}
use exchange_server.Prelude.Map.{Map, lookup-insert}
use exchange_server.Accounts.{
  UserAccount, UserManager, id_to_mtx, get_account, put_account, update_account, stock_of,
  add_stock, sub_stock,
}

pub get_account-put :
    (uid u : ℕ) (a : UserAccount) (m : UserManager)
    → get_account u (put_account uid a m) ≡ (if uid == u then some a else get_account u m)
get_account-put uid u a m = ground (arith, lookup-insert uid u a (m (id_to_mtx uid)).account)

pub get_account-update :
    (f : UserAccount → UserAccount) (uid u : ℕ) (m : UserManager)
    → get_account u (update_account f uid m)
      ≡ (if uid == u then Option.map f (get_account u m) else get_account u m)
get_account-update f uid u m = elim (Option-cases (get_account uid m)) [
  | inl h ↦ ground arith
  | inr (a, h) ↦ ground (arith, get_account-put uid u (f a) m)
]

pub stock_of-add :
    (ticker t : ℕ) (x : ℤ) (s : Map ℤ)
    → stock_of t (add_stock ticker x s)
      ≡ (if ticker == t then wrap32 (stock_of t s +ℤ x) else stock_of t s)
stock_of-add ticker t x s =
    ground (arith, lookup-insert ticker t (wrap32 (stock_of ticker s +ℤ x)) s)

pub stock_of-sub :
    (ticker t : ℕ) (x : ℤ) (s : Map ℤ)
    → stock_of t (sub_stock ticker x s)
      ≡ (if ticker == t then wrap32 (stock_of t s -ℤ x) else stock_of t s)
stock_of-sub ticker t x s =
    ground (arith, lookup-insert ticker t (wrap32 (stock_of ticker s -ℤ x)) s)

-- The cash of an account, and its shares of a ticker.
abbrev pub cash : UserAccount → ℤ
cash a = a.available_balance +ℤ a.frozen_balance

abbrev pub holding : ℕ → UserAccount → ℤ
holding t a = stock_of t a.available_stock +ℤ stock_of t a.frozen_stock

-- A measure of an account, 0 where there is none.
abbrev pub measured : (UserAccount → ℤ) → Option UserAccount → ℤ
measured f none = pos 0
measured f (some a) = f a

abbrev pub cash_of : ℕ → UserManager → ℤ
cash_of u m = measured cash (get_account u m)

abbrev pub holding_of : ℕ → ℕ → UserManager → ℤ
holding_of t u m = measured (holding t) (get_account u m)

abbrev pub total : (ℕ → ℤ) → List ℕ → ℤ
total f [] = pos 0
total f (u ∷ us) = f u +ℤ total f us

total_same :
    (f g : ℕ → ℤ) (uid : ℕ) (us : List ℕ)
    → Fresh uid us
    → ((u : ℕ) → uid ≢ u → g u ≡ f u)
    → total g us ≡ total f us
total_same f g uid [] h e = refl
total_same f g uid (u ∷ us) h e = ground (arith, e u h.0, total_same f g uid us h.1 e)

abbrev pub In : ℕ → List ℕ → Bool
In u [] = false
In u (v ∷ vs) = if u == v then true else In u vs

-- A change of one user's measure by `x` changes the total over distinct users by `x`, both up to
-- multiples of `n`.
pub total_change :
    (n : ℕ) (f g : ℕ → ℤ) (uid : ℕ) (x : ℤ) (us : List ℕ)
    → Distinct us
    → In uid us ≡ true
    → Same n (g uid) (f uid +ℤ x)
    → ((u : ℕ) → uid ≢ u → g u ≡ f u)
    → Same n (total g us) (total f us +ℤ x)
total_change n f g uid x [] d h e k = absurd (ground (arith, h))
total_change n f g uid x (u ∷ us) d h e k = elim (Bool-cases (uid == u)) [
  | inl hit ↦
      let same : uid ≡ u = (==_iff uid u).0 hit in
      let e' : Same n (g u) (f u +ℤ x) = subst (λ w. Same n (g w) (f w +ℤ x)) same e in
      let rest = total_same f g u us d.0 (λ w ne. k w (λ q. ne (sym same ∙ q))) in
      Same-trans n (g u +ℤ total g us) (f u +ℤ x +ℤ total f us) (f u +ℤ total f us +ℤ x)
        (Same-add n (g u) (f u +ℤ x) (total g us) (total f us) e' (eq_Same n _ _ rest))
        (eq_Same n _ _ (add_in (f u) (total f us) x))
  | inr miss ↦
      let rest = total_change n f g uid x us d.1 (rw miss at h) e k in
      let there = k u (λ q. cc ((==_iff uid u).1 q)) in
      Same-trans n (g u +ℤ total g us) (f u +ℤ (total f us +ℤ x)) (f u +ℤ total f us +ℤ x)
        (Same-add n (g u) (f u) (total g us) (total f us +ℤ x) (eq_Same n _ _ there) rest)
        (eq_Same n _ _ (add_assoc (f u) (total f us) x))
]

-- Writing makes no account vanish.
pub update-exists :
    (f : UserAccount → UserAccount) (uid u : ℕ) (m : UserManager)
    → get_account u m ≢ none
    → get_account u (update_account f uid m) ≢ none
update-exists f uid u m h = ground (arith, get_account-update f uid u m)

-- Writing to the account of `uid` by a function that changes a measure by `x`.
module _ (n : ℕ) (F : UserAccount → ℤ) (f : UserAccount → UserAccount) (x : ℤ)
    (change : (a : UserAccount) → Same n (F (f a)) (F a +ℤ x)) where
  abbrev measure : UserManager → ℕ → ℤ
  measure m u = measured F (get_account u m)

  pub total-update :
      (uid : ℕ) (m : UserManager) (us : List ℕ)
      → get_account uid m ≢ none
      → Distinct us
      → In uid us ≡ true
      → Same n
          (total (λ u. measured F (get_account u (update_account f uid m))) us)
          (total (λ u. measured F (get_account u m)) us +ℤ x)
  total-update uid m us there d h =
      total_change n (measure m) (measure (update_account f uid m)) uid x us d h hit miss
    where
      hit : Same n (measure (update_account f uid m) uid) (measure m uid +ℤ x)
      hit = elim (Option-cases (get_account uid m)) [
        | inl none_there ↦ absurd (there none_there)
        | inr (a, e) ↦
            let after : measure (update_account f uid m) uid ≡ F (f a) =
              ground (arith, e, get_account-update f uid uid m) in
            let before : F a +ℤ x ≡ measure m uid +ℤ x = ground (arith, e) in
            Same-trans n _ (F (f a)) _ (eq_Same n _ _ after)
              (Same-trans n (F (f a)) (F a +ℤ x) _ (change a) (eq_Same n _ _ before))
      ]

      miss : (u : ℕ) → uid ≢ u → measure (update_account f uid m) u ≡ measure m u
      miss u ne = ground (arith, get_account-update f uid u m, ne)
