-- ===== src/Settlement/Backed.antt =====
-- The book, the settlement and the accounts together: frozen cash backs the resting bids, through
-- include/OrderBook.hpp, include/SettlementProcessor.hpp and include/UserManager.hpp.
use exchange_server.Prelude.{
  ℕ, ◌+◌, ◌*◌, ◌^◌, ◌≤◌, ◌<◌, Bool, none, List, [], ◌∷◌, ◌++◌, ◌==◌, ==_iff, if◌then◌else◌, ◌≡◌,
  ◌≢◌, refl, sym, ◌∙◌, ap, subst, arith, All, Bool-cases, inl, inr,
}
use exchange_server.Prelude.Int.{pos, ◌-ℤ◌, int_laws, pos_add}
use exchange_server.Prelude.Modulo.{FitsInt64, Moved, Moved-none, Moved-trans, Moved-exact}
use exchange_server.Common.{MatchRecord, Order}
use exchange_server.OrderBook.{Book, process_order}
use exchange_server.OrderBook.Spec.{market_of}
use exchange_server.OrderBook.Invariant.{IsValid}
use exchange_server.OrderBook.Match.{IsNew}
use exchange_server.OrderBook.Shares.{Honours, process_order-Honours}
use exchange_server.OrderBook.Owed.{owed, due, due_for, placed, process_order-owed}
use exchange_server.Accounts.{get_account}
use exchange_server.Accounts.Frozen.{
  frozen_of, frozen_of-commit_buy_other, frozen_of-commit_sell, commit_buy_exists,
  commit_sell_exists,
}
use exchange_server.Tickers.{TickerManager}
use exchange_server.Repositories.{UserRepository, StockRepository}
use exchange_server.Settlement.{Holders, settle_match, settle_matches}
use exchange_server.Settlement.Lifecycle.{frozen_of-settle_match}

pub taken_back : (o d : ℕ) → pos (o + d) -ℤ pos d ≡ pos o
taken_back o d = ap (λ z. z -ℤ pos d) (sym (pos_add o d)) ∙ omega int_laws

Honours-offer :
    (t : Order) (rs : List MatchRecord)
    → All (Honours t) rs
    → All (λ r. r.match_price ≤ r.buyer_expected_price) rs
Honours-offer t [] h = tt
Honours-offer t (r ∷ rs) h = (h.0.bound, Honours-offer t rs h.1)

module _ {Db : Type 0} (users : UserRepository Db) (stocks : StockRepository Db)
    (tickers : TickerManager) (u : ℕ) where
  abbrev WithinOffer : MatchRecord → Type 0
  WithinOffer r = r.match_price ≤ r.buyer_expected_price

  module _ (r : MatchRecord) (h : Holders Db) (there : get_account u h.accounts ≢ none) where
    match_exists : get_account u (settle_match users stocks tickers r h).accounts ≢ none
    unfolding settle_match
    match_exists =
        commit_sell_exists u r.sell_user_id r.ticker_id _ _ _
          (commit_buy_exists u r.buyer_user_id r.ticker_id _ _ _ h.accounts there)

    match_frozen :
        WithinOffer r
        → due_for u r * r.match_quantity < 2 ^ 63
        → Moved
            (pos (due_for u r * r.match_quantity))
            (frozen_of u h.accounts)
            (frozen_of u (settle_match users stocks tickers r h).accounts)
    unfolding settle_match
    match_frozen le bound =
        let F = frozen_of u h.accounts in
        let G = frozen_of u (settle_match users stocks tickers r h).accounts in
        let weight = λ (b : Bool). if b then r.buyer_expected_price else 0 in
        elim (Bool-cases (r.buyer_user_id == u)) [
          | inl e ↦
              let w : due_for u r ≡ r.buyer_expected_price = ap weight e in
              subst (λ p. Moved (pos (p * r.match_quantity)) F G) (sym w)
                (frozen_of-settle_match users stocks tickers u r.buyer_expected_price r h
                  (
                    (==_iff r.buyer_user_id u).0 e,
                    refl,
                    le,
                    subst (λ p. p * r.match_quantity < 2 ^ 63) w bound,
                  )
                  there)
          | inr e ↦
              let w : 0 ≡ due_for u r * r.match_quantity =
                omega arith ∙ ap (λ p. p * r.match_quantity) (sym (ap weight e)) in
              subst (λ (n : ℕ). Moved (pos n) F G) w
                (Moved-none F G (
                  frozen_of-commit_sell u r.sell_user_id r.ticker_id _ _ _
                  ∙ frozen_of-commit_buy_other u r.buyer_user_id r.ticker_id _ _ _ h.accounts e))
        ]

  matches_frozen :
      (rs : List MatchRecord) (h : Holders Db)
      → get_account u h.accounts ≢ none
      → All WithinOffer rs
      → due u rs < 2 ^ 63
      → Moved
          (pos (due u rs))
          (frozen_of u h.accounts)
          (frozen_of u (settle_matches users stocks tickers rs h).accounts)
  unfolding settle_matches
  matches_frozen [] h there le bound = let F = frozen_of u h.accounts in Moved-none F F refl
  matches_frozen (r ∷ rs) h there le bound =
      let d = due_for u r * r.match_quantity in
      let F = frozen_of u h.accounts in
      let next = settle_match users stocks tickers r h in
      let G = frozen_of u (settle_matches users stocks tickers rs next).accounts in
      subst (λ x. Moved x F G) (pos_add d (due u rs))
        (Moved-trans (pos d) (pos (due u rs)) F (frozen_of u next.accounts) G
          (match_frozen r h there le.0 (omega (arith, bound)))
          (matches_frozen rs next (match_exists r h there) le.1 (omega (arith, bound))))

  -- A user has frozen what the user's resting bids and the new order are good for, and some more
  -- for other orders, below 2^63 in all. When the order was processed on a well formed book with no
  -- records, and its trades were settled, the user has frozen what the bids are good for that rest
  -- now, and as much for the others as before. A sell order needs no cash.
  pub process_settle-backed :
      (now : ℕ → ℕ) (p : ℕ) (b : Book) (h : Holders Db) (others : ℕ)
      → IsValid b
      → IsNew p b
      → b.results ≡ []
      → get_account u h.accounts ≢ none
      → owed u (market_of b).bids + placed u (b.store p).side (b.store p) + others < 2 ^ 63
      → frozen_of u h.accounts
        ≡ pos (owed u (market_of b).bids + placed u (b.store p).side (b.store p) + others)
      → let c = process_order now p b in
        frozen_of u (settle_matches users stocks tickers c.results h).accounts
        ≡ pos (owed u (market_of c).bids + others)
  process_settle-backed now p b h others v new empty there bound backed =
      let c = process_order now p b in
      let left = owed u (market_of c).bids in
      let before = owed u (market_of b).bids + placed u (b.store p).side (b.store p) in
      let honest = process_order-Honours now p b v new in
      let only : c.results ≡ honest.0 = honest.1 ∙ ap (λ rs. rs ++ honest.0) empty in
      let none_due = ap (due u) empty in
      let total : before ≡ left + due u c.results =
        omega (arith, process_order-owed u now p b v new, none_due) in
      let sum : frozen_of u h.accounts ≡ pos (left + others + due u c.results) =
        backed ∙ ap (λ (n : ℕ). pos n) (omega (arith, total)) in
      Moved-exact (pos (due u c.results)) (frozen_of u h.accounts)
        (frozen_of u (settle_matches users stocks tickers c.results h).accounts)
        (pos (left + others))
        (matches_frozen c.results h there
          (subst (All WithinOffer) (sym only) (Honours-offer (b.store p) honest.0 honest.2))
          (omega (arith, total, bound)))
        (subst FitsInt64 (sym backed) (omega arith, omega arith))
        (ap (λ z. z -ℤ pos (due u c.results)) sum ∙ taken_back (left + others) (due u c.results))
        (omega (arith, total, bound), omega arith)
