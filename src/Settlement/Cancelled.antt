-- ===== src/Settlement/Cancelled.antt =====
-- A cancelled bid and its frozen cash, through include/OrderBook.hpp, include/OrderBookProcessor.hpp
-- and include/SettlementProcessor.hpp.
use exchange_server.Prelude.{
  ℕ, ◌+◌, ◌*◌, ◌^◌, ◌%◌, ◌<◌, Bool, true, false, ◌&&◌, none, some, List, [], ◌∷◌, ◌++◌, ◌==◌,
  if◌then◌else◌, ◌≡◌, ◌≢◌, refl, sym, ◌∙◌, ap, subst, arith, All,
}
use exchange_server.Prelude.Int.{pos, ◌-ℤ◌}
use exchange_server.Prelude.Words.{mul64, as_int64, as_int64-mul64}
use exchange_server.Prelude.Modulo.{FitsInt64, Moved, Moved-exact}
use exchange_server.Common.{buy, Order}
use exchange_server.OrderBook.{Book, cancel_order}
use exchange_server.OrderBook.Spec.{Quote, Market, withdraw, market_of}
use exchange_server.OrderBook.Invariant.{IsValid}
use exchange_server.OrderBook.Cancel.{indexed, cancel_at, Cancels, cancel_order-Cancels}
use exchange_server.OrderBook.Owed.{owed, price_for}
use exchange_server.Accounts.{get_account, unfreeze_balance}
use exchange_server.Accounts.Frozen.{frozen_of, frozen_of-unfreeze_balance}
use exchange_server.Settlement.Backed.{taken_back}
use exchange_server.Processor.{cancel_record}
use exchange_server.Tickers.{TickerManager}
use exchange_server.Repositories.{UserRepository, StockRepository}
use exchange_server.Settlement.{Holders, settle_cancels, unfreeze_order}

-- A quote that a withdrawal leaves.
abbrev pub Stays : ℕ → ℕ → Quote → Type 0
Stays price oid x = ((x.0 == price) && (x.1.order_id == oid)) ≡ false

withdraw-Stays :
    (price oid : ℕ) (q : List Quote) → All (Stays price oid) q → withdraw price oid q ≡ q
unfolding withdraw
withdraw-Stays price oid [] h = refl
withdraw-Stays price oid (x ∷ q) h = rw (h.0, withdraw-Stays price oid q h.1) refl

withdraw-once :
    (price oid : ℕ) (xs ys : List Quote) (o : Order)
    → o.order_id ≡ oid
    → All (Stays price oid) xs
    → All (Stays price oid) ys
    → withdraw price oid (xs ++ (price, o) ∷ ys) ≡ xs ++ ys
unfolding withdraw
withdraw-once price oid [] ys o e h k =
    let same : ((price == price) && (o.order_id == oid)) ≡ true = ground (arith, e) in
    rw (same, withdraw-Stays price oid ys k) refl
withdraw-once price oid (x ∷ xs) ys o e h k = rw (h.0, withdraw-once price oid xs ys o e h.1 k) refl

owed-append : (u : ℕ) (xs ys : List Quote) → owed u (xs ++ ys) ≡ owed u xs + owed u ys
owed-append u [] ys = omega arith
owed-append u (x ∷ xs) ys = omega (arith, owed-append u xs ys)

-- The bids hold the order of an address once, and no other order with its price and its id.
pub record Once (p oid : ℕ) (b : Book) : Type 0 where
  pub ahead : List Quote
  pub behind : List Quote
  pub bids_eq : (market_of b).bids ≡ ahead ++ ((b.store p).price, b.store p) ∷ behind
  pub id_eq : (b.store p).order_id ≡ oid
  pub ahead_stays : All (Stays (b.store p).price oid) ahead
  pub behind_stays : All (Stays (b.store p).price oid) behind

cancel_order-owed :
    (id uid p : ℕ) (b : Book)
    → IsValid b
    → indexed id uid b ≡ some p
    → ((b.store p).side ≡ buy) × ((b.store p).user_id ≡ uid)
    → Once p (id % 2 ^ 32) b
    → owed uid (market_of b).bids
      ≡ owed uid (market_of (cancel_order id uid b).1).bids
        + (b.store p).price * (b.store p).quantity
cancel_order-owed id uid p b v found own once =
    let o = b.store p in
    let oid = id % 2 ^ 32 in
    let c = (cancel_order id uid b).1 in
    let cancels =
      subst (λ f. Cancels id uid b f (cancel_order id uid b)) found
        (cancel_order-Cancels id uid b v) in
    let bids : (market_of c).bids ≡ once.ahead ++ once.behind =
      ap (λ (m : Market). m.bids) cancels.1
      ∙ ap (λ s. (cancel_at s o.price oid (market_of b)).bids) own.0
      ∙ ap (withdraw o.price oid) once.bids_eq
      ∙ withdraw-once o.price oid once.ahead once.behind o once.id_eq once.ahead_stays
          once.behind_stays in
    let his : (o.user_id == uid) ≡ true = ground (arith, own.1) in
    let weight : price_for uid o * o.quantity ≡ o.price * o.quantity =
      ap (λ (b : Bool). (if b then o.price else 0) * o.quantity) his in
    let before = ap (owed uid) once.bids_eq in
    let after = ap (owed uid) bids in
    omega (
      arith,
      before,
      after,
      weight,
      owed-append uid once.ahead ((o.price, o) ∷ once.behind),
      owed-append uid once.ahead once.behind,
    )

module _ {Db : Type 0} (users : UserRepository Db) (stocks : StockRepository Db)
    (tickers : TickerManager) where
  pub cancel_settle-frozen_of :
      (id uid p time others : ℕ) (b : Book) (h : Holders Db)
      → IsValid b
      → indexed id uid b ≡ some p
      → ((b.store p).side ≡ buy) × ((b.store p).user_id ≡ uid)
      → Once p (id % 2 ^ 32) b
      → get_account uid h.accounts ≢ none
      → owed uid (market_of b).bids + others < 2 ^ 63
      → frozen_of uid h.accounts ≡ pos (owed uid (market_of b).bids + others)
      → frozen_of uid
          (settle_cancels users stocks tickers (cancel_record time (b.store p) ∷ []) h).accounts
        ≡ pos (owed uid (market_of (cancel_order id uid b).1).bids + others)
  unfolding settle_cancels
  cancel_settle-frozen_of id uid p time others b h v found own once there bound backed =
      let o = b.store p in
      let F = frozen_of uid h.accounts in
      let cost = o.price * o.quantity in
      let rest = owed uid (market_of (cancel_order id uid b).1).bids in
      let before : owed uid (market_of b).bids ≡ rest + cost =
        cancel_order-owed id uid p b v found own once in
      let back = as_int64 (mul64 o.price o.quantity) in
      let G = frozen_of uid (unfreeze_balance uid back h.accounts) in
      let moved : Moved (pos cost) F G =
        subst (λ x. Moved x F G) (as_int64-mul64 o.price o.quantity (omega (arith, before, bound)))
          (frozen_of-unfreeze_balance uid h.accounts there back) in
      let sum : F ≡ pos (rest + others + cost) =
        backed ∙ ap (λ (n : ℕ). pos n) (omega (arith, before)) in
      ap (λ s. frozen_of uid (unfreeze_order s (cancel_record time o) h.accounts)) own.0
      ∙ ap (λ w. frozen_of uid (unfreeze_balance w back h.accounts)) own.1
      ∙ Moved-exact (pos cost) F G (pos (rest + others)) moved
          (subst FitsInt64 (sym backed) (omega arith, omega arith))
          (ap (λ z. z -ℤ pos cost) sum ∙ taken_back (rest + others) cost)
          (omega (arith, before, bound), omega arith)
