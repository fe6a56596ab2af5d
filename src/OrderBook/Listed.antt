-- ===== src/OrderBook/Listed.antt =====
-- cancelOrder and getUserActiveOrder of include/OrderBook.hpp against the index of active orders.
use exchange_server.Prelude.{
  ltb, ℕ, ◌%◌, ◌^◌, Bool, true, false, ◌&&◌, not, ◌==◌, ==_iff, ◌≡◌, ◌≢◌, refl, sym, ap, ◌∙◌, subst,
  inl, inr, arith, Bool-cases, Option-cases, elem,
}
use exchange_server.Common.{OrderSide, buy, sell}
use exchange_server.OrderBook.{Book, higher, remove_from, cancel_order, forget}
use exchange_server.OrderBook.Spec.{addresses}
use exchange_server.OrderBook.Push.{ltb-IsOrder, higher-IsOrder}
use exchange_server.OrderBook.Invariant.{IsValid}
use exchange_server.OrderBook.Cancel.{indexed, cancel_order-none, cancel_order-some}
use exchange_server.OrderBook.Index.{Indexes, Indexes-set, entry_lem, forget-Indexes, without}
use exchange_server.OrderBook.Once.{forget-Once}
use exchange_server.OrderBook.Active.{resting, IsIndexed}
use exchange_server.OrderBook.Removed.{elem-remove_at, queue_of-side}

not_both : (side : OrderSide) → side ≡ buy → side ≡ sell → ⊥
not_both side e f = ground (arith, e, f)

module _ (b : Book) (v : IsValid b) (x : IsIndexed b) (p : ℕ) (here : resting b p ≡ true) where
  -- Only the order itself has its id.
  gone-same :
      (r : ℕ)
      → resting b r ≡ true
      → (((b.store r).price == (b.store p).price) && ((b.store r).order_id == (b.store p).order_id))
        ≡ (r == p)
  gone-same r k = elim (Bool-cases (r == p)) [
    | inl e ↦ let same : r ≡ p = (==_iff r p).0 e in rw (e, same) (ground arith)
    | inr e ↦
        let other : (b.store r).order_id ≢ (b.store p).order_id =
          λ i. ground (arith, x.index.unique r p k here i) in
        ground arith
  ]

  buy-not-sell :
      (b.store p).side ≡ buy → (r : ℕ) → (r == p) ≡ true → elem r (addresses b.asks) ≡ false
  buy-not-sell own r e = elim (Bool-cases (elem r (addresses b.asks))) [
    | inl i ↦
        let other = queue_of-side b.store 0 0 r sell b.asks v.asks.rests i in
        let same : r ≡ p = (==_iff r p).0 e in
        absurd (not_both (b.store p).side own (ap (λ q. (b.store q).side) (sym same) ∙ other))
    | inr i ↦ i
  ]

  sell-not-buy :
      (b.store p).side ≡ sell → (r : ℕ) → (r == p) ≡ true → elem r (addresses b.bids) ≡ false
  sell-not-buy own r e = elim (Bool-cases (elem r (addresses b.bids))) [
    | inl i ↦
        let other = queue_of-side b.store 0 0 r buy b.bids v.bids.rests i in
        let same : r ≡ p = (==_iff r p).0 e in
        absurd (not_both (b.store p).side (ap (λ q. (b.store q).side) (sym same) ∙ other) own)
    | inr i ↦ i
  ]

  cancelled-set :
      (side : OrderSide)
      → (b.store p).side ≡ side
      → (r : ℕ)
      → resting (remove_from side (b.store p).price (b.store p).order_id b) r
        ≡ (resting b r && not (r == p))
  cancelled-set buy own r =
      let e =
        elem-remove_at b.store (b.store p).price (b.store p).order_id r buy higher higher-IsOrder
          b.bids v.bids.sorted v.bids.rests in
      elim (Bool-cases (elem r (addresses b.bids))) [
        | inl i ↦ ground (arith, e, i, gone-same r (ground (arith, i)), buy-not-sell own r)
        | inr i ↦ ground (arith, e, i, buy-not-sell own r)
      ]
  cancelled-set sell own r =
      let e =
        elem-remove_at b.store (b.store p).price (b.store p).order_id r sell ltb ltb-IsOrder b.asks
          v.asks.sorted v.asks.rests in
      elim (Bool-cases (elem r (addresses b.asks))) [
        | inl i ↦ ground (arith, e, i, gone-same r (ground (arith, i)), sell-not-buy own r)
        | inr i ↦ ground (arith, e, i, sell-not-buy own r)
      ]

  -- The book without the order.
  abbrev withdrawn : OrderSide → Book
  withdrawn side = record (remove_from side (b.store p).price (b.store p).order_id b) {
    active = forget (b.store p).user_id (b.store p).order_id b.active;
  }

  gone-Indexes :
      (R : ℕ → Bool)
      → ((r : ℕ) → R r ≡ (resting b r && not (r == p)))
      → Indexes b.store (forget (b.store p).user_id (b.store p).order_id b.active) R
  gone-Indexes R e =
      Indexes-set b.store (forget (b.store p).user_id (b.store p).order_id b.active)
        (without b.store b.active (resting b) x.index p) R e
        (forget-Indexes b.store b.active (resting b) x.index p here)

  withdrawn-IsIndexed : (side : OrderSide) → (b.store p).side ≡ side → IsIndexed (withdrawn side)
  withdrawn-IsIndexed buy own = record {
    index = gone-Indexes (resting (withdrawn buy)) (cancelled-set buy own);
    once = forget-Once (b.store p).user_id (b.store p).order_id b.active x.once;
  }
  withdrawn-IsIndexed sell own = record {
    index = gone-Indexes (resting (withdrawn sell)) (cancelled-set sell own);
    once = forget-Once (b.store p).user_id (b.store p).order_id b.active x.once;
  }

module _ (id uid : ℕ) (b : Book) (v : IsValid b) (x : IsIndexed b) where
  pub cancel_order-store : (cancel_order id uid b).1.store ≡ b.store
  cancel_order-store = elim (Option-cases (indexed id uid b)) [
    | inl h ↦ rw (cancel_order-none id uid b h) refl
    | inr (p, h) ↦
        rw (cancel_order-some id uid b p h)
          (remove_from-store (b.store p).price (id % 2 ^ 32) (b.store p).side)
  ]
    where
      remove_from-store :
          (price oid : ℕ) (side : OrderSide) → (remove_from side price oid b).store ≡ b.store
      remove_from-store price oid buy = refl
      remove_from-store price oid sell = refl

  -- A cancellation keeps the index exact.
  pub cancel_order-IsIndexed : IsIndexed (cancel_order id uid b).1
  cancel_order-IsIndexed = elim (Option-cases (indexed id uid b)) [
    | inl h ↦ rw (cancel_order-none id uid b h) x
    | inr (p, h) ↦
        let oid = id % 2 ^ 32 in
        let (here, user, number) = x.index.sound uid oid p (entry_lem uid oid b.active ∙ h) in
        let o = b.store p in
        rw (cancel_order-some id uid b p h) (
          subst
            (λ u.
              IsIndexed
                (record (remove_from o.side o.price oid b) { active = forget u oid b.active }))
            user
            (subst
              (λ k.
                IsIndexed (record (remove_from o.side o.price k b) {
                  active = forget o.user_id k b.active;
                }))
              number (withdrawn-IsIndexed b v x p here o.side refl)))
  ]
