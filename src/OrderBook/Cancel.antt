-- ===== src/OrderBook/Cancel.antt =====
-- cancelOrder of include/OrderBook.hpp.
use exchange_server.Prelude.{
  ℕ, ◌^◌, ◌%◌, ◌≤◌, ◌<◌, Bool, Option, none, some, List, [], ◌∷◌, ◌≡◌, ◌≢◌, refl, sym, subst, inl,
  inr, arith, All, Fresh, Option-cases, ltb,
}
use exchange_server.Prelude.Map.{Map, lookup, lookup_or, erase, lookup-insert, lookup-erase}
use exchange_server.Common.{OrderSide, buy, sell}
use exchange_server.OrderBook.{
  Store, Levels, Book, higher, remove_at, remove_from, cancel_order, forget,
}
use exchange_server.OrderBook.Spec.{Quote, queue_of, addresses, withdraw, Market, market_of}
use exchange_server.OrderBook.Fill.{Rests}
use exchange_server.OrderBook.Levels.{All-swap}
use exchange_server.OrderBook.Push.{IsOrder, ltb-IsOrder, higher-IsOrder}
use exchange_server.OrderBook.Remove.{
  remove_at-prices, remove_at-Sorted, remove_at-Filled, remove_at-All, remove_at-Distinct,
  remove_at-refines,
}
use exchange_server.OrderBook.Match.{All-under}
use exchange_server.OrderBook.Invariant.{IsSide, IsValid}

withdraw-Rests :
    (side : OrderSide) (price oid : ℕ) (q : List Quote)
    → All (Rests side) q
    → All (Rests side) (withdraw price oid q)
unfolding withdraw
withdraw-Rests side price oid [] h = tt
withdraw-Rests side price oid (x ∷ q) h = ground (arith, withdraw-Rests side price oid q h.1)

remove_at-IsSide :
    (before : ℕ → ℕ → Bool) (side : OrderSide) (s : Store) (price oid : ℕ) (ls : Levels)
    → IsOrder before
    → IsSide before side s ls
    → IsSide before side s (remove_at s price oid ls)
remove_at-IsSide before side s price oid ls ord v = record {
  filled = remove_at-Filled s price oid ls v.filled;
  sorted = remove_at-Sorted s price oid before ls v.sorted;
  rests =
      subst (All (Rests side)) (sym (remove_at-refines s price oid before ord ls v.sorted))
        (withdraw-Rests side price oid (queue_of s ls) v.rests);
  distinct = remove_at-Distinct s price oid ls v.distinct;
}

remove_from-IsValid :
    (side : OrderSide) (price oid : ℕ) (b : Book)
    → IsValid b
    → IsValid (remove_from side price oid b)
remove_from-IsValid buy price oid b v = record {
  bids = remove_at-IsSide higher buy b.store price oid b.bids higher-IsOrder v.bids;
  asks = v.asks;
  apart = remove_at-All b.store price oid (λ q. Fresh q (addresses b.asks)) b.bids v.apart;
  uncrossed =
      remove_at-prices b.store price oid (λ x. All (λ (l : ℕ × List ℕ). x < l.0) b.asks) b.bids
        v.uncrossed;
}
remove_from-IsValid sell price oid b v = record {
  bids = v.bids;
  asks = remove_at-IsSide ltb sell b.store price oid b.asks ltb-IsOrder v.asks;
  apart =
      All-swap (λ x y. x ≢ y) (addresses b.asks) (addresses (remove_at b.store price oid b.asks))
        (λ x. remove_at-All b.store price oid (λ y. x ≢ y) b.asks) (addresses b.bids) v.apart;
  uncrossed =
      All-under (λ x. All (λ (l : ℕ × List ℕ). x < l.0) b.asks)
        (λ x. All (λ (l : ℕ × List ℕ). x < l.0) (remove_at b.store price oid b.asks)) b.bids
        (λ x. remove_at-prices b.store price oid (λ y. x < y) b.asks) v.uncrossed;
}

-- What a cancellation does to the two queues.
abbrev pub cancel_at : OrderSide → ℕ → ℕ → Market → Market
cancel_at buy price oid m = record m { bids = withdraw price oid m.bids }
cancel_at sell price oid m = record m { asks = withdraw price oid m.asks }

remove_from-refines :
    (side : OrderSide) (price oid : ℕ) (b : Book)
    → IsValid b
    → market_of (remove_from side price oid b) ≡ cancel_at side price oid (market_of b)
remove_from-refines buy price oid b v =
    ground (arith, remove_at-refines b.store price oid higher higher-IsOrder b.bids v.bids.sorted)
remove_from-refines sell price oid b v =
    ground (arith, remove_at-refines b.store price oid ltb ltb-IsOrder b.asks v.asks.sorted)

-- The order that the index gives for a user and the low 32 bits of an id.
abbrev pub indexed : ℕ → ℕ → Book → Option ℕ
indexed id uid b = lookup (id % 2 ^ 32) (lookup_or [] uid b.active)

forget_self :
    (uid oid : ℕ) (m : Map (Map ℕ)) → lookup oid (lookup_or [] uid (forget uid oid m)) ≡ none
forget_self uid oid m = ground (
  arith,
  lookup-insert uid uid (erase oid (lookup_or [] uid m)) m,
  lookup-erase oid oid (lookup_or [] uid m),
)

lookup-large :
    (k : ℕ) (m : Map ℕ) → k < 2 ^ 32 → All (λ (e : ℕ × ℕ). 2 ^ 32 ≤ e.0) m → lookup k m ≡ none
lookup-large k [] h a = refl
lookup-large k (e ∷ m) h a = ground (arith, lookup-large k m h a.1)

module _ (id uid : ℕ) (b : Book) where
  pub cancel_order-none : indexed id uid b ≡ none → cancel_order id uid b ≡ (none, b)
  unfolding cancel_order
  cancel_order-none h = ground arith

  pub cancel_order-some :
      (p : ℕ)
      → indexed id uid b ≡ some p
      → cancel_order id uid b ≡ (
        some p,
        record (remove_from (b.store p).side (b.store p).price (id % 2 ^ 32) b) {
          active = forget uid (id % 2 ^ 32) b.active;
        },
      )
  unfolding cancel_order
  cancel_order-some p h = ground arith

  -- A cancellation keeps the book well formed, whether it finds an order or not.
  pub cancel_order-IsValid : IsValid b → IsValid (cancel_order id uid b).1
  cancel_order-IsValid v = elim (Option-cases (indexed id uid b)) [
    | inl h ↦ rw (cancel_order-none h) v
    | inr (p, h) ↦
        let w = remove_from-IsValid (b.store p).side (b.store p).price (id % 2 ^ 32) b v in
        rw (cancel_order-some p h)
          (record { bids = w.bids; asks = w.asks; apart = w.apart; uncrossed = w.uncrossed })
  ]

  -- The two outcomes of `cancelOrder`.
  abbrev pub Cancels : Option ℕ → Option ℕ × Book → Type 0
  Cancels none r = r ≡ (none, b)
  Cancels (some p) r =
      (r.0 ≡ some p)
      × (market_of r.1 ≡ cancel_at (b.store p).side (b.store p).price (id % 2 ^ 32) (market_of b))
      × (r.1.active ≡ forget uid (id % 2 ^ 32) b.active)
      × (indexed id uid r.1 ≡ none)

  -- On a well formed book a cancellation has the outcome `Cancels`: with no entry in the user's
  -- index it returns none and changes nothing; else it returns the order, takes the quotes of its
  -- price that carry the id from its side and no others, and drops the entry.
  pub cancel_order-Cancels : IsValid b → Cancels (indexed id uid b) (cancel_order id uid b)
  cancel_order-Cancels v = elim (Option-cases (indexed id uid b)) [
    | inl h ↦ rw h (cancel_order-none h)
    | inr (p, h) ↦ rw h (
        rw (cancel_order-some p h) (
          refl,
          remove_from-refines (b.store p).side (b.store p).price (id % 2 ^ 32) b v,
          refl,
          forget_self uid (id % 2 ^ 32) b.active,
        ))
  ]

  -- A cancellation never finds an order of a user whose active orders all have ids of 2^32 or more.
  pub cancel_order-large :
      All (λ (e : ℕ × ℕ). 2 ^ 32 ≤ e.0) (lookup_or [] uid b.active)
      → cancel_order id uid b ≡ (none, b)
  cancel_order-large h =
      cancel_order-none (lookup-large (id % 2 ^ 32) (lookup_or [] uid b.active) (omega arith) h)
