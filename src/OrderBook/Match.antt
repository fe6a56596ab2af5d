-- ===== src/OrderBook/Match.antt =====
-- What the loops of include/OrderBook.hpp leave behind, on either side of the book.
use exchange_server.Prelude.{
  ℕ, ◌<◌, Bool, true, List, [], ◌∷◌, ◌≡◌, subst, inl, inr, ◌⊎◌, arith, All, Fresh, ltb,
}
use exchange_server.Common.{OrderSide, Order, MatchRecord}
use exchange_server.OrderBook.{Store, Levels, Book, match_levels, higher, ask_stops, bid_stops}
use exchange_server.OrderBook.Spec.{Outcome, fill, queue_of, addresses, Filled}
use exchange_server.OrderBook.Fill.{Rests, Stopped, fill-Stopped, fill-taker}
use exchange_server.OrderBook.Refines.{match_levels-refines}
use exchange_server.OrderBook.Levels.{Sorted}
use exchange_server.OrderBook.Invariant.{IsSide}

above-All :
    (price q : ℕ) (ls : Levels)
    → price < q
    → All (λ (l : ℕ × List ℕ). ltb q l.0 ≡ true) ls
    → All (λ (l : ℕ × List ℕ). price < l.0) ls
above-All price q [] h k = tt
above-All price q (l ∷ ls) h k = (ground arith, above-All price q ls h k.1)

below-All :
    (price q : ℕ) (ls : Levels)
    → q < price
    → All (λ (l : ℕ × List ℕ). higher q l.0 ≡ true) ls
    → All (λ (l : ℕ × List ℕ). l.0 < price) ls
below-All price q [] h k = tt
below-All price q (l ∷ ls) h k = (ground arith, below-All price q ls h k.1)

-- A buy order that stops at the best ask is below every ask.
pub asks_above :
    (s : Store) (price : ℕ) (ls : Levels)
    → Filled ls
    → Sorted ltb ls
    → Stopped ask_stops price (queue_of s ls)
    → All (λ (l : ℕ × List ℕ). price < l.0) ls
asks_above s price [] n v h = tt
asks_above s price ((q, []) ∷ ls) n v h = absurd n
asks_above s price ((q, m ∷ ms) ∷ ls) n v h =
    let below : price < q = ground arith in (below, above-All price q ls below v.0)

pub bids_below :
    (s : Store) (price : ℕ) (ls : Levels)
    → Filled ls
    → Sorted higher ls
    → Stopped bid_stops price (queue_of s ls)
    → All (λ (l : ℕ × List ℕ). l.0 < price) ls
bids_below s price [] n v h = tt
bids_below s price ((q, []) ∷ ls) n v h = absurd n
bids_below s price ((q, m ∷ ms) ∷ ls) n v h =
    let above : q < price = ground arith in (above, below-All price q ls above v.0)

pub All-under :
    (P Q : ℕ → Type 0) (ls : Levels)
    → ((x : ℕ) → P x → Q x)
    → All (λ (l : ℕ × List ℕ). P l.0) ls
    → All (λ (l : ℕ × List ℕ). Q l.0) ls
All-under P Q [] f h = tt
All-under P Q (l ∷ ls) f h = (f l.0 h.0, All-under P Q ls f h.1)

pub All-both :
    (P Q R : ℕ → Type 0) (ls : Levels)
    → ((x : ℕ) → P x → Q x → R x)
    → All (λ (l : ℕ × List ℕ). P l.0) ls
    → All (λ (l : ℕ × List ℕ). Q l.0) ls
    → All (λ (l : ℕ × List ℕ). R l.0) ls
All-both P Q R [] f h k = tt
All-both P Q R (l ∷ ls) f h k = (f l.0 h.0 k.0, All-both P Q R ls f h.1 k.1)

-- The address `p` is that of an order which does not rest in the book.
pub record IsNew (p : ℕ) (b : Book) : Type 0 where
  pub bids : Fresh p (addresses b.bids)
  pub asks : Fresh p (addresses b.asks)

served-not-left : (n : ℕ) → n ≡ 0 → ltb 0 n ≡ true → ⊥
served-not-left n e h = ground arith

-- What the loops leave, on either side.
module _ (now : ℕ → ℕ) (make : ℕ → Order → Order → ℕ → ℕ → ℕ → MatchRecord)
    (stops before : ℕ → ℕ → Bool) (side : OrderSide) (p : ℕ) (ls : Levels) (b : Book)
    (v : IsSide before side b.store ls) (new : Fresh p (addresses ls)) where
  abbrev pub matched : Levels × Book
  matched = match_levels now make stops p ls b

  abbrev pub expected : Outcome
  expected = fill now make stops b.ticker_id (b.store p) b.ticks b.results (queue_of b.store ls)

  abbrev pub found : Outcome
  found = record {
    taker = matched.1.store p;
    queue = queue_of matched.1.store matched.0;
    records = matched.1.results;
    ticks = matched.1.ticks;
  }

  pub found_lem : expected ≡ found
  found_lem = match_levels-refines now make stops p ls b v.filled v.distinct new

  pub found-taker :
      matched.1.store p ≡ record (b.store p) { quantity = (matched.1.store p).quantity }
  found-taker =
      subst (λ (o : Outcome). o.taker ≡ record (b.store p) { quantity = o.taker.quantity })
        found_lem
        (fill-taker now make stops b.ticker_id (b.store p) b.ticks b.results (queue_of b.store ls))

  pub found-Stopped :
      ((matched.1.store p).quantity ≡ 0)
      ⊎ Stopped stops (b.store p).price (queue_of matched.1.store matched.0)
  found-Stopped =
      subst (λ (o : Outcome). (o.taker.quantity ≡ 0) ⊎ Stopped stops (b.store p).price o.queue)
        found_lem
        (fill-Stopped now make stops b.ticker_id (b.store p) b.ticks b.results
          (queue_of b.store ls))

  pub found-Rests :
      (own : OrderSide)
      → (b.store p).side ≡ own
      → ltb 0 (matched.1.store p).quantity ≡ true
      → Rests own ((b.store p).price, matched.1.store p)
  found-Rests own e h = ground (arith, found-taker)

  pub found-front :
      ltb 0 (matched.1.store p).quantity ≡ true
      → Stopped stops (b.store p).price (queue_of matched.1.store matched.0)
  found-front h = elim found-Stopped [
    | inl e ↦ absurd (served-not-left (matched.1.store p).quantity e h)
    | inr q ↦ q
  ]
