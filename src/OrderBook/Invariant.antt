-- ===== src/OrderBook/Invariant.antt =====
-- What include/OrderBook.hpp keeps true of a book, and one side at a time how.
use exchange_server.Prelude.{
  ℕ, ◌<◌, Bool, List, [], ◌∷◌, ◌≡◌, sym, ap, subst, arith, All, Fresh, Distinct, ltb,
}
use exchange_server.Common.{OrderSide, buy, sell, Order, MatchRecord}
use exchange_server.OrderBook.{Store, Levels, Book, push_back, match_levels, higher}
use exchange_server.OrderBook.Spec.{Quote, queue_of, addresses, Filled, enqueue}
use exchange_server.OrderBook.Fill.{Rests, fill-Rests}
use exchange_server.OrderBook.Refines.{match_levels-refines, match_levels-SameAt, queue_of-SameAt}
use exchange_server.OrderBook.Levels.{
  Sorted, match_levels-Sorted, match_levels-Filled, match_levels-Distinct,
}
use exchange_server.OrderBook.Push.{
  IsOrder, push_back-Filled, push_back-Sorted, push_back-Distinct, push_back-refines,
}

-- One side: no empty level, the prices in order, each order on its side and at its price with a
-- share left, and each order once.
pub record IsSide (before : ℕ → ℕ → Bool) (side : OrderSide) (s : Store) (ls : Levels)
    : Type 0 where
  pub filled : Filled ls
  pub sorted : Sorted before ls
  pub rests : All (Rests side) (queue_of s ls)
  pub distinct : Distinct (addresses ls)

-- The best bid is below the best ask, and so each bid below each ask.
abbrev pub Uncrossed : Levels → Levels → Type 0
Uncrossed bids asks = All (λ (b : ℕ × List ℕ). All (λ (a : ℕ × List ℕ). b.0 < a.0) asks) bids

pub record IsValid (b : Book) : Type 0 where
  pub bids : IsSide higher buy b.store b.bids
  pub asks : IsSide ltb sell b.store b.asks
  pub apart : All (λ p. Fresh p (addresses b.asks)) (addresses b.bids)
  pub uncrossed : Uncrossed b.bids b.asks

enqueue-Rests :
    (before : ℕ → ℕ → Bool) (side : OrderSide) (x : Quote) (q : List Quote)
    → Rests side x
    → All (Rests side) q
    → All (Rests side) (enqueue before x q)
unfolding enqueue
enqueue-Rests before side x [] h k = (h, tt)
enqueue-Rests before side x (y ∷ q) h k = ground (arith, enqueue-Rests before side x q h k.1)

pub push_back-IsSide :
    (before : ℕ → ℕ → Bool) (side : OrderSide) (s : Store) (price p : ℕ) (ls : Levels)
    → IsOrder before
    → IsSide before side s ls
    → Fresh p (addresses ls)
    → Rests side (price, s p)
    → IsSide before side s (push_back before price p ls)
push_back-IsSide before side s price p ls ord v f r = record {
  filled = push_back-Filled before ord price p ls v.filled;
  sorted = push_back-Sorted before ord price p ls v.sorted;
  rests =
      subst (All (Rests side)) (sym (push_back-refines before ord price p s ls v.filled v.sorted))
        (enqueue-Rests before side (price, s p) (queue_of s ls) r v.rests);
  distinct = push_back-Distinct before ord price p ls f v.distinct;
}

module _ (now : ℕ → ℕ) (make : ℕ → Order → Order → ℕ → ℕ → ℕ → MatchRecord) (stops : ℕ → ℕ → Bool)
    (taker : ℕ) where
  abbrev levels_of : Levels → Book → Levels × Book
  levels_of = match_levels now make stops taker

  -- The side that is matched stays well formed.
  pub match_levels-IsSide :
      (before : ℕ → ℕ → Bool) (side : OrderSide) (ls : Levels) (b : Book)
      → IsSide before side b.store ls
      → Fresh taker (addresses ls)
      → IsSide before side (levels_of ls b).1.store (levels_of ls b).0
  match_levels-IsSide before side ls b v f = record {
    filled = match_levels-Filled now make stops taker ls b v.filled;
    sorted = match_levels-Sorted now make stops taker before ls b v.sorted;
    rests =
        subst (All (Rests side))
          (ap (λ o. o.queue) (match_levels-refines now make stops taker ls b v.filled v.distinct f))
          (fill-Rests now make stops b.ticker_id side (b.store taker) b.ticks b.results
            (queue_of b.store ls) v.rests);
    distinct = match_levels-Distinct now make stops taker ls b v.distinct;
  }

  -- A side that shares no order with the matched levels stays as it is.
  pub match_levels-others :
      (before : ℕ → ℕ → Bool) (side : OrderSide) (ls os : Levels) (b : Book)
      → IsSide before side b.store os
      → Fresh taker (addresses os)
      → All (λ p. Fresh p (addresses ls)) (addresses os)
      → (queue_of (levels_of ls b).1.store os ≡ queue_of b.store os)
        × IsSide before side (levels_of ls b).1.store os
  match_levels-others before side ls os b v f h =
      let e =
        queue_of-SameAt b.store (levels_of ls b).1.store os
          (match_levels-SameAt now make stops taker ls (addresses os) b f h) in
      (
        e,
        record {
          filled = v.filled;
          sorted = v.sorted;
          rests = subst (All (Rests side)) (sym e) v.rests;
          distinct = v.distinct;
        },
      )
