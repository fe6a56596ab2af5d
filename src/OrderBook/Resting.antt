-- ===== src/OrderBook/Resting.antt =====
-- Which orders rest in the book of include/OrderBook.hpp after an operation.
use exchange_server.Prelude.{ℕ, ◌%◌, ◌^◌, sym, subst, All, ltb, Bool-cases, inl, inr, Option-cases}
use exchange_server.Common.{OrderSide, buy, sell}
use exchange_server.OrderBook.{
  Book, match_buy_order, match_sell_order, match_order, process_order, cancel_order, match_levels,
  ask_stops, bid_stops, buy_record, sell_record, higher, remove_from,
}
use exchange_server.OrderBook.Spec.{addresses}
use exchange_server.OrderBook.Levels.{match_levels-All, match_levels-same}
use exchange_server.OrderBook.Push.{push_back-All, ltb-IsOrder, higher-IsOrder}
use exchange_server.OrderBook.Remove.{remove_at-All}
use exchange_server.OrderBook.Cancel.{indexed, cancel_order-none, cancel_order-some}

-- A property of every resting order's address.
abbrev pub Everywhere : (ℕ → Type 0) → Book → Type 0
Everywhere P b = All P (addresses b.bids) × All P (addresses b.asks)

module _ (P : ℕ → Type 0) (now : ℕ → ℕ) (p : ℕ) (b : Book) (new : P p) (old : Everywhere P b) where
  match_buy_order-All : Everywhere P (match_buy_order now p b)
  unfolding match_buy_order
  match_buy_order-All =
      let c = (match_levels now buy_record ask_stops p b.asks b).1 in
      let same = match_levels-same now buy_record ask_stops p b.asks b in
      let left = match_levels-All now buy_record ask_stops p P b.asks b old.1 in
      let kept = subst (λ ls. All P (addresses ls)) (sym same.0) old.0 in
      elim (Bool-cases (ltb 0 (c.store p).quantity)) [
        | inl h ↦
            rw h (push_back-All higher higher-IsOrder (c.store p).price p P c.bids new kept, left)
        | inr h ↦ rw h (kept, left)
      ]

  match_sell_order-All : Everywhere P (match_sell_order now p b)
  unfolding match_sell_order
  match_sell_order-All =
      let c = (match_levels now sell_record bid_stops p b.bids b).1 in
      let same = match_levels-same now sell_record bid_stops p b.bids b in
      let left = match_levels-All now sell_record bid_stops p P b.bids b old.0 in
      let kept = subst (λ ls. All P (addresses ls)) (sym same.1) old.1 in
      elim (Bool-cases (ltb 0 (c.store p).quantity)) [
        | inl h ↦ rw h (left, push_back-All ltb ltb-IsOrder (c.store p).price p P c.asks new kept)
        | inr h ↦ rw h (left, kept)
      ]

  match_order-All : (side : OrderSide) → Everywhere P (match_order now side p b)
  match_order-All buy = match_buy_order-All
  match_order-All sell = match_sell_order-All

  -- Only the new order can come to rest.
  pub process_order-All : Everywhere P (process_order now p b)
  unfolding process_order
  process_order-All =
      elim (Bool-cases (ltb 0 ((match_order now (b.store p).side p b).store p).quantity)) [
        | inl h ↦ rw h (match_order-All (b.store p).side)
        | inr h ↦ rw h (match_order-All (b.store p).side)
      ]

remove_from-All :
    (P : ℕ → Type 0) (side : OrderSide) (price oid : ℕ) (b : Book)
    → Everywhere P b
    → Everywhere P (remove_from side price oid b)
remove_from-All P buy price oid b h = (remove_at-All b.store price oid P b.bids h.0, h.1)
remove_from-All P sell price oid b h = (h.0, remove_at-All b.store price oid P b.asks h.1)

pub cancel_order-All :
    (P : ℕ → Type 0) (id uid : ℕ) (b : Book)
    → Everywhere P b
    → Everywhere P (cancel_order id uid b).1
cancel_order-All P id uid b h = elim (Option-cases (indexed id uid b)) [
  | inl e ↦ rw (cancel_order-none id uid b e) h
  | inr (p, e) ↦
      rw (cancel_order-some id uid b p e) (
        let r = remove_from-All P (b.store p).side (b.store p).price (id % 2 ^ 32) b h in
        (r.0, r.1))
]
