-- ===== src/OrderBook/Active.antt =====
-- The index of active orders in include/OrderBook.hpp holds the resting orders, each once.
use exchange_server.Prelude.{
  ℕ, Bool, true, false, ◌||◌, List, [], ◌∷◌, ◌++◌, ◌==◌, ◌≡◌, ◌≢◌, sym, ◌∙◌, subst, inl, inr, arith,
  All, Fresh-swap, Bool-cases, ltb, if◌then◌else◌, elem, elem-append, elem-All,
}
use exchange_server.Common.{OrderSide, buy, sell}
use exchange_server.OrderBook.{
  Store, Levels, Book, higher, ask_stops, bid_stops, buy_record, sell_record, push_back,
  match_buy_order, match_sell_order, match_order, process_order, remember,
}
use exchange_server.OrderBook.Spec.{addresses}
use exchange_server.OrderBook.Levels.{match_levels-All}
use exchange_server.OrderBook.Invariant.{IsValid}
use exchange_server.OrderBook.Match.{IsNew}
use exchange_server.OrderBook.Process.{
  bought, sold, match_buy_order-rest, match_buy_order-done, match_sell_order-rest,
  match_sell_order-done,
}
use exchange_server.OrderBook.Index.{Indexes, SameIds, Indexes-set, remember-Indexes, with_one}
use exchange_server.OrderBook.Indexed.{among, Avoids-elem, Keeps, match_levels-Keeps}
use exchange_server.OrderBook.Once.{Once, remember-Once, match_levels-Once}

-- The addresses of the resting orders.
abbrev pub resting : Book → ℕ → Bool
resting b p = elem p (addresses b.bids) || elem p (addresses b.asks)

pub record IsIndexed (b : Book) : Type 0 where
  pub index : Indexes b.store b.active (resting b)
  pub once : Once b.active

-- The two orders have different ids.
abbrev pub OtherId : Store → ℕ → ℕ → Type 0
OtherId s p r = (s r).order_id ≢ (s p).order_id

OtherId-same :
    (s s' : Store) (p r : ℕ) (xs ys : List ℕ)
    → SameIds s s'
    → All (OtherId s p) xs
    → All (OtherId s p) ys
    → (elem r xs || elem r ys) ≡ true
    → OtherId s' p r
OtherId-same s s' p r xs ys e h k a f =
    let g : (s r).order_id ≡ (s p).order_id = sym (e.id_eq r) ∙ f ∙ e.id_eq p in
    elim (Bool-cases (elem r xs)) [
      | inl i ↦ elem-All (OtherId s p) r xs h i g
      | inr i ↦ elem-All (OtherId s p) r ys k (ground (arith, a, i)) g
    ]

elem-push_back :
    (before : ℕ → ℕ → Bool) (price p r : ℕ) (ls : Levels)
    → elem r (addresses (push_back before price p ls)) ≡ ((r == p) || elem r (addresses ls))
elem-push_back before price p r [] = ground arith
elem-push_back before price p r ((q, ms) ∷ ls) = ground (
  arith,
  elem-push_back before price p r ls,
  elem-append r ms (addresses ls),
  elem-append r ms (addresses (push_back before price p ls)),
  elem-append r (ms ++ p ∷ []) (addresses ls),
  elem-append r ms (p ∷ []),
)

-- The last step of `processOrder`.
abbrev finish : ℕ → Book → Book
finish p c =
    let o = c.store p in
    if ltb 0 o.quantity then record c { active = remember o.user_id o.order_id p c.active } else c

module _ (p : ℕ) (d : Book) (K : ℕ → Bool) (x : Indexes d.store d.active K)
    (n : Once d.active) where
  finish-rest :
      ltb 0 (d.store p).quantity ≡ true
      → ((r : ℕ) → K r ≡ true → OtherId d.store p r)
      → ((r : ℕ) → resting d r ≡ ((r == p) || K r))
      → IsIndexed (finish p d)
  finish-rest h new e = rw h (record {
    index =
        Indexes-set d.store (remember (d.store p).user_id (d.store p).order_id p d.active)
          (with_one d.store d.active K x p) (resting d) e
          (remember-Indexes d.store d.active K x p new);
    once = remember-Once (d.store p).user_id (d.store p).order_id p d.active n;
  })

  finish-done :
      ltb 0 (d.store p).quantity ≡ false → ((r : ℕ) → resting d r ≡ K r) → IsIndexed (finish p d)
  finish-done h e =
      rw h (record { index = Indexes-set d.store d.active K (resting d) e x; once = n })

module _ (now : ℕ → ℕ) (p : ℕ) (b : Book) (v : IsValid b) (new : IsNew p b) (x : IsIndexed b)
    (other : All (OtherId b.store p) (addresses b.bids)
      × All (OtherId b.store p) (addresses b.asks)) where
  abbrev bought_set : ℕ → Bool
  bought_set = among (addresses (bought now p b v new).0) (λ r. elem r (addresses b.bids))

  bought-Keeps :
      Keeps now buy_record ask_stops p
        (λ r. elem r (addresses b.bids))
        b
        (addresses (bought now p b v new).0, (bought now p b v new).1)
  bought-Keeps =
      match_levels-Keeps now buy_record ask_stops p b.asks (λ r. elem r (addresses b.bids)) b
        v.asks.distinct
        (Avoids-elem (addresses b.bids) (addresses b.asks)
          (Fresh-swap (addresses b.bids) (addresses b.asks) v.apart))
        (Indexes-set b.store b.active (resting b)
          (among (addresses b.asks) (λ r. elem r (addresses b.bids))) (λ r. ground arith) x.index)

  bought-other : (r : ℕ) → bought_set r ≡ true → OtherId (bought now p b v new).1.store p r
  bought-other r =
      OtherId-same b.store (bought now p b v new).1.store p r (addresses (bought now p b v new).0)
        (addresses b.bids) bought-Keeps.ids
        (match_levels-All now buy_record ask_stops p (OtherId b.store p) b.asks b other.1) other.0

  match_buy_order-IsIndexed : IsIndexed (finish p (match_buy_order now p b))
  match_buy_order-IsIndexed =
      let (left, c) = bought now p b v new in
      let n = match_levels-Once now buy_record ask_stops p b.asks b x.once in
      elim (Bool-cases (ltb 0 (c.store p).quantity)) [
        | inl h ↦
            let d = record c { asks = left; bids = push_back higher (b.store p).price p b.bids } in
            subst (λ e. IsIndexed (finish p e)) (sym (match_buy_order-rest now p b v new h))
              (finish-rest p d bought_set bought-Keeps.index n h bought-other
                (λ r. ground (arith, elem-push_back higher (b.store p).price p r b.bids)))
        | inr h ↦
            let d = record c { asks = left; bids = b.bids } in
            subst (λ e. IsIndexed (finish p e)) (sym (match_buy_order-done now p b v new h))
              (finish-done p d bought_set bought-Keeps.index n h (λ r. ground arith))
      ]

  abbrev sold_set : ℕ → Bool
  sold_set = among (addresses (sold now p b v new).0) (λ r. elem r (addresses b.asks))

  sold-Keeps :
      Keeps now sell_record bid_stops p
        (λ r. elem r (addresses b.asks))
        b
        (addresses (sold now p b v new).0, (sold now p b v new).1)
  sold-Keeps =
      match_levels-Keeps now sell_record bid_stops p b.bids (λ r. elem r (addresses b.asks)) b
        v.bids.distinct (Avoids-elem (addresses b.asks) (addresses b.bids) v.apart)
        (Indexes-set b.store b.active (resting b)
          (among (addresses b.bids) (λ r. elem r (addresses b.asks))) (λ r. ground arith) x.index)

  sold-other : (r : ℕ) → sold_set r ≡ true → OtherId (sold now p b v new).1.store p r
  sold-other r =
      OtherId-same b.store (sold now p b v new).1.store p r (addresses (sold now p b v new).0)
        (addresses b.asks) sold-Keeps.ids
        (match_levels-All now sell_record bid_stops p (OtherId b.store p) b.bids b other.0) other.1

  match_sell_order-IsIndexed : IsIndexed (finish p (match_sell_order now p b))
  match_sell_order-IsIndexed =
      let (left, c) = sold now p b v new in
      let n = match_levels-Once now sell_record bid_stops p b.bids b x.once in
      elim (Bool-cases (ltb 0 (c.store p).quantity)) [
        | inl h ↦
            let d = record c { bids = left; asks = push_back ltb (b.store p).price p b.asks } in
            subst (λ e. IsIndexed (finish p e)) (sym (match_sell_order-rest now p b v new h))
              (finish-rest p d sold_set sold-Keeps.index n h sold-other
                (λ r. ground (arith, elem-push_back ltb (b.store p).price p r b.asks)))
        | inr h ↦
            let d = record c { bids = left; asks = b.asks } in
            subst (λ e. IsIndexed (finish p e)) (sym (match_sell_order-done now p b v new h))
              (finish-done p d sold_set sold-Keeps.index n h (λ r. ground arith))
      ]

  match_order-IsIndexed : (side : OrderSide) → IsIndexed (finish p (match_order now side p b))
  match_order-IsIndexed buy = match_buy_order-IsIndexed
  match_order-IsIndexed sell = match_sell_order-IsIndexed

  match_order-SameIds :
      (side : OrderSide) → SameIds b.store (finish p (match_order now side p b)).store
  unfolding match_buy_order match_sell_order
  match_order-SameIds buy = record {
    user_eq = λ r. ground (arith, bought-Keeps.ids.user_eq r);
    id_eq = λ r. ground (arith, bought-Keeps.ids.id_eq r);
  }
  match_order-SameIds sell = record {
    user_eq = λ r. ground (arith, sold-Keeps.ids.user_eq r);
    id_eq = λ r. ground (arith, sold-Keeps.ids.id_eq r);
  }

  pub process_order-SameIds : SameIds b.store (process_order now p b).store
  unfolding process_order
  process_order-SameIds = match_order-SameIds (b.store p).side

  -- Processing a new order whose id no resting order has keeps the index exact.
  pub process_order-IsIndexed : IsIndexed (process_order now p b)
  unfolding process_order
  process_order-IsIndexed = match_order-IsIndexed (b.store p).side
