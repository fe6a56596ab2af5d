-- ===== src/OrderBook/Removed.antt =====
-- Which addresses remove_if of include/OrderBook.hpp takes from the price levels.
use exchange_server.Prelude.{
  ℕ, Bool, true, false, ◌&&◌, not, List, [], ◌∷◌, ◌==◌, ==_iff, ◌≡◌, refl, sym, ap, ◌∙◌, subst, inl,
  inr, arith, All, All-append_left, All-append_right, Bool-cases, elem, elem-append,
}
use exchange_server.Common.{OrderSide}
use exchange_server.OrderBook.{Store, Levels, remove_id, remove_at}
use exchange_server.OrderBook.Spec.{quotes_at, queue_of, addresses}
use exchange_server.OrderBook.Fill.{Rests}
use exchange_server.OrderBook.Levels.{Sorted, addresses-put_level}
use exchange_server.OrderBook.Push.{IsOrder}
use exchange_server.OrderBook.Remove.{others}

module _ (s : Store) (price oid : ℕ) (r : ℕ) where
  abbrev has_id : Bool
  has_id = (s r).order_id == oid

  elem-remove_id : (ms : List ℕ) → elem r (remove_id s oid ms) ≡ (elem r ms && not has_id)
  elem-remove_id [] = refl
  elem-remove_id (m ∷ ms) = elim (Bool-cases (r == m)) [
    | inl e ↦
        let same : r ≡ m = (==_iff r m).0 e in
        ground (arith, ap (λ x. (s x).order_id) same, elem-remove_id ms)
    | inr e ↦ ground (arith, e, elem-remove_id ms)
  ]

  module _ (side : OrderSide) where
    quotes_at-price :
        (q : ℕ) (ms : List ℕ)
        → All (Rests side) (quotes_at s q ms)
        → elem r ms ≡ true
        → ((s r).price ≡ q) × ((s r).side ≡ side)
    quotes_at-price q [] h e = ground arith
    quotes_at-price q (m ∷ ms) h e = elim (Bool-cases (r == m)) [
      | inl k ↦
          let same : r ≡ m = (==_iff r m).0 k in
          subst (λ x. ((s x).price ≡ q) × ((s x).side ≡ side)) (sym same)
            (ground (arith, h.0), ground (arith, h.0))
      | inr k ↦ quotes_at-price q ms h.1 (ground (arith, e, k))
    ]

    queue_of-price :
        (ls : Levels)
        → All (Rests side) (queue_of s ls)
        → All (λ (l : ℕ × List ℕ). (l.0 == price) ≡ false) ls
        → elem r (addresses ls) ≡ true
        → ((s r).price == price) ≡ false
    queue_of-price [] h k e = ground arith
    queue_of-price ((q, ms) ∷ ls) h k e = elim (Bool-cases (elem r ms)) [
      | inl i ↦
          let (at, own) =
            quotes_at-price q ms (All-append_left _ (quotes_at s q ms) (queue_of s ls) h) i in
          ground (arith, at, k.0)
      | inr i ↦
          queue_of-price ls (All-append_right _ (quotes_at s q ms) (queue_of s ls) h) k.1
            (ground (arith, e, i, elem-append r ms (addresses ls)))
    ]

    pub queue_of-side :
        (ls : Levels)
        → All (Rests side) (queue_of s ls)
        → elem r (addresses ls) ≡ true
        → (s r).side ≡ side
    queue_of-side [] h e = ground arith
    queue_of-side ((q, ms) ∷ ls) h e = elim (Bool-cases (elem r ms)) [
      | inl i ↦ (quotes_at-price q ms (All-append_left _ (quotes_at s q ms) (queue_of s ls) h) i).1
      | inr i ↦
          queue_of-side ls (All-append_right _ (quotes_at s q ms) (queue_of s ls) h)
            (ground (arith, e, i, elem-append r ms (addresses ls)))
    ]

    -- The orders at the price with the id go, and no others.
    pub elem-remove_at :
        (before : ℕ → ℕ → Bool) (ord : IsOrder before) (ls : Levels)
        → Sorted before ls
        → All (Rests side) (queue_of s ls)
        → elem r (addresses (remove_at s price oid ls))
          ≡ (elem r (addresses ls) && not (((s r).price == price) && has_id))
    elem-remove_at before ord [] v h = refl
    elem-remove_at before ord ((q, ms) ∷ ls) v h =
        let here = All-append_left _ (quotes_at s q ms) (queue_of s ls) h in
        let there = All-append_right _ (quotes_at s q ms) (queue_of s ls) h in
        let split = elem-append r ms (addresses ls) in
        elim (Bool-cases (q == price)) [
          | inl e ↦
              let same : q ≡ price = (==_iff q price).0 e in
              let away =
                others s price oid before ord ls
                  (subst (λ x. All (λ (l : ℕ × List ℕ). before x l.0 ≡ true) ls) same v.0) in
              let at_level =
                ap (elem r) (addresses-put_level q (remove_id s oid ms) ls)
                ∙ elem-append r (remove_id s oid ms) (addresses ls) in
              rw (e, at_level, split, elem-remove_id ms)
                (elim (Bool-cases (elem r ms)) [
                  | inl i ↦
                      let at = (quotes_at-price q ms here i).0 in
                      elim (Bool-cases (elem r (addresses ls))) [
                        | inl j ↦
                            let off = queue_of-price ls there away j in
                            absurd (ground (arith, at, same, off))
                        | inr j ↦ ground (arith, i, j, at, same)
                      ]
                  | inr i ↦ elim (Bool-cases (elem r (addresses ls))) [
                    | inl j ↦ let at = queue_of-price ls there away j in ground (arith, i, j, at)
                    | inr j ↦ ground (arith, i, j)
                  ]
                ])
          | inr e ↦
              let at_level = elem-append r ms (addresses (remove_at s price oid ls)) in
              rw (e, at_level, split, elem-remove_at before ord ls v.1 there)
                (elim (Bool-cases (elem r ms)) [
                  | inl i ↦ let at = (quotes_at-price q ms here i).0 in ground (arith, i, at, e)
                  | inr i ↦ ground (arith, i)
                ])
        ]
