-- ===== src/OrderBook/Fill.antt =====
-- The laws of the queue of quotes that include/OrderBook.hpp is compared with.
use exchange_server.Prelude.{
  ℕ, ◌+◌, ◌-◌, ◌<◌, min, Bool, true, false, List, [], ◌∷◌, ◌++◌, ◌≡◌, refl, sym, append-nil,
  append_assoc, subst, ◌==◌, Bool-cases, ◌⊎◌, inl, inr, arith, All, All-append,
}
use exchange_server.Common.{OrderSide, Order, MatchRecord}
use exchange_server.OrderBook.Spec.{Quote, Outcome, fill}

-- The shares of a list of records, and of a queue.
abbrev pub volume : List MatchRecord → ℕ
volume [] = 0
volume (r ∷ rs) = r.match_quantity + volume rs

abbrev pub depth : List Quote → ℕ
depth [] = 0
depth ((price, o) ∷ q) = o.quantity + depth q

volume-append : (rs ss : List MatchRecord) → volume (rs ++ ss) ≡ volume rs + volume ss
volume-append [] ss = omega arith
volume-append (r ∷ rs) ss = omega (arith, volume-append rs ss)

-- A resting order stands on its own side, at its own price, and wants at least one share.
abbrev pub Rests : OrderSide → Quote → Type 0
Rests side (price, o) = (o.side ≡ side) × (o.price ≡ price) × (0 < o.quantity)

-- The order cannot take from the front of the queue.
abbrev pub Stopped : (ℕ → ℕ → Bool) → ℕ → List Quote → Type 0
Stopped stops limit [] = Unit
Stopped stops limit ((price, o) ∷ q) = stops price limit ≡ true

module _ (now : ℕ → ℕ) (make : ℕ → Order → Order → ℕ → ℕ → ℕ → MatchRecord) (stops : ℕ → ℕ → Bool)
    (ticker : ℕ) where
  abbrev fill_of : Order → ℕ → List MatchRecord → List Quote → Outcome
  fill_of = fill now make stops ticker

  abbrev served : Order → Order → Order
  served t m = record t { quantity = t.quantity - min t.quantity m.quantity }

  abbrev pushed : Order → ℕ → List MatchRecord → ℕ → Order → List MatchRecord
  pushed t k rs price m = rs ++ make ticker t m price (min t.quantity m.quantity) (now k) ∷ []

  -- What rests stays so.
  pub fill-Rests :
      (side : OrderSide) (t : Order) (k : ℕ) (rs : List MatchRecord) (q : List Quote)
      → All (Rests side) q
      → All (Rests side) (fill_of t k rs q).queue
  unfolding fill
  fill-Rests side t k rs [] h = tt
  fill-Rests side t k rs ((price, m) ∷ q) h =
      ground (arith, fill-Rests side (served t m) (k + 1) (pushed t k rs price m) q h.1)

  -- Of the new order only the quantity changes.
  pub fill-taker :
      (t : Order) (k : ℕ) (rs : List MatchRecord) (q : List Quote)
      → let o = fill_of t k rs q in o.taker ≡ record t { quantity = o.taker.quantity }
  unfolding fill
  fill-taker t k rs [] = refl
  fill-taker t k rs ((price, m) ∷ q) =
      ground (arith, fill-taker (served t m) (k + 1) (pushed t k rs price m) q)

  -- Filling ends with the order served, or at a queue that it cannot take from.
  pub fill-Stopped :
      (t : Order) (k : ℕ) (rs : List MatchRecord) (q : List Quote)
      → let o = fill_of t k rs q in (o.taker.quantity ≡ 0) ⊎ Stopped stops t.price o.queue
  unfolding fill
  fill-Stopped t k rs [] = inr tt
  fill-Stopped t k rs ((price, m) ∷ q) =
      ground (arith, fill-Stopped (served t m) (k + 1) (pushed t k rs price m) q)

  -- What a trade with a resting order gives its record holds of every record.
  module _ (P : MatchRecord → Type 0) (side : OrderSide) where
    abbrev pub Gives : Order → Type 0
    Gives t =
        (n time : ℕ) (m : Order) (price : ℕ)
        → stops price t.price ≡ false
        → 0 < n
        → Rests side (price, m)
        → P (make ticker (record t { quantity = n }) m price (min n m.quantity) time)

    pub fill-All :
        (t : Order) (k : ℕ) (rs : List MatchRecord) (q : List Quote)
        → Gives t
        → All (Rests side) q
        → All P rs
        → All P (fill_of t k rs q).records
    unfolding fill
    fill-All t k rs [] new r h = h
    fill-All t k rs ((price, m) ∷ q) new r h = elim (Bool-cases (t.quantity == 0)) [
      | inl e ↦ subst (All P) (ground arith) h
      | inr e ↦ elim (Bool-cases (stops price t.price)) [
        | inl s ↦ subst (All P) (ground arith) h
        | inr s ↦
            let rs' = pushed t k rs price m in
            let h' : All P rs' =
              All-append P rs _ h (new t.quantity (now k) m price s (ground arith) r.0, tt) in
            elim (Bool-cases (m.quantity - min t.quantity m.quantity == 0)) [
              | inl f ↦
                  subst (All P) (ground arith) (fill-All (served t m) (k + 1) rs' q new r.1 h')
              | inr f ↦ subst (All P) (ground arith) h'
            ]
      ]
    ]

  -- Records are only added at the end.
  pub fill-append :
      (t : Order) (k : ℕ) (rs : List MatchRecord) (q : List Quote)
      → (fill_of t k rs q).records ≡ rs ++ (fill_of t k [] q).records
  unfolding fill
  fill-append t k rs [] = sym (append-nil rs)
  fill-append t k rs ((price, m) ∷ q) =
      let r = make ticker t m price (min t.quantity m.quantity) (now k) ∷ [] in
      ground (
        arith,
        append-nil rs,
        append_assoc rs r (fill_of (served t m) (k + 1) [] q).records,
        fill-append (served t m) (k + 1) (rs ++ r) q,
        fill-append (served t m) (k + 1) r q,
      )

  module _
      (quantity_of : (t m : Order) (price qty time : ℕ)
        → (make ticker t m price qty time).match_quantity ≡ qty) where
    -- No share is lost or made: what the order lost, the records say, and the queue lost as much.
    pub fill_conserves :
        (t : Order) (k : ℕ) (rs : List MatchRecord) (q : List Quote)
        → let o = fill_of t k rs q in
          (o.taker.quantity + volume o.records ≡ t.quantity + volume rs)
          × (depth o.queue + volume o.records ≡ depth q + volume rs)
    unfolding fill
    fill_conserves t k rs [] = (refl, refl)
    fill_conserves t k rs ((price, m) ∷ q) = ground (
      arith,
      volume-append rs (make ticker t m price (min t.quantity m.quantity) (now k) ∷ []),
      quantity_of t m price (min t.quantity m.quantity) (now k),
      fill_conserves (served t m) (k + 1) (pushed t k rs price m) q,
    )
