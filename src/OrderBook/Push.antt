-- ===== src/OrderBook/Push.antt =====
-- push_back of include/OrderBook.hpp on the price levels, and on the queue.
use exchange_server.Prelude.{
  ℕ, Bool, true, false, List, [], ◌∷◌, ◌++◌, ◌≡◌, ◌≢◌, refl, sym, subst, ◌==◌, ==_iff, ltb,
  Bool-cases, inl, inr, arith, All, All-append, All-append_left, All-append_right, Fresh, Distinct,
  Distinct-append, append_assoc,
}
use exchange_server.OrderBook.{Store, Levels, push_back, higher}
use exchange_server.OrderBook.Spec.{Quote, quotes_at, queue_of, addresses, Filled, enqueue}
use exchange_server.OrderBook.Levels.{Sorted, Distinct-both, Fresh-flip}

-- What the order of a side's prices has to be.
pub record IsOrder (before : ℕ → ℕ → Bool) : Type 0 where
  pub trans : (a b c : ℕ) → before a b ≡ true → before b c ≡ true → before a c ≡ true
  pub irrefl : (a : ℕ) → before a a ≡ false
  pub total : (a b : ℕ) → (a == b) ≡ false → before a b ≡ false → before b a ≡ true

pub ltb-IsOrder : IsOrder ltb
ltb-IsOrder = record {
  trans = λ a b c h k. ground arith;
  irrefl = λ a. ground arith;
  total = λ a b h k. ground arith;
}

pub higher-IsOrder : IsOrder higher
higher-IsOrder = record {
  trans = λ a b c h k. ground arith;
  irrefl = λ a. ground arith;
  total = λ a b h k. ground arith;
}

module _ (before : ℕ → ℕ → Bool) (ord : IsOrder before) (price p : ℕ) where
  abbrev pushed : Levels → Levels
  pushed = push_back before price p

  pub push_back-prices :
      (P : ℕ → Type 0) (ls : Levels)
      → P price
      → All (λ (l : ℕ × List ℕ). P l.0) ls
      → All (λ (l : ℕ × List ℕ). P l.0) (pushed ls)
  push_back-prices P [] h k = (h, tt)
  push_back-prices P ((q, ms) ∷ ls) h k = ground (arith, push_back-prices P ls h k.1)

  pub push_back-Filled : (ls : Levels) → Filled ls → Filled (pushed ls)
  push_back-Filled [] h = tt
  push_back-Filled ((q, []) ∷ ls) h = absurd h
  push_back-Filled ((q, m ∷ ms) ∷ ls) h = ground (arith, push_back-Filled ls h)

  ahead_of-All :
      (q : ℕ) (ls : Levels)
      → before price q ≡ true
      → All (λ (l : ℕ × List ℕ). before q l.0 ≡ true) ls
      → All (λ (l : ℕ × List ℕ). before price l.0 ≡ true) ls
  ahead_of-All q [] h k = tt
  ahead_of-All q ((r, ms) ∷ ls) h k = (ord.trans price q r h k.0, ahead_of-All q ls h k.1)

  pub push_back-Sorted : (ls : Levels) → Sorted before ls → Sorted before (pushed ls)
  push_back-Sorted [] h = (tt, tt)
  push_back-Sorted ((q, ms) ∷ ls) h = elim (Bool-cases (price == q)) [
    | inl e ↦ ground arith
    | inr e ↦ elim (Bool-cases (before price q)) [
      | inl k ↦ ground (arith, ahead_of-All q ls k h.0)
      | inr k ↦ ground (
        arith,
        push_back-prices (λ r. before q r ≡ true) ls (ord.total price q e k) h.0,
        push_back-Sorted ls h.1,
      )
    ]
  ]

  pub push_back-All :
      (P : ℕ → Type 0) (ls : Levels) → P p → All P (addresses ls) → All P (addresses (pushed ls))
  push_back-All P [] h k = (h, tt)
  push_back-All P ((q, ms) ∷ ls) h k = ground (
    arith,
    push_back-All P ls h (All-append_right P ms (addresses ls) k),
    All-append P ms (addresses (pushed ls)) (All-append_left P ms (addresses ls) k),
    All-append P (ms ++ p ∷ []) (addresses ls)
        (All-append P ms (p ∷ []) (All-append_left P ms (addresses ls) k) (h, tt))
        (All-append_right P ms (addresses ls) k),
  )

  quotes_at-append :
      (s : Store) (q : ℕ) (ms ns : List ℕ)
      → quotes_at s q (ms ++ ns) ≡ quotes_at s q ms ++ quotes_at s q ns
  quotes_at-append s q [] ns = refl
  quotes_at-append s q (m ∷ ms) ns = rw (quotes_at-append s q ms ns)

  -- Quotes that stand before the new one are passed.
  enqueue-passes :
      (s : Store) (q : ℕ) (ms : List ℕ) (rest : List Quote)
      → before price q ≡ false
      → enqueue before (price, s p) (quotes_at s q ms ++ rest)
        ≡ quotes_at s q ms ++ enqueue before (price, s p) rest
  unfolding enqueue
  enqueue-passes s q [] rest h = refl
  enqueue-passes s q (m ∷ ms) rest h = rw (h, enqueue-passes s q ms rest h)

  enqueue-first :
      (s : Store) (ls : Levels)
      → Filled ls
      → All (λ (l : ℕ × List ℕ). before price l.0 ≡ true) ls
      → enqueue before (price, s p) (queue_of s ls) ≡ (price, s p) ∷ queue_of s ls
  unfolding enqueue
  enqueue-first s [] n h = refl
  enqueue-first s ((q, []) ∷ ls) n h = absurd n
  enqueue-first s ((q, m ∷ ms) ∷ ls) n h = ground arith

  -- `bids_[price].push_back(p)` puts the order behind its price's orders and ahead of the next.
  pub push_back-refines :
      (s : Store) (ls : Levels)
      → Filled ls
      → Sorted before ls
      → queue_of s (pushed ls) ≡ enqueue before (price, s p) (queue_of s ls)
  unfolding enqueue
  push_back-refines s [] n h = refl
  push_back-refines s ((q, []) ∷ ls) n h = absurd n
  push_back-refines s ((q, m ∷ ms) ∷ ls) n h = elim (Bool-cases (price == q)) [
    | inl e ↦
        let same : price ≡ q = (==_iff price q).0 e in
        let keep : before price q ≡ false =
          subst (λ x. before price x ≡ false) same (ord.irrefl price) in
        let next = subst (λ x. All (λ (l : ℕ × List ℕ). before x l.0 ≡ true) ls) (sym same) h.0 in
        ground (
          arith,
          enqueue-passes s q ms (queue_of s ls) keep,
          enqueue-first s ls n next,
          quotes_at-append s q ms (p ∷ []),
          append_assoc (quotes_at s q ms) ((q, s p) ∷ []) (queue_of s ls),
        )
    | inr e ↦ elim (Bool-cases (before price q)) [
      | inl k ↦ ground arith
      | inr k ↦
          ground (arith, enqueue-passes s q ms (queue_of s ls) k, push_back-refines s ls n h.1)
    ]
  ]

  pub apart_push :
      (ls : Levels) (ms : List ℕ)
      → Fresh p ms
      → All (λ m. Fresh m (addresses ls)) ms
      → All (λ m. Fresh m (addresses (pushed ls))) ms
  apart_push ls [] f h = tt
  apart_push ls (m ∷ ms) f h =
      (push_back-All (λ y. m ≢ y) ls (λ e. f.0 (sym e)) h.0, apart_push ls ms f.1 h.1)

  pub push_back-Distinct :
      (ls : Levels)
      → Fresh p (addresses ls)
      → Distinct (addresses ls)
      → Distinct (addresses (pushed ls))
  push_back-Distinct [] f d = (tt, tt)
  push_back-Distinct ((q, ms) ∷ ls) f d =
      let (dms, dls, cross) = Distinct-append ms (addresses ls) d in
      let fms = All-append_left _ ms (addresses ls) f in
      let fls = All-append_right _ ms (addresses ls) f in
      ground (
        arith,
        f,
        d,
        Distinct-both (ms ++ p ∷ []) (addresses ls)
            (Distinct-both ms (p ∷ []) dms (tt, tt) (Fresh-flip p ms fms)) dls
            (All-append _ ms (p ∷ []) cross (fls, tt)),
        Distinct-both ms (addresses (pushed ls)) dms (push_back-Distinct ls fls dls)
            (apart_push ls ms fms cross),
      )
