-- ===== src/OrderBook/Remove.antt =====
-- remove_if of include/OrderBook.hpp on the price levels, and on the queue.
use exchange_server.Prelude.{
  ℕ, Bool, true, false, List, [], ◌∷◌, ◌++◌, ◌≡◌, ◌≢◌, refl, subst, ◌==◌, ==_iff, Bool-cases, inl,
  inr, arith, All, All-append, All-append_left, All-append_right, Fresh, Distinct, Distinct-append,
}
use exchange_server.OrderBook.{Store, Levels, remove_id, remove_at}
use exchange_server.OrderBook.Spec.{Quote, quotes_at, queue_of, addresses, Filled, withdraw}
use exchange_server.OrderBook.Refines.{queue_of-put_level}
use exchange_server.OrderBook.Levels.{
  Sorted, put_level-All, put_level-Sorted, put_level-Filled, addresses-put_level, Distinct-both,
  All-swap,
}
use exchange_server.OrderBook.Push.{IsOrder}

module _ (s : Store) (price oid : ℕ) where
  remove_id-All : (P : ℕ → Type 0) (ms : List ℕ) → All P ms → All P (remove_id s oid ms)
  remove_id-All P [] h = tt
  remove_id-All P (m ∷ ms) h = ground (arith, remove_id-All P ms h.1)

  remove_id-Distinct : (ms : List ℕ) → Distinct ms → Distinct (remove_id s oid ms)
  remove_id-Distinct [] d = tt
  remove_id-Distinct (m ∷ ms) d =
      ground (arith, remove_id-Distinct ms d.1, remove_id-All (λ x. m ≢ x) ms d.0)

  abbrev removed : Levels → Levels
  removed = remove_at s price oid

  pub remove_at-prices :
      (P : ℕ → Type 0) (ls : Levels)
      → All (λ (l : ℕ × List ℕ). P l.0) ls
      → All (λ (l : ℕ × List ℕ). P l.0) (removed ls)
  remove_at-prices P [] h = tt
  remove_at-prices P ((q, ms) ∷ ls) h =
      ground (arith, put_level-All P q (remove_id s oid ms) ls h.0 h.1, remove_at-prices P ls h.1)

  pub remove_at-Sorted :
      (before : ℕ → ℕ → Bool) (ls : Levels) → Sorted before ls → Sorted before (removed ls)
  remove_at-Sorted before [] h = tt
  remove_at-Sorted before ((q, ms) ∷ ls) h = ground (
    arith,
    put_level-Sorted before q (remove_id s oid ms) ls h,
    remove_at-Sorted before ls h.1,
    remove_at-prices (λ r. before q r ≡ true) ls h.0,
  )

  pub remove_at-Filled : (ls : Levels) → Filled ls → Filled (removed ls)
  remove_at-Filled [] h = tt
  remove_at-Filled ((q, []) ∷ ls) h = absurd h
  remove_at-Filled ((q, m ∷ ms) ∷ ls) h =
      ground (arith, put_level-Filled q (remove_id s oid (m ∷ ms)) ls h, remove_at-Filled ls h)

  pub remove_at-All :
      (P : ℕ → Type 0) (ls : Levels) → All P (addresses ls) → All P (addresses (removed ls))
  remove_at-All P [] h = tt
  remove_at-All P ((q, ms) ∷ ls) h =
      let here = All-append_left P ms (addresses ls) h in
      let there = All-append_right P ms (addresses ls) h in
      ground (
        arith,
        addresses-put_level q (remove_id s oid ms) ls,
        All-append P (remove_id s oid ms) (addresses ls) (remove_id-All P ms here) there,
        All-append P ms (addresses (removed ls)) here (remove_at-All P ls there),
      )

  pub remove_at-Distinct :
      (ls : Levels) → Distinct (addresses ls) → Distinct (addresses (removed ls))
  remove_at-Distinct [] d = tt
  remove_at-Distinct ((q, ms) ∷ ls) d =
      let (dms, dls, cross) = Distinct-append ms (addresses ls) d in
      ground (
        arith,
        addresses-put_level q (remove_id s oid ms) ls,
        Distinct-both (remove_id s oid ms) (addresses ls) (remove_id-Distinct ms dms) dls
            (remove_id-All (λ x. Fresh x (addresses ls)) ms cross),
        Distinct-both ms (addresses (removed ls)) dms (remove_at-Distinct ls dls) (
            All-swap (λ x y. x ≢ y) (addresses ls) (addresses (removed ls))
              (λ x. remove_at-All (λ y. x ≢ y) ls) ms cross),
      )

  withdraw-level :
      (ms : List ℕ) (q : List Quote)
      → withdraw price oid (quotes_at s price ms ++ q)
        ≡ quotes_at s price (remove_id s oid ms) ++ withdraw price oid q
  unfolding withdraw
  withdraw-level [] q = refl
  withdraw-level (m ∷ ms) q = ground (arith, withdraw-level ms q)

  withdraw-other :
      (r : ℕ) (ms : List ℕ) (q : List Quote)
      → (r == price) ≡ false
      → withdraw price oid (quotes_at s r ms ++ q) ≡ quotes_at s r ms ++ withdraw price oid q
  unfolding withdraw
  withdraw-other r [] q h = refl
  withdraw-other r (m ∷ ms) q h = ground (arith, withdraw-other r ms q h)

  withdraw-none :
      (ls : Levels)
      → All (λ (l : ℕ × List ℕ). (l.0 == price) ≡ false) ls
      → withdraw price oid (queue_of s ls) ≡ queue_of s ls
  unfolding withdraw
  withdraw-none [] h = refl
  withdraw-none ((r, ms) ∷ ls) h =
      ground (arith, withdraw-other r ms (queue_of s ls) h.0, withdraw-none ls h.1)

  pub others :
      (before : ℕ → ℕ → Bool)
      → IsOrder before
      → (ls : Levels) → All (λ (l : ℕ × List ℕ). before price l.0 ≡ true) ls
      → All (λ (l : ℕ × List ℕ). (l.0 == price) ≡ false) ls
  others before ord [] h = tt
  others before ord ((r, ms) ∷ ls) h =
      (ground (arith, ord.irrefl r, ord.irrefl price, ==_iff r price), others before ord ls h.1)

  -- Cancelling at a price takes the quotes with that id from the queue and keeps the others' order.
  pub remove_at-refines :
      (before : ℕ → ℕ → Bool)
      → IsOrder before
      → (ls : Levels) → Sorted before ls
      → queue_of s (removed ls) ≡ withdraw price oid (queue_of s ls)
  unfolding withdraw
  remove_at-refines before ord [] h = refl
  remove_at-refines before ord ((r, ms) ∷ ls) h = elim (Bool-cases (r == price)) [
    | inl e ↦
        let same : r ≡ price = (==_iff r price).0 e in
        ground (
          arith,
          same,
          queue_of-put_level s r (remove_id s oid ms) ls,
          withdraw-level ms (queue_of s ls),
          withdraw-none ls (
              others before ord ls
                (subst (λ x. All (λ (l : ℕ × List ℕ). before x l.0 ≡ true) ls) same h.0)),
        )
    | inr e ↦
        ground (arith, withdraw-other r ms (queue_of s ls) e, remove_at-refines before ord ls h.1)
  ]
