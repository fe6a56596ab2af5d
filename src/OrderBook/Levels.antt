-- ===== src/OrderBook/Levels.antt =====
-- The shape of the price levels of include/OrderBook.hpp under the loops and under push_back.
use exchange_server.Prelude.{
  ℕ, Bool, true, List, [], ◌∷◌, ◌++◌, ◌≡◌, ◌≢◌, refl, sym, arith, All, All-append, All-append_left,
  All-append_right, Fresh, Distinct, Distinct-append,
}
use exchange_server.Common.{Order, MatchRecord}
use exchange_server.OrderBook.{Levels, Book, trade, put_level, match_level, match_levels, forget}
use exchange_server.OrderBook.Spec.{addresses, Filled}
use exchange_server.OrderBook.Refines.{match_level-All}

-- The prices follow the map's order, each once.
abbrev pub Sorted : (ℕ → ℕ → Bool) → Levels → Type 0
Sorted before [] = Unit
Sorted before ((price, ms) ∷ ls) =
    All (λ (l : ℕ × List ℕ). before price l.0 ≡ true) ls × Sorted before ls

pub put_level-All :
    (P : ℕ → Type 0) (price : ℕ) (ms : List ℕ) (ls : Levels)
    → P price
    → All (λ (l : ℕ × List ℕ). P l.0) ls
    → All (λ (l : ℕ × List ℕ). P l.0) (put_level price ms ls)
put_level-All P price [] ls p h = h
put_level-All P price (m ∷ ms) ls p h = (p, h)

pub put_level-Sorted :
    (before : ℕ → ℕ → Bool) (price : ℕ) (ms : List ℕ) (ls : Levels)
    → Sorted before ((price, ms) ∷ ls)
    → Sorted before (put_level price ms ls)
put_level-Sorted before price [] ls h = h.1
put_level-Sorted before price (m ∷ ms) ls h = h

pub put_level-Filled :
    (price : ℕ) (ms : List ℕ) (ls : Levels) → Filled ls → Filled (put_level price ms ls)
put_level-Filled price [] ls h = h
put_level-Filled price (m ∷ ms) ls h = h

pub addresses-put_level :
    (price : ℕ) (ms : List ℕ) (ls : Levels) → addresses (put_level price ms ls) ≡ ms ++ addresses ls
addresses-put_level price [] ls = refl
addresses-put_level price (m ∷ ms) ls = refl

Filled-tail : (l : ℕ × List ℕ) (ls : Levels) → Filled (l ∷ ls) → Filled ls
Filled-tail (price, []) ls h = absurd h
Filled-tail (price, m ∷ ms) ls h = h

pub Distinct-both :
    (xs ys : List ℕ) → Distinct xs → Distinct ys → All (λ x. Fresh x ys) xs → Distinct (xs ++ ys)
Distinct-both [] ys dx dy h = dy
Distinct-both (x ∷ xs) ys dx dy h = (All-append _ xs ys dx.0 h.0, Distinct-both xs ys dx.1 dy h.1)

pub Fresh-flip : (p : ℕ) (ms : List ℕ) → Fresh p ms → All (λ m. Fresh m (p ∷ [])) ms
Fresh-flip p [] f = tt
Fresh-flip p (m ∷ ms) f = ((λ e. f.0 (sym e), tt), Fresh-flip p ms f.1)

pub All-swap :
    (P : ℕ → ℕ → Type 0) (xs ys : List ℕ)
    → ((x : ℕ) → All (P x) xs → All (P x) ys)
    → (zs : List ℕ) → All (λ z. All (P z) xs) zs
    → All (λ z. All (P z) ys) zs
All-swap P xs ys f [] h = tt
All-swap P xs ys f (z ∷ zs) h = (f z h.0, All-swap P xs ys f zs h.1)

module _ (now : ℕ → ℕ) (make : ℕ → Order → Order → ℕ → ℕ → ℕ → MatchRecord) (stops : ℕ → ℕ → Bool)
    (taker : ℕ) where
  abbrev level_of : ℕ → List ℕ → Book → List ℕ × Book
  level_of = match_level now make stops taker

  abbrev levels_of : Levels → Book → Levels × Book
  levels_of = match_levels now make stops taker

  match_level-Distinct :
      (price : ℕ) (ms : List ℕ) (b : Book) → Distinct ms → Distinct (level_of price ms b).0
  unfolding match_level
  match_level-Distinct price [] b d = tt
  match_level-Distinct price (m ∷ ms) b d =
      let c = trade now make stops taker price m b in
      let o = c.store m in
      ground (
        arith,
        match_level-Distinct price ms c d.1,
        match_level-Distinct price ms (record c { active = forget o.user_id o.order_id c.active })
            d.1,
        match_level-All now make stops taker (λ x. m ≢ x) price ms c d.0,
      )

  -- The loops leave the rest of the book alone.
  match_level-same :
      (price : ℕ) (ms : List ℕ) (b : Book)
      → let c = (level_of price ms b).1 in
        (c.bids ≡ b.bids) × (c.asks ≡ b.asks) × (c.ticker_id ≡ b.ticker_id)
  unfolding match_level
  match_level-same price [] b = (refl, refl, refl)
  match_level-same price (m ∷ ms) b =
      let c = trade now make stops taker price m b in
      let o = c.store m in
      ground (
        arith,
        match_level-same price ms c,
        match_level-same price ms (record c { active = forget o.user_id o.order_id c.active }),
      )

  pub match_levels-same :
      (ls : Levels) (b : Book)
      → let c = (levels_of ls b).1 in
        (c.bids ≡ b.bids) × (c.asks ≡ b.asks) × (c.ticker_id ≡ b.ticker_id)
  unfolding match_levels
  match_levels-same [] b = (refl, refl, refl)
  match_levels-same ((price, ms) ∷ ls) b =
      ground (arith, match_level-same price ms b, match_levels-same ls (level_of price ms b).1)

  -- What is left of the levels comes from them: the prices and the addresses.
  pub match_levels-prices :
      (P : ℕ → Type 0) (ls : Levels) (b : Book)
      → All (λ (l : ℕ × List ℕ). P l.0) ls
      → All (λ (l : ℕ × List ℕ). P l.0) (levels_of ls b).0
  unfolding match_levels
  match_levels-prices P [] b h = tt
  match_levels-prices P ((price, ms) ∷ ls) b h =
      let level = level_of price ms b in
      let rest = levels_of ls level.1 in
      ground
        (arith, put_level-All P price level.0 rest.0 h.0 (match_levels-prices P ls level.1 h.1))

  pub match_levels-Sorted :
      (before : ℕ → ℕ → Bool) (ls : Levels) (b : Book)
      → Sorted before ls
      → Sorted before (levels_of ls b).0
  unfolding match_levels
  match_levels-Sorted before [] b h = tt
  match_levels-Sorted before ((price, ms) ∷ ls) b h =
      let level = level_of price ms b in
      let rest = levels_of ls level.1 in
      ground (
        arith,
        put_level-Sorted before price level.0 rest.0 (
          match_levels-prices (λ p. before price p ≡ true) ls level.1 h.0,
          match_levels-Sorted before ls level.1 h.1,
        ),
      )

  pub match_levels-Filled : (ls : Levels) (b : Book) → Filled ls → Filled (levels_of ls b).0
  unfolding match_levels
  match_levels-Filled [] b h = tt
  match_levels-Filled ((price, ms) ∷ ls) b h =
      let level = level_of price ms b in
      let rest = levels_of ls level.1 in
      ground (
        arith,
        put_level-Filled price level.0 rest.0
            (match_levels-Filled ls level.1 (Filled-tail (price, ms) ls h)),
      )

  pub match_levels-All :
      (P : ℕ → Type 0) (ls : Levels) (b : Book)
      → All P (addresses ls)
      → All P (addresses (levels_of ls b).0)
  unfolding match_levels
  match_levels-All P [] b h = tt
  match_levels-All P ((price, ms) ∷ ls) b h =
      let level = level_of price ms b in
      let rest = levels_of ls level.1 in
      ground (
        arith,
        addresses-put_level price level.0 rest.0,
        All-append P level.0 (addresses rest.0)
            (match_level-All now make stops taker P price ms b
              (All-append_left P ms (addresses ls) h))
            (match_levels-All P ls level.1 (All-append_right P ms (addresses ls) h)),
      )

  pub match_levels-Distinct :
      (ls : Levels) (b : Book) → Distinct (addresses ls) → Distinct (addresses (levels_of ls b).0)
  unfolding match_levels
  match_levels-Distinct [] b d = tt
  match_levels-Distinct ((price, ms) ∷ ls) b d =
      let level = level_of price ms b in
      let rest = levels_of ls level.1 in
      let (dms, dls, cross) = Distinct-append ms (addresses ls) d in
      ground (
        arith,
        addresses-put_level price level.0 rest.0,
        Distinct-both level.0 (addresses rest.0) (match_level-Distinct price ms b dms)
            (match_levels-Distinct ls level.1 dls)
            (All-swap (λ x y. x ≢ y) (addresses ls) (addresses rest.0)
              (λ x. match_levels-All (λ y. x ≢ y) ls level.1) level.0
              (match_level-All now make stops taker _ price ms b cross)),
      )
