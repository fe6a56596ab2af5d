-- ===== src/OrderBook/Indexed.antt =====
-- The loops of include/OrderBook.hpp keep the index of active orders.
use exchange_server.Prelude.{
  ℕ, Bool, false, ◌||◌, not, ◌&&◌, List, [], ◌∷◌, ◌==◌, ==_iff, ◌≡◌, ◌≢◌, refl, Fresh-swap, sym,
  inl, subst, zero, suc, ◌⊎◌, inr, arith, All, Fresh, Distinct, Bool-cases, All-append_left,
  All-append_right, Distinct-append, elem, elem-append, elem-Fresh,
}
use exchange_server.Common.{Order, MatchRecord}
use exchange_server.OrderBook.{Levels, Book, trade, match_level, match_levels, put_level, forget}
use exchange_server.OrderBook.Spec.{addresses}
use exchange_server.OrderBook.Levels.{All-swap, addresses-put_level}
use exchange_server.OrderBook.Refines.{match_level-All}
use exchange_server.OrderBook.Index.{
  Indexes, SameIds, Indexes-same, Indexes-set, SameIds-refl, SameIds-trans, without, forget-Indexes,
}

zero_or : (n : ℕ) → (n ≡ 0) ⊎ (n ≢ 0)
zero_or zero = inl refl
zero_or (suc n) = inr (λ e. ground (arith, e))

abbrev pub among : List ℕ → (ℕ → Bool) → ℕ → Bool
among ms K p = elem p ms || K p

-- The set holds none of the addresses.
abbrev pub Avoids : (ℕ → Bool) → List ℕ → Type 0
Avoids K ms = All (λ m. K m ≡ false) ms

pub Avoids-or :
    (K L : ℕ → Bool) (ms : List ℕ) → Avoids K ms → Avoids L ms → Avoids (λ r. L r || K r) ms
Avoids-or K L [] h k = tt
Avoids-or K L (m ∷ ms) h k = (ground (arith, h.0, k.0), Avoids-or K L ms h.1 k.1)

pub Avoids-one : (m : ℕ) (ms : List ℕ) → Fresh m ms → Avoids (λ r. r == m) ms
Avoids-one m [] f = tt
Avoids-one m (x ∷ ms) f = (ground (arith, f.0), Avoids-one m ms f.1)

pub Avoids-elem : (xs ms : List ℕ) → All (λ m. Fresh m xs) ms → Avoids (λ r. elem r xs) ms
Avoids-elem xs [] f = tt
Avoids-elem xs (m ∷ ms) f = (elem-Fresh m xs f.0, Avoids-elem xs ms f.1)

module _ (now : ℕ → ℕ) (make : ℕ → Order → Order → ℕ → ℕ → ℕ → MatchRecord) (stops : ℕ → ℕ → Bool)
    (taker : ℕ) where
  abbrev level_of : ℕ → List ℕ → Book → List ℕ × Book
  level_of = match_level now make stops taker

  abbrev traded : ℕ → ℕ → Book → Book
  traded = trade now make stops taker

  -- The branches of the inner loop.
  match_level-served :
      (price : ℕ) (ms : List ℕ) (b : Book)
      → (b.store taker).quantity ≡ 0
      → level_of price ms b ≡ (ms, b)
  unfolding match_level
  match_level-served price [] b h = refl
  match_level-served price (m ∷ ms) b h = ground arith

  module _ (price m : ℕ) (ms : List ℕ) (b : Book) (h : (b.store taker).quantity ≢ 0) where
    match_level-filled :
        ((traded price m b).store m).quantity ≡ 0
        → level_of price (m ∷ ms) b
          ≡ level_of price ms (record (traded price m b) {
            active =
                forget
                  ((traded price m b).store m).user_id
                  ((traded price m b).store m).order_id
                  (traded price m b).active;
          })
    unfolding match_level
    match_level-filled k = ground arith

    match_level-passed :
        ((traded price m b).store m).quantity ≢ 0
        → level_of price (m ∷ ms) b
          ≡ (m ∷ (level_of price ms (traded price m b)).0, (level_of price ms (traded price m b)).1)
    unfolding match_level
    match_level-passed k = ground arith

  trade-SameIds :
      (price m : ℕ) (b : Book) → SameIds b.store (trade now make stops taker price m b).store
  trade-SameIds price m b = record { user_eq = λ p. ground arith; id_eq = λ p. ground arith }

  -- What the inner loop does to the index.
  pub record Keeps (K : ℕ → Bool) (b : Book) (r : List ℕ × Book) : Type 0 where
    pub ids : SameIds b.store r.1.store
    pub index : Indexes r.1.store r.1.active (among r.0 K)

  module _ (price m : ℕ) (ms : List ℕ) (K : ℕ → Bool) (b : Book)
      (x : Indexes b.store b.active (among (m ∷ ms) K)) where
    traded-Indexes : Indexes (traded price m b).store (traded price m b).active (among (m ∷ ms) K)
    traded-Indexes =
        Indexes-same b.store (traded price m b).store b.active (among (m ∷ ms) K) (among (m ∷ ms) K)
          (trade-SameIds price m b) (λ p. refl) x

    filled-set :
        K m ≡ false → Fresh m ms → (p : ℕ) → among ms K p ≡ (among (m ∷ ms) K p && not (p == m))
    filled-set k f p = elim (Bool-cases (p == m)) [
      | inl e ↦
          let same : p ≡ m = (==_iff p m).0 e in rw same (ground (arith, k, elem-Fresh m ms f))
      | inr e ↦ ground (arith, e)
    ]

    filled-Indexes :
        K m ≡ false
        → Fresh m ms
        → Indexes
            (traded price m b).store
            (forget
              ((traded price m b).store m).user_id
              ((traded price m b).store m).order_id
              (traded price m b).active)
            (among ms K)
    filled-Indexes k f =
        Indexes-set (traded price m b).store
          (forget ((traded price m b).store m).user_id ((traded price m b).store m).order_id
            (traded price m b).active)
          (without (traded price m b).store (traded price m b).active (among (m ∷ ms) K)
            traded-Indexes m)
          (among ms K) (filled-set k f)
          (forget-Indexes (traded price m b).store (traded price m b).active (among (m ∷ ms) K)
            traded-Indexes m (ground arith))

    passed-Indexes :
        Indexes (traded price m b).store (traded price m b).active (among ms (λ r. (r == m) || K r))
    passed-Indexes =
        Indexes-set (traded price m b).store (traded price m b).active (among (m ∷ ms) K)
          (among ms (λ r. (r == m) || K r)) (λ p. ground arith) traded-Indexes

  match_level-Keeps :
      (price : ℕ) (ms : List ℕ) (K : ℕ → Bool) (b : Book)
      → Distinct ms
      → Avoids K ms
      → Indexes b.store b.active (among ms K)
      → Keeps K b (level_of price ms b)
  unfolding match_level
  match_level-Keeps price [] K b d a x = record { ids = SameIds-refl b.store; index = x }
  match_level-Keeps price (m ∷ ms) K b d a x = elim (zero_or (b.store taker).quantity) [
    | inl h ↦
        subst (Keeps K b) (sym (match_level-served price (m ∷ ms) b h))
          (record { ids = SameIds-refl b.store; index = x })
    | inr h ↦
        let c = traded price m b in
        let o = c.store m in
        let e = trade-SameIds price m b in
        elim (zero_or o.quantity) [
          | inl k ↦
              let go =
                match_level-Keeps price ms K
                  (record c { active = forget o.user_id o.order_id c.active }) d.1 a.1
                  (filled-Indexes price m ms K b x a.0 d.0) in
              subst (Keeps K b) (sym (match_level-filled price m ms b h k))
                (record { ids = SameIds-trans b.store c.store _ e go.ids; index = go.index })
          | inr k ↦
              let go =
                match_level-Keeps price ms (λ r. (r == m) || K r) c d.1
                  (Avoids-or K (λ r. r == m) ms a.1 (Avoids-one m ms d.0))
                  (passed-Indexes price m ms K b x) in
              subst (Keeps K b) (sym (match_level-passed price m ms b h k)) (record {
                ids = SameIds-trans b.store c.store _ e go.ids;
                index =
                    Indexes-set _ _ (among (level_of price ms c).0 (λ r. (r == m) || K r)) _
                      (λ p. ground arith) go.index;
              })
        ]
  ]

  abbrev levels_of : Levels → Book → Levels × Book
  levels_of = match_levels now make stops taker

  -- The branches of the outer loop: it stops, or it goes on behind the first level.
  match_levels-cases :
      (price : ℕ) (ms : List ℕ) (ls : Levels) (b : Book)
      → (levels_of ((price, ms) ∷ ls) b ≡ ((price, ms) ∷ ls, b))
        ⊎ (levels_of ((price, ms) ∷ ls) b ≡ (
          put_level price (level_of price ms b).0 (levels_of ls (level_of price ms b).1).0,
          (levels_of ls (level_of price ms b).1).1,
        ))
  unfolding match_levels
  match_levels-cases price ms ls b = elim (Bool-cases ((b.store taker).quantity == 0)) [
    | inl h ↦ inl (ground (arith, h))
    | inr h ↦ elim (Bool-cases (stops price (b.store taker).price)) [
      | inl k ↦ inl (ground (arith, h, k))
      | inr k ↦ inr (ground (arith, h, k))
    ]
  ]

  abbrev KeepsLevels : (ℕ → Bool) → Book → Levels × Book → Type 0
  KeepsLevels K b r = Keeps K b (addresses r.0, r.1)

  level-set :
      (price : ℕ) (ms : List ℕ) (ls : Levels) (K : ℕ → Bool) (p : ℕ)
      → among (addresses (put_level price ms ls)) K p ≡ among (addresses ls) (among ms K) p
  level-set price ms ls K p =
      ground (arith, addresses-put_level price ms ls, elem-append p ms (addresses ls))

  pub match_levels-Keeps :
      (ls : Levels) (K : ℕ → Bool) (b : Book)
      → Distinct (addresses ls)
      → Avoids K (addresses ls)
      → Indexes b.store b.active (among (addresses ls) K)
      → KeepsLevels K b (levels_of ls b)
  unfolding match_levels
  match_levels-Keeps [] K b d a x = record { ids = SameIds-refl b.store; index = x }
  match_levels-Keeps ((price, ms) ∷ ls) K b d a x = elim (match_levels-cases price ms ls b) [
    | inl e ↦ subst (KeepsLevels K b) (sym e) (record { ids = SameIds-refl b.store; index = x })
    | inr e ↦
        let (dms, dls, cross) = Distinct-append ms (addresses ls) d in
        let others = Fresh-swap ms (addresses ls) cross in
        let level = level_of price ms b in
        let here =
          match_level-Keeps price ms (among (addresses ls) K) b dms
            (Avoids-or K (λ r. elem r (addresses ls)) ms (All-append_left _ ms (addresses ls) a)
              (Avoids-elem (addresses ls) ms cross))
            (Indexes-set b.store b.active (among (addresses ((price, ms) ∷ ls)) K)
              (among ms (among (addresses ls) K))
              (λ p. ground (arith, elem-append p ms (addresses ls))) x) in
        let left =
          All-swap (λ p q. p ≢ q) ms level.0
            (λ p. match_level-All now make stops taker (λ q. p ≢ q) price ms b) (addresses ls)
            others in
        let there =
          match_levels-Keeps ls (among level.0 K) level.1 dls
            (Avoids-or K (λ r. elem r level.0) (addresses ls)
              (All-append_right _ ms (addresses ls) a) (Avoids-elem level.0 (addresses ls) left))
            (Indexes-set level.1.store level.1.active (among level.0 (among (addresses ls) K))
              (among (addresses ls) (among level.0 K)) (λ p. ground arith) here.index) in
        subst (KeepsLevels K b) (sym e) (record {
          ids =
              SameIds-trans b.store level.1.store (levels_of ls level.1).1.store here.ids there.ids;
          index =
              Indexes-set _ _ (among (addresses (levels_of ls level.1).0) (among level.0 K)) _
                (level-set price level.0 (levels_of ls level.1).0 K) there.index;
        })
  ]
