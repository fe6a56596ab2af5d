-- ===== src/OrderBook/Listing.antt =====
-- getUserActiveOrder of include/OrderBook.hpp against the index of active orders.
use exchange_server.Prelude.{
  ℕ, true, ◌&&◌, none, some, List, [], ◌∷◌, map, ◌==◌, ==_iff, ◌≡◌, refl, sym, ap, ◌∙◌, subst, inl,
  inr, arith, All, Fresh, Distinct, Bool-cases, elem,
}
use exchange_server.Prelude.Map.{Map, lookup, lookup_or}
use exchange_server.OrderBook.{Book, get_user_active_order}
use exchange_server.OrderBook.Index.{entry, entry_lem}
use exchange_server.OrderBook.Once.{keys}
use exchange_server.OrderBook.Active.{resting, IsIndexed}

lookup-Fresh : (j o : ℕ) (m : Map ℕ) → Fresh j (keys m) → (j == o) ≡ true → lookup o m ≡ none
lookup-Fresh j o [] f e = refl
lookup-Fresh j o (i ∷ m) f e = ground (arith, f.0, lookup-Fresh j o m f.1 e)

-- What a map's lookups satisfy, its entries satisfy.
lookup-All :
    (P : ℕ → ℕ → Type 0) (m : Map ℕ)
    → Distinct (keys m)
    → ((o p : ℕ) → lookup o m ≡ some p → P o p)
    → All (λ (e : ℕ × ℕ). P e.0 e.1) m
lookup-All P [] d f = tt
lookup-All P ((j, w) ∷ m) d f =
    (f j w (ground arith), lookup-All P m d.1 (λ o p h. f o p (found o p h)))
  where
    found : (o p : ℕ) → lookup o m ≡ some p → lookup o ((j, w) ∷ m) ≡ some p
    found o p h = ground (arith, lookup-Fresh j o m d.0, h)

lookup-elem : (o p : ℕ) (m : Map ℕ) → lookup o m ≡ some p → elem p (map (λ e. e.1) m) ≡ true
lookup-elem o p [] h = ground arith
lookup-elem o p ((j, w) ∷ m) h = ground (arith, lookup-elem o p m)

elem-lookup :
    (P : ℕ → ℕ → Type 0) (p : ℕ) (m : Map ℕ)
    → All (λ (e : ℕ × ℕ). P e.0 e.1) m
    → elem p (map (λ e. e.1) m) ≡ true
    → (o : ℕ) × P o p
elem-lookup P p [] h e = ground arith
elem-lookup P p ((o, w) ∷ m) h e = elim (Bool-cases (p == w)) [
  | inl k ↦ (o, subst (P o) (sym ((==_iff p w).0 k)) h.0)
  | inr k ↦ elem-lookup P p m h.1 (ground (arith, e, k))
]

values-Distinct :
    (f : ℕ → ℕ) (m : Map ℕ)
    → Distinct (keys m)
    → All (λ (e : ℕ × ℕ). f e.1 ≡ e.0) m
    → Distinct (map (λ e. e.1) m)
values-Distinct f [] d h = tt
values-Distinct f ((o, w) ∷ m) d h = (values-Fresh m d.0 h.1, values-Distinct f m d.1 h.1)
  where
    values-Fresh :
        (n : Map ℕ)
        → Fresh o (keys n)
        → All (λ (e : ℕ × ℕ). f e.1 ≡ e.0) n
        → Fresh w (map (λ e. e.1) n)
    values-Fresh [] g k = tt
    values-Fresh (e ∷ n) g k = ((λ q. g.0 (sym h.0 ∙ ap f q ∙ k.0)), values-Fresh n g.1 k.1)

-- The list holds a user's resting orders, each once, and nothing else.
abbrev pub Lists : ℕ → Book → List ℕ → Type 0
Lists u b ps = Distinct ps × ((p : ℕ) → elem p ps ≡ (resting b p && ((b.store p).user_id == u)))

module _ (u : ℕ) (b : Book) (x : IsIndexed b) where
  -- What the index says of an order.
  abbrev Entered : ℕ → ℕ → Type 0
  Entered o p = (resting b p ≡ true) × ((b.store p).user_id ≡ u) × ((b.store p).order_id ≡ o)

  entries : All (λ (e : ℕ × ℕ). Entered e.0 e.1) (lookup_or [] u b.active)
  entries =
      lookup-All Entered (lookup_or [] u b.active) (x.once u)
        (λ o p h. x.index.sound u o p (entry_lem u o b.active ∙ h))

  listed_lem :
      (p : ℕ) → elem p (get_user_active_order u b) ≡ (resting b p && ((b.store p).user_id == u))
  unfolding get_user_active_order
  listed_lem p = elim (Bool-cases (elem p (map (λ e. e.1) (lookup_or [] u b.active)))) [
    | inl k ↦
        let (o, (here, user, number)) = elem-lookup Entered p (lookup_or [] u b.active) entries k in
        ground (arith, k, here, user)
    | inr k ↦ elim (Bool-cases (resting b p && ((b.store p).user_id == u))) [
      | inl h ↦
          let user : (b.store p).user_id ≡ u = ground (arith, h) in
          let found : entry u (b.store p).order_id b.active ≡ some p =
            subst (λ w. entry w (b.store p).order_id b.active ≡ some p) user
              (x.index.complete p (ground (arith, h))) in
          let there =
            lookup-elem (b.store p).order_id p (lookup_or [] u b.active)
              (sym (entry_lem u (b.store p).order_id b.active) ∙ found) in
          absurd (ground (arith, k, there))
      | inr h ↦ ground (arith, k, h)
    ]
  ]

  -- Where the index is exact, a user's active orders are the resting orders of the user, each once,
  -- and no others.
  pub get_user_active_order-Lists : Lists u b (get_user_active_order u b)
  unfolding get_user_active_order
  get_user_active_order-Lists = (
    values-Distinct (λ p. (b.store p).order_id) (lookup_or [] u b.active) (x.once u)
        (lookup-All (λ o p. (b.store p).order_id ≡ o) (lookup_or [] u b.active) (x.once u)
          (λ o p h. (x.index.sound u o p (entry_lem u o b.active ∙ h)).2)),
    listed_lem,
  )
