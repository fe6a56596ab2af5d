-- ===== src/OrderBook/Refines.antt =====
-- The loops of include/OrderBook.hpp over shared orders do what the queue of quotes says.
use exchange_server.Prelude.{
  ℕ, ◌-◌, min, Bool, true, false, List, [], ◌∷◌, ◌++◌, ◌≡◌, ◌≢◌, refl, ap, ◌∙◌, arith, Fresh,
  Distinct, All, All-append_left, All-append_right, Distinct-append, Fresh-swap,
}
use exchange_server.Common.{Order, MatchRecord}
use exchange_server.OrderBook.{
  Store, Levels, Book, trade, put_level, match_level, match_levels, forget,
}
use exchange_server.OrderBook.Spec.{Quote, Outcome, fill, quotes_at, queue_of, addresses, Filled}

-- Two stores agree on the addresses of a list.
abbrev pub SameAt : Store → Store → List ℕ → Type 0
SameAt s s' ms = All (λ m. s' m ≡ s m) ms

pub quotes_at-SameAt :
    (s s' : Store) (price : ℕ) (ms : List ℕ)
    → SameAt s s' ms
    → quotes_at s' price ms ≡ quotes_at s price ms
quotes_at-SameAt s s' price [] h = refl
quotes_at-SameAt s s' price (m ∷ ms) h = rw (h.0, quotes_at-SameAt s s' price ms h.1)

pub queue_of-SameAt :
    (s s' : Store) (ls : Levels) → SameAt s s' (addresses ls) → queue_of s' ls ≡ queue_of s ls
queue_of-SameAt s s' [] h = refl
queue_of-SameAt s s' ((price, ms) ∷ ls) h = rw (
  quotes_at-SameAt s s' price ms (All-append_left _ ms (addresses ls) h),
  queue_of-SameAt s s' ls (All-append_right _ ms (addresses ls) h),
)

pub queue_of-put_level :
    (s : Store) (price : ℕ) (ms : List ℕ) (ls : Levels)
    → queue_of s (put_level price ms ls) ≡ quotes_at s price ms ++ queue_of s ls
queue_of-put_level s price [] ls = refl
queue_of-put_level s price (m ∷ ms) ls = refl

module _ (now : ℕ → ℕ) (make : ℕ → Order → Order → ℕ → ℕ → ℕ → MatchRecord) (stops : ℕ → ℕ → Bool)
    (taker : ℕ) where
  abbrev level_of : ℕ → List ℕ → Book → List ℕ × Book
  level_of = match_level now make stops taker

  abbrev levels_of : Levels → Book → Levels × Book
  levels_of = match_levels now make stops taker

  -- A served order changes nothing.
  match_level-served :
      (price : ℕ) (ms : List ℕ) (b : Book)
      → (b.store taker).quantity ≡ 0
      → level_of price ms b ≡ (ms, b)
  unfolding match_level
  match_level-served price [] b h = refl
  match_level-served price (m ∷ ms) b h = ground arith

  -- An order outside the level keeps its contents.
  pub match_level-other :
      (r price : ℕ) (ms : List ℕ) (b : Book)
      → taker ≢ r
      → Fresh r ms
      → (level_of price ms b).1.store r ≡ b.store r
  unfolding match_level
  match_level-other r price [] b ne f = refl
  match_level-other r price (m ∷ ms) b ne f =
      let c = trade now make stops taker price m b in
      let o = c.store m in
      ground (
        arith,
        match_level-other r price ms c ne f.1,
        match_level-other r price ms (record c { active = forget o.user_id o.order_id c.active }) ne
            f.1,
      )

  module _ (price m : ℕ) (b : Book) where
    abbrev traded : Book
    traded = trade now make stops taker price m b

    abbrev qty_of : ℕ
    qty_of = min (b.store taker).quantity (b.store m).quantity

    trade-taker :
        taker ≢ m
        → traded.store taker
          ≡ record (b.store taker) { quantity = (b.store taker).quantity - qty_of }
    trade-taker ne = ground arith

    trade-maker :
        taker ≢ m → traded.store m ≡ record (b.store m) { quantity = (b.store m).quantity - qty_of }
    trade-maker ne = ground arith

    trade-SameAt : (ms : List ℕ) → Fresh taker ms → Fresh m ms → SameAt b.store traded.store ms
    trade-SameAt [] f g = tt
    trade-SameAt (r ∷ ms) f g = (ground arith, trade-SameAt ms f.1 g.1)

  module _ (ticker : ℕ) where
    abbrev fill_of : Order → ℕ → List MatchRecord → List Quote → Outcome
    fill_of = fill now make stops ticker

    fill-served :
        (t : Order) (k : ℕ) (rs : List MatchRecord) (q : List Quote)
        → t.quantity ≡ 0
        → fill_of t k rs q ≡ record { taker = t; queue = q; records = rs; ticks = k }
    unfolding fill
    fill-served t k rs [] h = refl
    fill-served t k rs (x ∷ q) h = ground arith

  abbrev outcome : List Quote → Book → List Quote → Outcome
  outcome qs c q =
      let o = fill_of c.ticker_id (c.store taker) c.ticks c.results q in
      record o { queue = qs ++ o.queue }

  match_level-refines :
      (price : ℕ) (ms : List ℕ) (q : List Quote) (b : Book)
      → stops price (b.store taker).price ≡ false
      → Distinct ms
      → Fresh taker ms
      → outcome [] b (quotes_at b.store price ms ++ q)
        ≡ outcome
            (quotes_at (level_of price ms b).1.store price (level_of price ms b).0)
            (level_of price ms b).1
            q
  unfolding match_level fill
  match_level-refines price [] q b h d f = refl
  match_level-refines price (m ∷ ms) q b h d f =
      let c = traded price m b in
      let o = c.store m in
      let c' : Book = record c { active = forget o.user_id o.order_id c.active } in
      ground (
        arith,
        trade-taker price m b f.0,
        trade-maker price m b f.0,
        quotes_at-SameAt b.store c.store price ms (trade-SameAt price m b ms f.1 d.0),
        fill-served b.ticker_id (b.store taker) b.ticks b.results q,
        fill-served c.ticker_id (c.store taker) c.ticks c.results q,
        match_level-served price ms c,
        match_level-refines price ms q c'
            (ap (λ (t : Order). stops price t.price) (trade-taker price m b f.0) ∙ h) d.1 f.1,
      )

  -- What is left of a level comes from the level.
  pub match_level-All :
      (P : ℕ → Type 0) (price : ℕ) (ms : List ℕ) (b : Book)
      → All P ms
      → All P (level_of price ms b).0
  unfolding match_level
  match_level-All P price [] b h = tt
  match_level-All P price (m ∷ ms) b h =
      let c = traded price m b in
      let o = c.store m in
      ground (
        arith,
        match_level-All _ price ms c h.1,
        match_level-All _ price ms (record c { active = forget o.user_id o.order_id c.active }) h.1,
      )

  match_level-SameAt :
      (price : ℕ) (ms rs : List ℕ) (b : Book)
      → Fresh taker rs
      → All (λ r. Fresh r ms) rs
      → SameAt b.store (level_of price ms b).1.store rs
  match_level-SameAt price ms [] b f h = tt
  match_level-SameAt price ms (r ∷ rs) b f h =
      (match_level-other r price ms b f.0 h.0, match_level-SameAt price ms rs b f.1 h.1)

  -- An order outside the levels keeps its contents.
  pub match_levels-other :
      (r : ℕ) (ls : Levels) (b : Book)
      → taker ≢ r
      → Fresh r (addresses ls)
      → (levels_of ls b).1.store r ≡ b.store r
  unfolding match_levels
  match_levels-other r [] b ne f = refl
  match_levels-other r ((price, ms) ∷ ls) b ne f =
      let c = (level_of price ms b).1 in
      ground (
        arith,
        match_levels-other r ls c ne (All-append_right _ ms (addresses ls) f),
        match_level-other r price ms b ne (All-append_left _ ms (addresses ls) f),
      )

  pub match_levels-SameAt :
      (ls : Levels) (rs : List ℕ) (b : Book)
      → Fresh taker rs
      → All (λ r. Fresh r (addresses ls)) rs
      → SameAt b.store (levels_of ls b).1.store rs
  match_levels-SameAt ls [] b f h = tt
  match_levels-SameAt ls (r ∷ rs) b f h =
      (match_levels-other r ls b f.0 h.0, match_levels-SameAt ls rs b f.1 h.1)

  -- A level that the order stops at ends the queue for it.
  fill-stops :
      (ticker : ℕ) (t : Order) (k : ℕ) (rs : List MatchRecord) (price : ℕ) (m : Order)
      (q : List Quote)
      → stops price t.price ≡ true
      → fill_of ticker t k rs ((price, m) ∷ q)
        ≡ record { taker = t; queue = (price, m) ∷ q; records = rs; ticks = k }
  unfolding fill
  fill-stops ticker t k rs price m q h = ground arith

  -- The loops over the levels compute the outcome on the queue that the levels stand for.
  pub match_levels-refines :
      (ls : Levels) (b : Book)
      → Filled ls
      → Distinct (addresses ls)
      → Fresh taker (addresses ls)
      → fill_of b.ticker_id (b.store taker) b.ticks b.results (queue_of b.store ls) ≡ (
          let (ls', c) = levels_of ls b in
          record {
            taker = c.store taker;
            queue = queue_of c.store ls';
            records = c.results;
            ticks = c.ticks;
          })
  unfolding match_levels
  match_levels-refines [] b n d f = unfold fill in refl
  match_levels-refines ((price, []) ∷ ls) b n d f = absurd n
  match_levels-refines ((price, m ∷ ms) ∷ ls) b n d f =
      let level = level_of price (m ∷ ms) b in
      let c = level.1 in
      let rest = levels_of ls c in
      let (dms, dls, cross) = Distinct-append (m ∷ ms) (addresses ls) d in
      let fms = All-append_left _ (m ∷ ms) (addresses ls) f in
      let fls = All-append_right _ (m ∷ ms) (addresses ls) f in
      let ws = quotes_at b.store price ms ++ queue_of b.store ls in
      ground (
        arith,
        fill-served b.ticker_id (b.store taker) b.ticks b.results ((price, b.store m) ∷ ws),
        fill-stops b.ticker_id (b.store taker) b.ticks b.results price (b.store m) ws,
        match_level-refines price (m ∷ ms) (queue_of b.store ls) b,
        match_levels-refines ls c n dls fls,
        queue_of-SameAt b.store c.store ls (
            match_level-SameAt price (m ∷ ms) (addresses ls) b fls
              (Fresh-swap (m ∷ ms) (addresses ls) cross)),
        quotes_at-SameAt c.store rest.1.store price level.0 (
            match_levels-SameAt ls level.0 c (match_level-All _ price (m ∷ ms) b fms)
              (match_level-All _ price (m ∷ ms) b cross)),
        queue_of-put_level rest.1.store price level.0 rest.0,
        dms,
        fms,
      )
