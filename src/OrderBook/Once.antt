-- ===== src/OrderBook/Once.antt =====
-- Each user's map of active orders in include/OrderBook.hpp holds an id once.
use exchange_server.Prelude.{
  ℕ, Bool, List, [], ◌∷◌, map, ◌==◌, ◌≡◌, ◌≢◌, subst, inl, inr, arith, Fresh, Distinct, Bool-cases,
}
use exchange_server.Prelude.Map.{Map, lookup_or, insert, erase, lookup-insert}
use exchange_server.Common.{Order, MatchRecord}
use exchange_server.OrderBook.{Levels, Book, trade, match_level, match_levels, forget, remember}
use exchange_server.OrderBook.Index.{Active}

abbrev pub keys : Map ℕ → List ℕ
keys m = map (λ e. e.0) m

-- Each user's map holds an id once.
abbrev pub Once : Active → Type 0
Once m = (u : ℕ) → Distinct (keys (lookup_or [] u m))

insert-Fresh : (j k v : ℕ) (m : Map ℕ) → j ≢ k → Fresh j (keys m) → Fresh j (keys (insert k v m))
insert-Fresh j k v [] ne f = (ne, tt)
insert-Fresh j k v (e ∷ m) ne f = ground (arith, insert-Fresh j k v m ne f.1)

insert-Distinct : (k v : ℕ) (m : Map ℕ) → Distinct (keys m) → Distinct (keys (insert k v m))
insert-Distinct k v [] d = (tt, tt)
insert-Distinct k v ((j, w) ∷ m) d = elim (Bool-cases (j == k)) [
  | inl e ↦ let same : j ≡ k = ground arith in rw e (subst (λ x. Fresh x (keys m)) same d.0, d.1)
  | inr e ↦ rw e (insert-Fresh j k v m (ground arith) d.0, insert-Distinct k v m d.1)
]

erase-Fresh : (j k : ℕ) (m : Map ℕ) → Fresh j (keys m) → Fresh j (keys (erase k m))
erase-Fresh j k [] f = tt
erase-Fresh j k (e ∷ m) f = ground (arith, erase-Fresh j k m f.1)

erase-Distinct : (k : ℕ) (m : Map ℕ) → Distinct (keys m) → Distinct (keys (erase k m))
erase-Distinct k [] d = tt
erase-Distinct k ((j, w) ∷ m) d = ground (arith, erase-Fresh j k m d.0, erase-Distinct k m d.1)

pub forget-Once : (uid oid : ℕ) (m : Active) → Once m → Once (forget uid oid m)
forget-Once uid oid m d u = ground (
  arith,
  lookup-insert uid u (erase oid (lookup_or [] uid m)) m,
  erase-Distinct oid (lookup_or [] uid m) (d uid),
  d u,
)

pub remember-Once : (uid oid p : ℕ) (m : Active) → Once m → Once (remember uid oid p m)
remember-Once uid oid p m d u = ground (
  arith,
  lookup-insert uid u (insert oid p (lookup_or [] uid m)) m,
  insert-Distinct oid p (lookup_or [] uid m) (d uid),
  d u,
)

module _ (now : ℕ → ℕ) (make : ℕ → Order → Order → ℕ → ℕ → ℕ → MatchRecord) (stops : ℕ → ℕ → Bool)
    (taker : ℕ) where
  match_level-Once :
      (price : ℕ) (ms : List ℕ) (b : Book)
      → Once b.active
      → Once (match_level now make stops taker price ms b).1.active
  unfolding match_level
  match_level-Once price [] b d = d
  match_level-Once price (m ∷ ms) b d =
      let c = trade now make stops taker price m b in
      let o = c.store m in
      ground (
        arith,
        d,
        match_level-Once price ms c d,
        match_level-Once price ms (record c { active = forget o.user_id o.order_id c.active })
            (forget-Once o.user_id o.order_id c.active d),
      )

  pub match_levels-Once :
      (ls : Levels) (b : Book)
      → Once b.active
      → Once (match_levels now make stops taker ls b).1.active
  unfolding match_levels
  match_levels-Once [] b d = d
  match_levels-Once ((price, ms) ∷ ls) b d = ground (
    arith,
    d,
    match_levels-Once ls (match_level now make stops taker price ms b).1
        (match_level-Once price ms b d),
  )
