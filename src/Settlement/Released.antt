-- ===== src/Settlement/Released.antt =====
-- A cancelled bid on a book of include/OrderBook.hpp whose index is exact, and its frozen cash.
use exchange_server.Prelude.{
  ℕ, ◌+◌, ◌^◌, ◌%◌, ◌<◌, true, none, some, List, [], ◌∷◌, ◌++◌, map, ◌==◌, ==_iff, ◌≡◌, ◌≢◌, refl,
  sym, ◌∙◌, ap, subst, arith, All, Fresh, Distinct, inl, inr, Bool-cases, elem,
}
use exchange_server.Prelude.Int.{pos}
use exchange_server.Prelude.Map.{lookup, lookup_or}
use exchange_server.Common.{buy, sell, OrderSide}
use exchange_server.OrderBook.{Store, Levels, Book, cancel_order}
use exchange_server.OrderBook.Spec.{Quote, quotes_at, queue_of, addresses, market_of}
use exchange_server.OrderBook.Fill.{Rests}
use exchange_server.OrderBook.Invariant.{IsValid}
use exchange_server.OrderBook.Cancel.{indexed}
use exchange_server.OrderBook.Index.{entry_lem}
use exchange_server.OrderBook.Active.{resting, IsIndexed}
use exchange_server.OrderBook.Removed.{queue_of-side}
use exchange_server.OrderBook.Owed.{owed}
use exchange_server.Accounts.{get_account}
use exchange_server.Accounts.Frozen.{frozen_of}
use exchange_server.Processor.{cancel_record}
use exchange_server.Tickers.{TickerManager}
use exchange_server.Repositories.{UserRepository, StockRepository}
use exchange_server.Settlement.{Holders, settle_cancels}
use exchange_server.Settlement.Cancelled.{Stays, Once, cancel_settle-frozen_of}

-- The prices and the addresses of the queue.
abbrev places_at : ℕ → List ℕ → List (ℕ × ℕ)
places_at price [] = []
places_at price (m ∷ ms) = (price, m) ∷ places_at price ms

abbrev places : Levels → List (ℕ × ℕ)
places [] = []
places ((price, ms) ∷ ls) = places_at price ms ++ places ls

abbrev quote : Store → ℕ × ℕ → Quote
quote s e = (e.0, s e.1)

map-append : {A B : Type 0} (f : A → B) (xs ys : List A) → map f (xs ++ ys) ≡ map f xs ++ map f ys
map-append f [] ys = refl
map-append f (x ∷ xs) ys = rw (map-append f xs ys) refl

quotes_at-places :
    (s : Store) (price : ℕ) (ms : List ℕ)
    → map (quote s) (places_at price ms) ≡ quotes_at s price ms
quotes_at-places s price [] = refl
quotes_at-places s price (m ∷ ms) = rw (quotes_at-places s price ms) refl

queue_of-places : (s : Store) (ls : Levels) → map (quote s) (places ls) ≡ queue_of s ls
queue_of-places s [] = refl
queue_of-places s ((price, ms) ∷ ls) =
    rw
      (
        map-append (quote s) (places_at price ms) (places ls),
        quotes_at-places s price ms,
        queue_of-places s ls,
      )
      refl

addresses_at-places : (price : ℕ) (ms : List ℕ) → map (λ e. e.1) (places_at price ms) ≡ ms
addresses_at-places price [] = refl
addresses_at-places price (m ∷ ms) = rw (addresses_at-places price ms) refl

addresses-places : (ls : Levels) → map (λ e. e.1) (places ls) ≡ addresses ls
addresses-places [] = refl
addresses-places ((price, ms) ∷ ls) =
    rw
      (
        map-append (λ e. e.1) (places_at price ms) (places ls),
        addresses_at-places price ms,
        addresses-places ls,
      )
      refl

module _ (s : Store) (p oid : ℕ) where
  -- The queue around an address.
  record Around (side : OrderSide) (es : List (ℕ × ℕ)) : Type 0 where
    pub ahead : List Quote
    pub behind : List Quote
    pub queue_eq : map (quote s) es ≡ ahead ++ ((s p).price, s p) ∷ behind
    pub ahead_stays : All (Stays (s p).price oid) ahead
    pub behind_stays : All (Stays (s p).price oid) behind

  -- An order of another address has another id.
  abbrev Apart : ℕ × ℕ → Type 0
  Apart e = e.1 ≢ p → (s e.1).order_id ≢ oid

  Stays-Fresh :
      (es : List (ℕ × ℕ))
      → Fresh p (map (λ e. e.1) es)
      → All Apart es
      → All (Stays (s p).price oid) (map (quote s) es)
  Stays-Fresh [] f a = tt
  Stays-Fresh (e ∷ es) f a = (ground (arith, a.0 (λ q. f.0 (sym q))), Stays-Fresh es f.1 a.1)

  around :
      (side : OrderSide) (es : List (ℕ × ℕ))
      → Distinct (map (λ e. e.1) es)
      → All Apart es
      → All (Rests side) (map (quote s) es)
      → elem p (map (λ e. e.1) es) ≡ true
      → Around side es
  around side [] d a r h = absurd (ground (arith, h))
  around side ((q, m) ∷ es) d a r h = elim (Bool-cases (p == m)) [
    | inl e ↦
        let same : m ≡ p = sym ((==_iff p m).0 e) in
        record {
          ahead = [];
          behind = map (quote s) es;
          queue_eq =
              ap (λ (x : Quote). x ∷ map (quote s) es)
                (ap (λ k. (k, s m)) (sym r.0.1) ∙ ap (λ k. ((s k).price, s k)) same);
          ahead_stays = tt;
          behind_stays = Stays-Fresh es (subst (λ x. Fresh x (map (λ e. e.1) es)) same d.0) a.1;
        }
    | inr e ↦
        let rest = around side es d.1 a.1 r.1 (ground (arith, h, e)) in
        record {
          ahead = (q, s m) ∷ rest.ahead;
          behind = rest.behind;
          queue_eq = ap (λ x. (q, s m) ∷ x) rest.queue_eq;
          ahead_stays = (ground (arith, a.0 (λ k. ground (arith, k, e))), rest.ahead_stays);
          behind_stays = rest.behind_stays;
        }
  ]

elem-All_values :
    (P : ℕ → Type 0) (es : List (ℕ × ℕ))
    → ((r : ℕ) → elem r (map (λ e. e.1) es) ≡ true → P r)
    → All (λ (e : ℕ × ℕ). P e.1) es
elem-All_values P [] f = tt
elem-All_values P (e ∷ es) f =
    (f e.1 (ground arith), elem-All_values P es (λ r h. f r (ground (arith, h))))

module _ (uid oid p : ℕ) (b : Book) (v : IsValid b) (x : IsIndexed b)
    (found : lookup oid (lookup_or [] uid b.active) ≡ some p) (own : (b.store p).side ≡ buy) where
  known : (resting b p ≡ true) × ((b.store p).user_id ≡ uid) × ((b.store p).order_id ≡ oid)
  known = x.index.sound uid oid p (entry_lem uid oid b.active ∙ found)

  resting_bid : elem p (addresses b.bids) ≡ true
  resting_bid = elim (Bool-cases (elem p (addresses b.bids))) [
    | inl h ↦ h
    | inr h ↦
        let other =
          queue_of-side b.store 0 0 p sell b.asks v.asks.rests (ground (arith, h, known.0)) in
        absurd (ground (arith, own, other))
  ]

  apart : All (Apart b.store p oid) (places b.bids)
  apart =
      elem-All_values (λ r. r ≢ p → (b.store r).order_id ≢ oid) (places b.bids)
        (λ r h ne e. ne (
          x.index.unique r p
            (ground (arith, subst (λ xs. elem r xs ≡ true) (addresses-places b.bids) h)) known.0
            (e ∙ sym known.2)))

  resting-Once : Once p oid b
  resting-Once =
      let a =
        around b.store p oid buy (places b.bids)
          (subst Distinct (sym (addresses-places b.bids)) v.bids.distinct) apart
          (subst (All (Rests buy)) (sym (queue_of-places b.store b.bids)) v.bids.rests)
          (subst (λ xs. elem p xs ≡ true) (sym (addresses-places b.bids)) resting_bid) in
      record {
        ahead = a.ahead;
        behind = a.behind;
        bids_eq = sym (queue_of-places b.store b.bids) ∙ a.queue_eq;
        id_eq = known.2;
        ahead_stays = a.ahead_stays;
        behind_stays = a.behind_stays;
      }

module _ {Db : Type 0} (users : UserRepository Db) (stocks : StockRepository Db)
    (tickers : TickerManager) where
  -- The cancelled order of a bid, on a well formed book whose index is exact, is reported to the
  -- settlement, which gives back its price times its quantity: its owner had frozen what the owner's
  -- resting bids are good for, and some more for other orders, below 2^63 in all, and has then frozen
  -- what the bids are good for that still rest, and as much for the others as before.
  pub cancel_settle-backed :
      (id uid p time others : ℕ) (b : Book) (h : Holders Db)
      → IsValid b
      → IsIndexed b
      → indexed id uid b ≡ some p
      → (b.store p).side ≡ buy
      → get_account uid h.accounts ≢ none
      → owed uid (market_of b).bids + others < 2 ^ 63
      → frozen_of uid h.accounts ≡ pos (owed uid (market_of b).bids + others)
      → frozen_of uid
          (settle_cancels users stocks tickers (cancel_record time (b.store p) ∷ []) h).accounts
        ≡ pos (owed uid (market_of (cancel_order id uid b).1).bids + others)
  cancel_settle-backed id uid p time others b h v x found own =
      cancel_settle-frozen_of users stocks tickers id uid p time others b h v found
        (own, (known uid (id % 2 ^ 32) p b v x found own).1)
        (resting-Once uid (id % 2 ^ 32) p b v x found own)
