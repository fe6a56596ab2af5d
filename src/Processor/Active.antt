-- ===== src/Processor/Active.antt =====
-- Batches of include/OrderBookProcessor.hpp keep the index of active orders exact.
use exchange_server.Prelude.{
  ℕ, ◌+◌, Bool, Option, none, some, List, [], ◌∷◌, map, ◌≡◌, ◌≢◌, refl, sym, ap, ◌∙◌, All, Distinct,
  Fresh, Bool-cases, inl, inr,
}
use exchange_server.Common.{MatchRecord}
use exchange_server.OrderBook
use exchange_server.OrderBook.{Store, Book}
use exchange_server.OrderBook.Spec.{addresses}
use exchange_server.OrderBook.Invariant.{IsValid}
use exchange_server.OrderBook.Match.{IsNew}
use exchange_server.OrderBook.Process.{process_order-IsValid}
use exchange_server.OrderBook.Active.{
  IsIndexed, OtherId, process_order-IsIndexed, process_order-SameIds,
}
use exchange_server.OrderBook.Listed.{cancel_order-IsIndexed, cancel_order-store}
use exchange_server.OrderBook.Listing.{Lists, get_user_active_order-Lists}
use exchange_server.OrderBook.Resting.{Everywhere, process_order-All, cancel_order-All}
use exchange_server.OrderBook.Cancel.{cancel_order-IsValid}
use exchange_server.Engine.{EventType, new_order, cancel_order, EngineEvent}
use exchange_server.Processor.{
  Worker, run_event, run_event_of, run_events, run_batch, report_cancel,
}
use exchange_server.Processor.Batch.{arrivals, arrivals_of}

module _ (ids : ℕ → ℕ) where
  -- No order of the list has the id of a resting order.
  abbrev pub Unused : List ℕ → Book → Type 0
  Unused ps b = All (λ q. Everywhere (λ r. ids r ≢ ids q) b) ps

  -- A book whose index is exact, and orders whose ids no two of them and no resting order share.
  pub record Exact (ps : List ℕ) (b : Book) : Type 0 where
    pub valid : IsValid b
    pub indexed : IsIndexed b
    pub named : (r : ℕ) → (b.store r).order_id ≡ ids r
    pub unused : Unused ps b
    pub once : Distinct (map ids ps)

  All-other : (P Q : ℕ → Type 0) (xs : List ℕ) → ((x : ℕ) → P x → Q x) → All P xs → All Q xs
  All-other P Q [] f h = tt
  All-other P Q (x ∷ xs) f h = (f x h.0, All-other P Q xs f h.1)

  Unused-IsNew : (p : ℕ) (b : Book) → Everywhere (λ r. ids r ≢ ids p) b → IsNew p b
  Unused-IsNew p b h = record {
    bids = All-other _ (λ r. p ≢ r) (addresses b.bids) (λ r f e. f (ap ids (sym e))) h.0;
    asks = All-other _ (λ r. p ≢ r) (addresses b.asks) (λ r f e. f (ap ids (sym e))) h.1;
  }

  Unused-process :
      (now : ℕ → ℕ) (p : ℕ) (b : Book) (ps : List ℕ)
      → Fresh (ids p) (map ids ps)
      → Unused ps b
      → Unused ps (OrderBook.process_order now p b)
  Unused-process now p b [] f h = tt
  Unused-process now p b (q ∷ ps) f h =
      (process_order-All (λ r. ids r ≢ ids q) now p b f.0 h.0, Unused-process now p b ps f.1 h.1)

  Unused-cancel :
      (id uid : ℕ) (b : Book) (ps : List ℕ)
      → Unused ps b
      → Unused ps (OrderBook.cancel_order id uid b).1
  Unused-cancel id uid b [] h = tt
  Unused-cancel id uid b (q ∷ ps) h =
      (cancel_order-All (λ r. ids r ≢ ids q) id uid b h.0, Unused-cancel id uid b ps h.1)

  Exact-process :
      (now : ℕ → ℕ) (p : ℕ) (b : Book) (ps : List ℕ)
      → Exact (p ∷ ps) b
      → Exact ps (OrderBook.process_order now p b)
  Exact-process now p b ps x =
      let new = Unused-IsNew p b x.unused.0 in
      let other : (r : ℕ) → ids r ≢ ids p → OtherId b.store p r =
        λ r f e. f (sym (x.named r) ∙ e ∙ x.named p) in
      let others : Everywhere (OtherId b.store p) b = (
        All-other _ (OtherId b.store p) (addresses b.bids) other x.unused.0.0,
        All-other _ (OtherId b.store p) (addresses b.asks) other x.unused.0.1,
      ) in
      let same = process_order-SameIds now p b x.valid new x.indexed others in
      record {
        valid = process_order-IsValid now p b x.valid new;
        indexed = process_order-IsIndexed now p b x.valid new x.indexed others;
        named = λ r. same.id_eq r ∙ x.named r;
        unused = Unused-process now p b ps x.once.0 x.unused.1;
        once = x.once.1;
      }

  Exact-cancel :
      (id uid : ℕ) (b : Book) (ps : List ℕ)
      → Exact ps b
      → Exact ps (OrderBook.cancel_order id uid b).1
  Exact-cancel id uid b ps x = record {
    valid = cancel_order-IsValid id uid b x.valid;
    indexed = cancel_order-IsIndexed id uid b x.valid x.indexed;
    named = λ r.
        ap (λ (s : Store). (s r).order_id) (cancel_order-store id uid b x.valid x.indexed)
        ∙ x.named r;
    unused = Unused-cancel id uid b ps x.unused;
    once = x.once;
  }

  -- Neither the clock nor the records matter.
  Exact-results :
      (ps : List ℕ) (rs : List MatchRecord) (n : ℕ) (b : Book)
      → Exact ps b
      → Exact ps (record b { results = rs; ticks = n })
  Exact-results ps rs n b x = record {
    valid = record {
      bids = x.valid.bids;
      asks = x.valid.asks;
      apart = x.valid.apart;
      uncrossed = x.valid.uncrossed;
    };
    indexed = record { index = x.indexed.index; once = x.indexed.once };
    named = x.named;
    unused = All-other _ (λ q. Everywhere (λ r. ids r ≢ ids q) b) ps (λ q h. h) x.unused;
    once = x.once;
  }

  module _ (now : ℕ → ℕ) (settlement : Bool) where
    report_cancel-Exact :
        (o : Option ℕ) (ps : List ℕ) (w : Worker)
        → Exact ps w.book
        → Exact ps (report_cancel now settlement o w).book
    report_cancel-Exact none ps w x = x
    report_cancel-Exact (some p) ps w x = elim (Bool-cases settlement) [
      | inl e ↦ rw e (Exact-results ps w.book.results (w.book.ticks + 1) w.book x)
      | inr e ↦ rw e x
    ]

    run_event_of-Exact :
        (type : EventType) (ev : EngineEvent) (ps : List ℕ) (w : Worker)
        → Exact (arrivals_of type ev.order ps) w.book
        → Exact ps (run_event_of now settlement type ev w).book
    run_event_of-Exact new_order ev ps w x = Exact-process now ev.order w.book ps x
    run_event_of-Exact cancel_order ev ps w x =
        let r = OrderBook.cancel_order ev.cancel_order_id ev.cancel_user_id w.book in
        report_cancel-Exact r.0 ps (record w { book = r.1 })
          (Exact-cancel ev.cancel_order_id ev.cancel_user_id w.book ps x)

    run_events-Exact :
        (evs : List EngineEvent) (w : Worker)
        → Exact (arrivals evs) w.book
        → Exact [] (run_events now settlement evs w).book
    unfolding run_events run_event
    run_events-Exact [] w x = x
    run_events-Exact (ev ∷ evs) w x =
        run_events-Exact evs (run_event now settlement ev w)
          (run_event_of-Exact ev.type ev (arrivals evs) w x)

-- The ids of the orders in a book's store.
abbrev pub ids_of : Book → ℕ → ℕ
ids_of b p = (b.store p).order_id

module _ (now : ℕ → ℕ) (settlement : Bool) (evs : List EngineEvent) (w : Worker)
    (v : IsValid w.book) (x : IsIndexed w.book) (d : Distinct (map (ids_of w.book) (arrivals evs)))
    (new : Unused (ids_of w.book) (arrivals evs) w.book) where
  run_batch-Exact : Exact (ids_of w.book) [] (run_batch now settlement evs w).book
  unfolding run_batch
  run_batch-Exact =
      run_events-Exact (ids_of w.book) now settlement evs
        (record w { book = record (w.book) { results = [] } })
        (Exact-results (ids_of w.book) (arrivals evs) [] w.book.ticks w.book
          (record { valid = v; indexed = x; named = λ r. refl; unused = new; once = d }))

  -- A batch of events over a well formed book whose index is exact leaves the book well formed and the
  -- index exact, where no order that the batch brings has the id of another one or of a resting
  -- order: the index holds the resting orders and no others, each under its user and its id.
  pub run_batch-IsIndexed : let b = (run_batch now settlement evs w).book in IsValid b × IsIndexed b
  run_batch-IsIndexed = (run_batch-Exact.valid, run_batch-Exact.indexed)

  -- After such a batch, `get_user_active_order` gives for each user the resting orders of the user,
  -- each once, and no others.
  pub run_batch-Lists :
      (u : ℕ)
      → let b = (run_batch now settlement evs w).book in
        Lists u b (OrderBook.get_user_active_order u b)
  run_batch-Lists u =
      get_user_active_order-Lists u (run_batch now settlement evs w).book run_batch-Exact.indexed
