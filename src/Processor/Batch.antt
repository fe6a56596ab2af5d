-- ===== src/Processor/Batch.antt =====
-- Batches of include/OrderBookProcessor.hpp keep the book well formed.
use exchange_server.Prelude.{
  ℕ, ◌+◌, Bool, Option, none, some, List, [], ◌∷◌, ◌≢◌, sym, All, Distinct, Fresh, Bool-cases, inl,
  inr,
}
use exchange_server.OrderBook
use exchange_server.OrderBook.{Book}
use exchange_server.OrderBook.Invariant.{IsValid}
use exchange_server.OrderBook.Match.{IsNew}
use exchange_server.OrderBook.Process.{process_order-IsValid}
use exchange_server.OrderBook.Resting.{process_order-All, cancel_order-All}
use exchange_server.OrderBook.Cancel.{cancel_order-IsValid}
use exchange_server.Engine.{EventType, new_order, cancel_order, EngineEvent}
use exchange_server.Processor.{
  Worker, run_event, run_event_of, run_events, run_batch, report_cancel,
}

-- The addresses of the orders that the events bring.
abbrev pub arrivals_of : EventType → ℕ → List ℕ → List ℕ
arrivals_of new_order p ps = p ∷ ps
arrivals_of cancel_order p ps = ps

abbrev pub arrivals : List EngineEvent → List ℕ
arrivals [] = []
arrivals (ev ∷ evs) = arrivals_of ev.type ev.order (arrivals evs)

All-process :
    (now : ℕ → ℕ) (p : ℕ) (b : Book) (ps : List ℕ)
    → Fresh p ps
    → All (λ q. IsNew q b) ps
    → All (λ q. IsNew q (OrderBook.process_order now p b)) ps
All-process now p b [] f h = tt
All-process now p b (q ∷ ps) f h =
    let r = process_order-All (λ y. q ≢ y) now p b (λ e. f.0 (sym e)) (h.0.bids, h.0.asks) in
    (record { bids = r.0; asks = r.1 }, All-process now p b ps f.1 h.1)

All-cancel :
    (id uid : ℕ) (b : Book) (ps : List ℕ)
    → All (λ q. IsNew q b) ps
    → All (λ q. IsNew q (OrderBook.cancel_order id uid b).1) ps
All-cancel id uid b [] h = tt
All-cancel id uid b (q ∷ ps) h =
    let r = cancel_order-All (λ y. q ≢ y) id uid b (h.0.bids, h.0.asks) in
    (record { bids = r.0; asks = r.1 }, All-cancel id uid b ps h.1)

-- A book that is well formed, and orders that are all new to it.
abbrev pub Ready : List ℕ → Book → Type 0
Ready ps b = IsValid b × All (λ q. IsNew q b) ps

-- Readiness does not read the clock.
Ready-ticks : (ps : List ℕ) (n : ℕ) (b : Book) → Ready ps b → Ready ps (record b { ticks = n })
Ready-ticks ps n b h = (
  record { bids = h.0.bids; asks = h.0.asks; apart = h.0.apart; uncrossed = h.0.uncrossed },
  IsNew-ticks ps h.1,
)
  where
    IsNew-ticks :
        (qs : List ℕ) → All (λ q. IsNew q b) qs → All (λ q. IsNew q (record b { ticks = n })) qs
    IsNew-ticks [] k = tt
    IsNew-ticks (q ∷ qs) k = (record { bids = k.0.bids; asks = k.0.asks }, IsNew-ticks qs k.1)

module _ (now : ℕ → ℕ) (settlement : Bool) where
  report_cancel-Ready :
      (o : Option ℕ) (ps : List ℕ) (w : Worker)
      → Ready ps w.book
      → Ready ps (report_cancel now settlement o w).book
  report_cancel-Ready none ps w h = h
  report_cancel-Ready (some p) ps w h = elim (Bool-cases settlement) [
    | inl e ↦ rw e (Ready-ticks ps (w.book.ticks + 1) w.book h)
    | inr e ↦ rw e h
  ]

  run_event_of-Ready :
      (type : EventType) (ev : EngineEvent) (ps : List ℕ) (w : Worker)
      → Distinct (arrivals_of type ev.order ps)
      → Ready (arrivals_of type ev.order ps) w.book
      → Distinct ps × Ready ps (run_event_of now settlement type ev w).book
  run_event_of-Ready new_order ev ps w d h = (
    d.1,
    (
      process_order-IsValid now ev.order w.book h.0 h.1.0,
      All-process now ev.order w.book ps d.0 h.1.1,
    ),
  )
  run_event_of-Ready cancel_order ev ps w d h =
      let r = OrderBook.cancel_order ev.cancel_order_id ev.cancel_user_id w.book in
      (
        d,
        report_cancel-Ready r.0 ps (record w { book = r.1 })
            (
              cancel_order-IsValid ev.cancel_order_id ev.cancel_user_id w.book h.0,
              All-cancel ev.cancel_order_id ev.cancel_user_id w.book ps h.1,
            ),
      )

  run_events-IsValid :
      (evs : List EngineEvent) (w : Worker)
      → Distinct (arrivals evs)
      → Ready (arrivals evs) w.book
      → IsValid (run_events now settlement evs w).book
  unfolding run_events run_event
  run_events-IsValid [] w d h = h.0
  run_events-IsValid (ev ∷ evs) w d h =
      let (d', h') = run_event_of-Ready ev.type ev (arrivals evs) w d h in
      run_events-IsValid evs (run_event now settlement ev w) d' h'

  -- A batch of events over a well formed book leaves the book well formed, where the orders that
  -- the batch brings are at distinct addresses and none of them rests in the book.
  run_batch-IsValid :
      (evs : List EngineEvent) (w : Worker)
      → IsValid w.book
      → Distinct (arrivals evs)
      → All (λ q. IsNew q w.book) (arrivals evs)
      → IsValid (run_batch now settlement evs w).book
  unfolding run_batch
  run_batch-IsValid evs w v d new =
      run_events-IsValid evs (record w { book = record (w.book) { results = [] } }) d
        (
          record { bids = v.bids; asks = v.asks; apart = v.apart; uncrossed = v.uncrossed },
          IsNew-results (arrivals evs) new,
        )
    where
      IsNew-results :
          (qs : List ℕ)
          → All (λ q. IsNew q w.book) qs
          → All (λ q. IsNew q (record (w.book) { results = [] })) qs
      IsNew-results [] k = tt
      IsNew-results (q ∷ qs) k = (record { bids = k.0.bids; asks = k.0.asks }, IsNew-results qs k.1)
