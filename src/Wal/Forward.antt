-- ===== src/Wal/Forward.antt =====
-- What include/WALManager.hpp and include/MatchingEngine.hpp pass on, and to whom.
use exchange_server.Prelude.{
  ℕ, ◌==◌, ==_iff, if◌then◌else◌, some, List, [], ◌∷◌, ◌++◌, append-nil, append_assoc, ◌≡◌, sym,
  ◌∙◌, ap, arith, Option-cases, inl, inr,
}
use exchange_server.Prelude.Map.{lookup, lookup-insert}
use exchange_server.OrderBook.{Store}
use exchange_server.Engine.{
  EventType, new_order, cancel_order, EngineEvent, Processor, Engine, enqueue, new_event,
  cancel_event, route_order, route_cancel,
}
use exchange_server.Wal.{forward_of, forward, Wal, log_batch}

-- What the processor of a ticker is to receive for an event.
abbrev pub delivery : Store → ℕ → EventType → EngineEvent → List EngineEvent
delivery s t new_order ev = if (s ev.order).ticker_id == t then new_event ev.order ∷ [] else []
delivery s t cancel_order ev =
    if ev.ticker_id == t then cancel_event ev.cancel_order_id ev.cancel_user_id ∷ [] else []

abbrev pub deliveries : Store → ℕ → List EngineEvent → List EngineEvent
deliveries s t [] = []
deliveries s t (ev ∷ evs) = delivery s t ev.type ev ++ deliveries s t evs

-- A processor with events added to the end of its queue.
abbrev pub received : Processor → List EngineEvent → Processor
received p evs = record p { queue = p.queue ++ evs }

module _ (now : ℕ → ℕ) (s : Store) (t : ℕ) where
  forward_of_lem :
      (type : EventType) (ev : EngineEvent) (e : Engine) (p : Processor)
      → lookup t e ≡ some p
      → lookup t (forward_of now s type ev e) ≡ some (received p (delivery s t type ev))
  unfolding route_order route_cancel
  forward_of_lem new_order ev e p h = elim (Option-cases (lookup (s ev.order).ticker_id e)) [
    | inl m ↦ ground (arith, h, m, append-nil p.queue)
    | inr (q, m) ↦ ground (
      arith,
      h,
      m,
      append-nil p.queue,
      lookup-insert (s ev.order).ticker_id t (enqueue (new_event ev.order) q) e,
      ==_iff (s ev.order).ticker_id t,
    )
  ]
  forward_of_lem cancel_order ev e p h = elim (Option-cases (lookup ev.ticker_id e)) [
    | inl m ↦ ground (arith, h, m, append-nil p.queue)
    | inr (q, m) ↦ ground (
      arith,
      h,
      m,
      append-nil p.queue,
      lookup-insert ev.ticker_id t (enqueue (cancel_event ev.cancel_order_id ev.cancel_user_id) q)
          e,
      ==_iff ev.ticker_id t,
    )
  ]

  forward_lem :
      (evs : List EngineEvent) (e : Engine) (p : Processor)
      → lookup t e ≡ some p
      → lookup t (forward now s evs e) ≡ some (received p (deliveries s t evs))
  unfolding forward
  forward_lem [] e p h = h ∙ ap (λ q. some (record p { queue = q })) (sym (append-nil p.queue))
  forward_lem (ev ∷ evs) e p h =
      forward_lem evs (forward_of now s ev.type ev e) (received p (delivery s t ev.type ev))
        (forward_of_lem ev.type ev e p h)
      ∙ ap (λ q. some (record p { queue = q }))
          (append_assoc p.queue (delivery s t ev.type ev) (deliveries s t evs))

  -- After a batch the processor of a ticker has received exactly the batch's events for its ticker,
  -- in the order in which they were logged, behind what waited in its queue.
  pub log_batch-deliveries :
      (evs : List EngineEvent) (w : Wal) (p : Processor)
      → lookup t w.engine ≡ some p
      → lookup t (log_batch now s evs w).engine ≡ some (received p (deliveries s t evs))
  unfolding log_batch
  log_batch-deliveries evs w p h = forward_lem evs w.engine p h
