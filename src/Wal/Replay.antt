-- ===== src/Wal/Replay.antt =====
-- The log of include/WALManager.hpp says all that a request said.
use exchange_server.Prelude.{ℕ, ◌==◌, if◌then◌else◌, List, [], ◌∷◌, ◌++◌, map, ◌≡◌, refl, ap}
use exchange_server.Common.{OrderSide, buy, sell, Order}
use exchange_server.OrderBook.{Store}
use exchange_server.Engine.{EventType, new_order, cancel_order, EngineEvent}
use exchange_server.Wal.{WalRecord, side_code, record_of, ticks_of, records_of, Wal, log_batch}

-- A request as the engine understands it.
pub data Request : Type 0 where
  place : Order → Request
  cancel : ℕ → ℕ → ℕ → Request

abbrev pub request_of : Store → EventType → EngineEvent → Request
request_of s new_order ev = place (s ev.order)
request_of s cancel_order ev = cancel ev.ticker_id ev.cancel_order_id ev.cancel_user_id

abbrev pub requests : Store → List EngineEvent → List Request
requests s [] = []
requests s (ev ∷ evs) = request_of s ev.type ev ∷ requests s evs

-- Reading a record back.
abbrev pub replay : WalRecord → Request
replay r =
    if r.type == 0
    then place (record {
      order_id = r.order_id;
      ticker_id = r.ticker_id;
      user_id = r.user_id;
      side = if r.side == 0 then buy else sell;
      price = r.price;
      quantity = r.quantity;
      timestamp = r.timestamp;
    })
    else cancel r.ticker_id r.order_id r.user_id

module _ (now : ℕ → ℕ) (s : Store) where
  replay_side : (side : OrderSide) → (if side_code side == 0 then buy else sell) ≡ side
  replay_side buy = refl
  replay_side sell = refl

  replay-record_of :
      (type : EventType) (ev : EngineEvent) (k : ℕ)
      → replay (record_of now s type ev k) ≡ request_of s type ev
  replay-record_of new_order ev k =
      ap (λ d. place (record (s ev.order) { side = d })) (replay_side (s ev.order).side)
  replay-record_of cancel_order ev k = refl

  replay-records_of :
      (evs : List EngineEvent) (k : ℕ) → map replay (records_of now s evs k).0 ≡ requests s evs
  unfolding records_of
  replay-records_of [] k = refl
  replay-records_of (ev ∷ evs) k =
      rw (replay-record_of ev.type ev k, replay-records_of evs (ticks_of now s ev.type k)) refl

  -- A batch adds one record for each request to the end of the file, in order, and reading those
  -- records back gives the requests themselves, with the whole order of each new one.
  pub log_batch-replay :
      (evs : List EngineEvent) (w : Wal)
      → (rs : List WalRecord) × ((log_batch now s evs w).file ≡ w.file ++ rs)
        × (map replay rs ≡ requests s evs)
  unfolding log_batch
  log_batch-replay evs w = ((records_of now s evs w.ticks).0, refl, replay-records_of evs w.ticks)
