-- ===== src/Wal/Tests.antt =====
-- A batch of include/WALManager.hpp.
use exchange_server.Prelude.{ℕ, some, List, [], ◌∷◌, ◌++◌, ◌≡◌, refl, map}
use exchange_server.Prelude.Map.{lookup}
use exchange_server.OrderBook.Example.{store, book, clock}
use exchange_server.Engine.{EngineEvent, new_event, cancel_event, Processor}
use exchange_server.Wal.{WalRecord, Wal, log_batch, records_of, append_order, append_cancel}
use exchange_server.Wal.Replay.{requests, replay, log_batch-replay}
use exchange_server.Wal.Forward.{received, log_batch-deliveries}

abbrev processor : Processor
processor = record { book = book; queue = [] }

abbrev wal : Wal
wal = record { file = []; engine = (1, processor) ∷ []; ticks = 0 }

-- A new order, a cancellation for its ticker, and one for a ticker that does not exist.
abbrev batch : List EngineEvent
batch = append_cancel 2 13 9 (append_cancel 1 13 9 (append_order 4 []))

abbrev ids : List WalRecord → List ℕ
ids rs = map (λ r. r.order_id) rs

runs_log : ids (log_batch clock store batch wal).file ≡ 14 ∷ 13 ∷ 13 ∷ []
unfolding log_batch records_of
runs_log = refl

log_batch-replay_example :
    (rs : List WalRecord) × ((log_batch clock store batch wal).file ≡ [] ++ rs)
    × (map replay rs ≡ requests store batch)
log_batch-replay_example = log_batch-replay clock store batch wal

log_batch-deliveries_example :
    lookup 1 (log_batch clock store batch wal).engine
    ≡ some (received processor (new_event 4 ∷ cancel_event 13 9 ∷ []))
log_batch-deliveries_example = log_batch-deliveries clock store 1 batch wal processor refl
