-- ===== src/ThreadPool/Tests.antt =====
-- Tests of the threads: two workers, one of which ran the only task and ended.
use exchange_server.Prelude.{some, none, [], ◌∷◌, refl, arith}
use exchange_server.ThreadPool.{
  Threads, thread_pool, enqueue, work_on, stop, send_null, fresh, submit, work, halt, send,
}
use exchange_server.ThreadPool.Drained.{Drains, Reach-Drains}

abbrev stopping : Threads
stopping = send_null (stop (enqueue (some 7) (thread_pool 2)))

abbrev one_left : Threads
one_left = work_on (none ∷ []) (work_on (some 7 ∷ none ∷ []) stopping)

Reach-Drains_example : Drains 2 (7 ∷ []) one_left
Reach-Drains_example =
    Reach-Drains
      (work
        (work (send (halt (submit 7 fresh refl) refl) (omega arith)) (omega arith) (omega arith))
        (omega arith) (omega arith))
      refl
