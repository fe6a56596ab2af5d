-- ===== src/ThreadPool.antt =====
-- include/ThreadPool.hpp: the queue of tasks and the workers. A task is a number, and
-- `std::function` is an Option of one. Where the queue is empty a worker waits.
pub mod Drained
mod Tests
use exchange_server.Prelude.{
  ℕ, zero, suc, ◌-◌, ◌<◌, Bool, true, false, not, ◌&&◌, Option, none, some, List, [], ◌∷◌, ◌++◌,
  length, if◌then◌else◌, ◌≡◌,
}

-- `workers` is the size of `workers_`, `alive` how many of them run, `unsent` how many empty tasks
-- the destructor has still to queue, and `ran` the tasks that a worker took to run, in order.
pub record Threads : Type 0 where
  pub tasks : List (Option ℕ)
  pub running : Bool
  pub workers : ℕ
  pub alive : ℕ
  pub unsent : ℕ
  pub ran : List ℕ

-- The constructor.
abbrev pub thread_pool : ℕ → Threads
thread_pool n = record { tasks = []; running = true; workers = n; alive = n; unsent = 0; ran = [] }

abbrev pub enqueue : Option ℕ → Threads → Threads
enqueue task p = record p { tasks = p.tasks ++ task ∷ [] }

abbrev pub is_null : Option ℕ → Bool
is_null none = true
is_null (some t) = false

abbrev pub run_task : Option ℕ → Threads → Threads
run_task none p = p
run_task (some t) p = record p { ran = p.ran ++ t ∷ [] }

-- What a worker does with a task from the queue: it ends, or it runs the task and comes back.
abbrev pub after_dequeue : Option ℕ → Threads → Threads
after_dequeue task p =
    if not p.running && is_null task then record p { alive = p.alive - 1 } else run_task task p

-- One round of a worker.
abbrev pub work_on : List (Option ℕ) → Threads → Threads
work_on [] p = p
work_on (task ∷ q) p = after_dequeue task (record p { tasks = q })

-- The destructor up to the joins: it stops the pool, and then queues one empty task per worker.
abbrev pub stop : Threads → Threads
stop p = record p { running = false; unsent = p.workers }

abbrev pub send_null : Threads → Threads
send_null p = enqueue none (record p { unsent = p.unsent - 1 })

-- A pool of so many workers after any steps of the workers, of the callers and of the destructor, with
-- the tasks that were submitted, in order. Nobody submits to a pool that is being destroyed.
pub data Reach (n : ℕ) : List ℕ → Threads → Type 0 where
  fresh : Reach n [] (thread_pool n)
  submit :
      {ts : List ℕ} {p : Threads} (t : ℕ)
      → Reach n ts p
      → p.running ≡ true
      → Reach n (ts ++ t ∷ []) (enqueue (some t) p)
  work :
      {ts : List ℕ} {p : Threads}
      → Reach n ts p
      → 0 < p.alive
      → 0 < length p.tasks
      → Reach n ts (work_on p.tasks p)
  halt : {ts : List ℕ} {p : Threads} → Reach n ts p → p.running ≡ true → Reach n ts (stop p)
  send : {ts : List ℕ} {p : Threads} → Reach n ts p → 0 < p.unsent → Reach n ts (send_null p)
