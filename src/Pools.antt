-- ===== src/Pools.antt =====
-- The pools of src/server/DBPool.cpp and src/server/RedisPool.cpp. A connection is a number. A call of
-- `getConnection` that finds the queue empty waits, so here it is no step.
pub mod Leases
mod Tests
use exchange_server.Prelude.{
  ℕ, Bool, true, false, Option, none, some, List, [], ◌∷◌, ◌++◌, if◌then◌else◌, ◌==◌, ◌≡◌,
}
use exchange_server.Prelude.Names.{Name}

-- `connQueue_`
abbrev pub Queue : Type 0
Queue = List ℕ

-- `mysql_init` and `mysql_real_connect`: the connection, and whether it was made.
pub data Connected : Type 0 where
  connected refused : ℕ → Connected

-- `DBPool::init`, a round for each attempt.
pub db_init : List Connected → Queue → Queue
db_init [] q = q
db_init (connected c ∷ rs) q = db_init rs (q ++ c ∷ [])
db_init (refused c ∷ rs) q = db_init rs q

-- `redisConnect`: no context, a context with an error, or a connection; and the answer to AUTH, which
-- is asked only with a password: no reply, an error, or another reply.
pub data Auth : Type 0 where
  no_reply error_reply accepted : Auth

pub data RedisResult : Type 0 where
  no_context : RedisResult
  with_error : ℕ → RedisResult
  made : ℕ → Auth → RedisResult

-- One attempt: the queue and the connections that were freed.
abbrev pub authenticate : Auth → ℕ → Queue × List ℕ → Queue × List ℕ
authenticate no_reply c s = (s.0, s.1 ++ c ∷ [])
authenticate error_reply c s = (s.0, s.1 ++ c ∷ [])
authenticate accepted c s = (s.0 ++ c ∷ [], s.1)

abbrev pub has_text : Name → Bool
has_text [] = false
has_text (c ∷ cs) = true

abbrev pub redis_attempt : Name → RedisResult → Queue × List ℕ → Queue × List ℕ
redis_attempt password no_context s = s
redis_attempt password (with_error c) s = (s.0, s.1 ++ c ∷ [])
redis_attempt password (made c auth) s =
    if has_text password then authenticate auth c s else (s.0 ++ c ∷ [], s.1)

-- `RedisPool::init`
pub redis_init : Name → List RedisResult → Queue × List ℕ → Queue × List ℕ
redis_init password [] s = s
redis_init password (r ∷ rs) s = redis_init password rs (redis_attempt password r s)

-- `getConnection`, with nothing where the caller waits.
pub get_connection : Queue → Option (ℕ × Queue)
get_connection [] = none
get_connection (c ∷ q) = some (c, q)

-- The deleter: back to the end of the queue.
abbrev pub give_back : ℕ → Queue → Queue
give_back c q = q ++ c ∷ []

-- The destructor: what it closes, and the empty queue.
pub close_all : Queue → List ℕ × Queue
close_all [] = ([], [])
close_all (c ∷ q) = let r = close_all q in (c ∷ r.0, r.1)

-- A pool with the connections that callers hold.
pub record Pool : Type 0 where
  pub queue : Queue
  pub held : List ℕ

-- Callers take and give back in any order; `give_back` is what the deleter runs, under the mutex.
pub data Step (p : Pool) (r : Pool) : Type 0 where
  take_one :
      (c : ℕ) (q : Queue)
      → get_connection p.queue ≡ some (c, q)
      → r ≡ record { queue = q; held = c ∷ p.held }
      → Step p r
  give_one :
      (c : ℕ) (xs ys : List ℕ)
      → p.held ≡ xs ++ c ∷ ys
      → r ≡ record { queue = give_back c p.queue; held = xs ++ ys }
      → Step p r

pub data Reach (q : Queue) : Pool → Type 0 where
  fresh : Reach q (record { queue = q; held = [] })
  next : {p r : Pool} → Reach q p → Step p r → Reach q r
