-- ===== src/Pools/Leases.antt =====
-- No connection of src/server/DBPool.cpp or src/server/RedisPool.cpp is lost or lent twice.
use exchange_server.Prelude.{
  count, count-append, ℕ, ◌+◌, some, List, [], ◌∷◌, ◌≡◌, sym, ap, subst, arith,
}
use exchange_server.Prelude.Names.{Name}
use exchange_server.Pools.{
  Queue, no_reply, error_reply, accepted, RedisResult, no_context, with_error, made, redis_attempt,
  redis_init, get_connection, Pool, Step, take_one, give_one, Reach, fresh, next,
}

-- Of each connection there are as many in the queue and with callers as there were in the beginning.
abbrev pub Conserves : Queue → Pool → Type 0
Conserves q p = (c : ℕ) → count c p.queue + count c p.held ≡ count c q

get_connection-front :
    (q : Queue) (c : ℕ) (ds : Queue) → get_connection q ≡ some (c, ds) → q ≡ c ∷ ds
unfolding get_connection
get_connection-front [] c ds e = cc
get_connection-front (x ∷ q) c ds e = cc

Step-Conserves : (q : Queue) {p r : Pool} → Step p r → Conserves q p → Conserves q r
Step-Conserves q {p} {r} (take_one c ds e f) h d =
    let front = ap (count d) (get_connection-front p.queue c ds e) in
    subst (λ (r : Pool). count d r.queue + count d r.held ≡ count d q) (sym f)
      (omega (arith, front, h d))
Step-Conserves q {p} {r} (give_one c xs ys e f) h d =
    let held = ap (count d) e in
    subst (λ (r : Pool). count d r.queue + count d r.held ≡ count d q) (sym f)
      (omega (
        arith,
        held,
        h d,
        count-append d xs (c ∷ ys),
        count-append d xs ys,
        count-append d p.queue (c ∷ []),
      ))

-- However callers take and give back connections, each connection of the pool is at every moment
-- either in the queue or with a caller, as often as it was put there at the start.
pub Reach-Conserves : {q : Queue} {p : Pool} → Reach q p → Conserves q p
Reach-Conserves {q} fresh c = omega arith
Reach-Conserves {q} (next r s) c = Step-Conserves q s (Reach-Conserves r) c

-- The connections and contexts that `redisConnect` returned.
abbrev pub made_of : List RedisResult → List ℕ
made_of [] = []
made_of (no_context ∷ rs) = made_of rs
made_of (with_error c ∷ rs) = c ∷ made_of rs
made_of (made c auth ∷ rs) = c ∷ made_of rs

attempt-count :
    (password : Name) (r : RedisResult) (s : Queue × List ℕ) (c : ℕ)
    → (let s' = redis_attempt password r s in
        count c s'.0 + count c s'.1 ≡ count c s.0 + count c s.1 + count c (made_of (r ∷ [])))
attempt-count password no_context s c = omega arith
attempt-count password (with_error d) s c = omega (arith, count-append c s.1 (d ∷ []))
attempt-count [] (made d auth) s c = omega (arith, count-append c s.0 (d ∷ []))
attempt-count (x ∷ xs) (made d no_reply) s c = omega (arith, count-append c s.1 (d ∷ []))
attempt-count (x ∷ xs) (made d error_reply) s c = omega (arith, count-append c s.1 (d ∷ []))
attempt-count (x ∷ xs) (made d accepted) s c = omega (arith, count-append c s.0 (d ∷ []))

made-cons :
    (r : RedisResult) (rs : List RedisResult) (c : ℕ)
    → count c (made_of (r ∷ rs)) ≡ count c (made_of (r ∷ [])) + count c (made_of rs)
made-cons no_context rs c = omega arith
made-cons (with_error d) rs c = omega arith
made-cons (made d auth) rs c = omega arith

-- Each connection that `redisConnect` makes ends in the queue or is freed, exactly once.
redis_init-count :
    (password : Name) (rs : List RedisResult) (s : Queue × List ℕ) (c : ℕ)
    → (let s' = redis_init password rs s in
        count c s'.0 + count c s'.1 ≡ count c s.0 + count c s.1 + count c (made_of rs))
unfolding redis_init
redis_init-count password [] s c = omega arith
redis_init-count password (r ∷ rs) s c = omega (
  arith,
  redis_init-count password rs (redis_attempt password r s) c,
  attempt-count password r s c,
  made-cons r rs c,
)
