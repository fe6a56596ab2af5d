-- ===== src/Client/Counts.antt =====
-- What the counters of src/client/client.cpp say of the requests.
use exchange_server.Prelude.{
  ℕ, zero, suc, ◌+◌, ◌*◌, ◌≤◌, ◌<◌, Bool, true, false, Option, none, some, List, ◌≡◌, refl, arith,
  inl, inr, ◌⊎◌,
}
use exchange_server.Client.Requests.{
  Request, register, login, deposit, trade_order, cancel, market, trend, balance, holdings, orders,
  news, all_stocks,
}
use exchange_server.Client.Socket.{Socket}
use exchange_server.Client.Worker.{
  Benchmark, settle, settle_orders, settle_of, choose, asked, after_request, attempt, rounds, fresh,
  after_deposit, after_register, benchmark_worker, run_threads,
}

-- A round succeeds and the loop goes on, or it fails and the loop ends.
abbrev pub RoundOutcome : Benchmark → Bool × Benchmark → Type 0
RoundOutcome w r =
    ((r.0 ≡ true) × (r.1.success ≡ w.success + 1) × (r.1.fail ≡ w.fail))
    ⊎ ((r.0 ≡ false) × (r.1.success ≡ w.success) × (r.1.fail ≡ w.fail + 1))

module _ (junk : List ℕ) where
  settle-RoundOutcome :
      (micros : ℕ) (o : Option (List ℕ)) (w : Benchmark) → RoundOutcome w (settle micros o w)
  settle-RoundOutcome micros none w = inr (refl, refl, refl)
  settle-RoundOutcome micros (some body) w = inl (refl, refl, refl)

  settle_orders-RoundOutcome :
      (micros : ℕ) (o : Option (List ℕ)) (w : Benchmark)
      → RoundOutcome w (settle_orders junk micros o w)
  settle_orders-RoundOutcome micros none w = inr (refl, refl, refl)
  settle_orders-RoundOutcome micros (some body) w = ground arith

  settle_of-RoundOutcome :
      (q : Request) (micros : ℕ) (o : Option (List ℕ)) (w : Benchmark)
      → RoundOutcome w (settle_of junk q micros o w)
  settle_of-RoundOutcome orders = settle_orders-RoundOutcome
  settle_of-RoundOutcome (register u p) = settle-RoundOutcome
  settle_of-RoundOutcome (login u p) = settle-RoundOutcome
  settle_of-RoundOutcome (deposit a) = settle-RoundOutcome
  settle_of-RoundOutcome (trade_order r) = settle-RoundOutcome
  settle_of-RoundOutcome (cancel r) = settle-RoundOutcome
  settle_of-RoundOutcome (market t) = settle-RoundOutcome
  settle_of-RoundOutcome (trend t) = settle-RoundOutcome
  settle_of-RoundOutcome balance = settle-RoundOutcome
  settle_of-RoundOutcome holdings = settle-RoundOutcome
  settle_of-RoundOutcome news = settle-RoundOutcome
  settle_of-RoundOutcome all_stocks = settle-RoundOutcome

  module _ (rng micros : ℕ → ℕ) (mode : ℕ) (tickers : List ℕ) where
    pub attempt-RoundOutcome :
        (i : ℕ) (w : Benchmark) → RoundOutcome w (attempt junk rng micros mode tickers i w)
    unfolding attempt
    attempt-RoundOutcome i w =
        settle_of-RoundOutcome (choose rng mode tickers w).request (micros i)
          (asked rng mode tickers w).0 (after_request rng mode tickers w)

    -- The rounds all succeed, or the last of them alone fails.
    abbrev pub Ran : ℕ → Benchmark → Benchmark → Type 0
    Ran n w r =
        ((r.fail ≡ w.fail) × (r.success ≡ w.success + n))
        ⊎ ((r.fail ≡ w.fail + 1) × (w.success ≤ r.success) × (r.success < w.success + n))

    pub rounds-Ran : (n i : ℕ) (w : Benchmark) → Ran n w (rounds junk rng micros mode tickers n i w)
    unfolding rounds
    rounds-Ran zero i w = inl (refl, omega arith)
    rounds-Ran (suc n) i w =
        let r = attempt junk rng micros mode tickers i w in
        ground (arith, attempt-RoundOutcome i w, rounds-Ran n (i + 1) r.1)

-- A worker counts each of its requests as a success; or it counts a failure, and not more than them.
abbrev Counted : ℕ → Benchmark → Type 0
Counted n w = (w.success + w.fail ≤ n) × (w.fail ≡ 0 → w.success ≡ n)

module _ (junk : List ℕ) (rng micros : ℕ → ℕ) (mode : ℕ) where
  after_deposit-Counted :
      (tickers : List ℕ) (n : ℕ) (o : Option (List ℕ)) (s : Socket)
      → Counted n (after_deposit junk rng micros mode tickers n o s)
  after_deposit-Counted tickers n none s = (omega arith, λ e. omega (arith, e))
  after_deposit-Counted tickers n (some body) s =
      let r = rounds-Ran junk rng micros mode tickers n 0 (fresh s) in
      (ground (arith, r), λ e. ground (arith, r, e))

  after_register-Counted :
      (n : ℕ) (o : Option (List ℕ)) (s : Socket)
      → Counted n (after_register junk rng micros mode n o s)
  after_register-Counted n none s = (omega arith, λ e. omega (arith, e))
  after_register-Counted n (some body) s = after_deposit-Counted _ n _ _

  benchmark_worker-Counted :
      (id n : ℕ) (s : Option Socket) → Counted n (benchmark_worker junk rng micros mode id n s)
  unfolding benchmark_worker
  benchmark_worker-Counted id n none = (omega arith, λ e. omega (arith, e))
  benchmark_worker-Counted id n (some s) = after_register-Counted n _ _

-- When the client has ended, the successes and failures that it reports are together at most the
-- threads times the requests of each, and where it reports no failure each request has succeeded.
pub run_threads-counts :
    (junk : List ℕ) (rng micros : ℕ → ℕ → ℕ) (mode reqs : ℕ) (sockets : ℕ → Option Socket)
    (threads : ℕ)
    → let r = run_threads junk rng micros mode reqs sockets threads in
      (r.succ + r.failed ≤ threads * reqs) × (r.failed ≡ 0 → r.succ ≡ threads * reqs)
unfolding run_threads
run_threads-counts junk rng micros mode reqs sockets zero = (omega arith, λ e. omega arith)
run_threads-counts junk rng micros mode reqs sockets (suc id) =
    let (total, all) = run_threads-counts junk rng micros mode reqs sockets id in
    let (part, own) =
      benchmark_worker-Counted junk (rng id) (micros id) mode id reqs (sockets id) in
    (
      omega (arith, total, part),
      λ e. omega (arith, total, part, e, all (omega (arith, e)), own (omega (arith, e))),
    )
