-- ===== src/Client/Worker.antt =====
-- `benchmark_worker` and `main` of src/client/client.cpp. The outputs of the random generator and the
-- microseconds that the requests take are given. The counters of `main` stay below 2^62, since both
-- numbers on its command line are `int`s, and so do not wrap.
use exchange_server.Prelude.{
  ℕ, zero, suc, ◌+◌, ◌*◌, ◌%◌, ◌^◌, ◌==◌, Bool, true, false, Option, none, some, List, [], ◌∷◌,
  ◌++◌, length, ltb, leb, if◌then◌else◌,
}
use exchange_server.Prelude.Texts.{codes}
use exchange_server.Prelude.Names.{Name}
use exchange_server.MarketData.{to_string}
use exchange_server.Protocol.{TradeRequest}
use exchange_server.Client.Requests.{
  Request, register, deposit, trade_order, cancel, market, trend, balance, holdings, orders, news,
  all_stocks,
}
use exchange_server.Client.Socket.{Socket, ask, header_size, tickers_in, orders_in, or_one, at}

-- A worker: its connection, `active_orders` with its back in front, how many outputs of the generator
-- it has taken, and what it adds to the counters.
pub record Benchmark : Type 0 where
  pub socket : Socket
  pub active_orders : List ℕ
  pub draws : ℕ
  pub success : ℕ
  pub fail : ℕ
  pub latency : ℕ

abbrev pub succeed : ℕ → Benchmark → Benchmark
succeed micros w = record w { success = w.success + 1; latency = (w.latency + micros) % 2 ^ 64 }

abbrev pub give_up : Benchmark → Benchmark
give_up w = record w { fail = w.fail + 1 }

-- A round's request, and what its choice leaves.
pub record Choice : Type 0 where
  pub request : Request
  pub left_orders : List ℕ
  pub taken : ℕ

module _ (rng : ℕ → ℕ) (tid : ℕ) where
  -- The last branch of mode 1: cancel the last order, or ask for orders.
  abbrev pub cancel_last : List ℕ → ℕ → Choice
  cancel_last [] d = record { request = orders; left_orders = []; taken = d }
  cancel_last (o ∷ os) d = record {
    request = cancel (record { ticker_id = tid; order_id = o });
    left_orders = os;
    taken = d;
  }

  abbrev pub random_trade : ℕ → TradeRequest
  random_trade d = record {
    ticker_id = tid;
    side = rng d % 2;
    price = (100 + rng (d + 1) % 50) * 10000;
    amount = 1 + rng (d + 2) % 10;
  }

  abbrev pub fixed_trade : ℕ → TradeRequest
  fixed_trade d = record { ticker_id = tid; side = rng d % 2; price = 120 * 10000; amount = 5 }

  abbrev pub choose_trading : ℕ → List ℕ → ℕ → Choice
  choose_trading weight os d =
      if ltb weight 40
      then record { request = market tid; left_orders = os; taken = d }
      else if ltb weight 80
      then record { request = trade_order (random_trade d); left_orders = os; taken = d + 3 }
      else if ltb weight 90
      then record {
        request = if rng d % 2 == 0 then holdings else balance;
        left_orders = os;
        taken = d + 1;
      }
      else cancel_last os d

  abbrev pub choose_mixed : ℕ → List ℕ → ℕ → Choice
  choose_mixed weight os d =
      if ltb weight 30
      then record { request = market tid; left_orders = os; taken = d }
      else if ltb weight 60
      then record { request = trend tid; left_orders = os; taken = d }
      else if ltb weight 90
      then record { request = trade_order (fixed_trade d); left_orders = os; taken = d + 1 }
      else record { request = news; left_orders = os; taken = d }

module _ (rng : ℕ → ℕ) (mode : ℕ) (tickers : List ℕ) where
  -- `ticker_ids[rng() % ticker_ids.size()]`, and the request.
  abbrev pub choose : Benchmark → Choice
  choose w =
      let weight = rng w.draws % 100 in
      let tid = at (rng (w.draws + 1) % length tickers) tickers in
      if mode == 1
      then choose_trading rng tid weight w.active_orders (w.draws + 2)
      else choose_mixed rng tid weight w.active_orders (w.draws + 2)

  abbrev pub asked : Benchmark → Option (List ℕ) × Socket
  asked w = ask (choose w).request w.socket

  -- The worker after the request, whatever became of it.
  abbrev pub after_request : Benchmark → Benchmark
  after_request w = record w {
    socket = (asked w).1;
    active_orders = (choose w).left_orders;
    draws = (choose w).taken;
  }

-- What a round does with the reply: whether there is one, and whether the loop goes on.
abbrev pub settle : ℕ → Option (List ℕ) → Benchmark → Bool × Benchmark
settle micros none w = (false, give_up w)
settle micros (some body) w = (true, succeed micros w)

-- `active_orders.push_back(…)` for one id after the other.
abbrev pub push_all : List ℕ → List ℕ → List ℕ
push_all [] os = os
push_all (n ∷ ns) os = push_all ns (n ∷ os)

module _ (junk : List ℕ) where
  -- The round that asks for orders: a reply without a whole header is a failure.
  abbrev pub settle_orders : ℕ → Option (List ℕ) → Benchmark → Bool × Benchmark
  settle_orders micros none w = (false, give_up w)
  settle_orders micros (some body) w =
      if leb header_size (length body)
      then (
        true,
        succeed micros
            (record w { active_orders = push_all (orders_in junk body) w.active_orders }),
      )
      else (false, give_up w)

  abbrev pub settle_of : Request → ℕ → Option (List ℕ) → Benchmark → Bool × Benchmark
  settle_of orders = settle_orders
  settle_of r = settle

  module _ (rng : ℕ → ℕ) (micros : ℕ → ℕ) (mode : ℕ) (tickers : List ℕ) where
    -- One round of the loop, the `i`-th.
    unfoldable pub attempt : ℕ → Benchmark → Bool × Benchmark
    attempt i w =
        settle_of (choose rng mode tickers w).request (micros i) (asked rng mode tickers w).0
          (after_request rng mode tickers w)

    -- The loop; a round that fails ends it.
    unfoldable pub rounds : ℕ → ℕ → Benchmark → Benchmark
    rounds zero i w = w
    rounds (suc n) i w =
        let r = attempt i w in elim r.0 [ false ↦ r.1 | true ↦ rounds n (i + 1) r.1 ]

abbrev pub fresh : Socket → Benchmark
fresh s = record { socket = s; active_orders = []; draws = 0; success = 0; fail = 0; latency = 0 }

-- `g_fail += requests; return;`
abbrev pub lost : ℕ → Socket → Benchmark
lost requests s = record (fresh s) { fail = requests }

-- `"testuser_" + std::to_string(id)`
abbrev pub username : ℕ → Name
username id = codes "testuser_" ++ to_string id

abbrev pub unconnected : Socket
unconnected = record { sends = []; arrived = []; sent = [] }

abbrev pub tickers_of : List ℕ → Option (List ℕ) → List ℕ
tickers_of junk none = or_one []
tickers_of junk (some body) = or_one (tickers_in junk body)

module _ (junk : List ℕ) (rng micros : ℕ → ℕ) (mode : ℕ) where
  abbrev pub after_deposit : List ℕ → ℕ → Option (List ℕ) → Socket → Benchmark
  after_deposit tickers requests none s = lost requests s
  after_deposit tickers requests (some body) s =
      rounds junk rng micros mode tickers requests 0 (fresh s)

  abbrev pub after_register : ℕ → Option (List ℕ) → Socket → Benchmark
  after_register requests none s = lost requests s
  after_register requests (some body) s =
      let l = ask all_stocks s in
      let d = ask (deposit 100000000) l.1 in after_deposit (tickers_of junk l.0) requests d.0 d.1

  -- Where there is no connection, `socket` or `connect` has failed.
  unfoldable pub benchmark_worker : ℕ → ℕ → Option Socket → Benchmark
  benchmark_worker id requests none = lost requests unconnected
  benchmark_worker id requests (some s) =
      let r = ask (register (username id) (codes "123")) s in after_register requests r.0 r.1

-- `g_success`, `g_fail` and `g_latency`
pub record Report : Type 0 where
  pub succ : ℕ
  pub failed : ℕ
  pub total_latency : ℕ

-- What the threads have added when they are joined, in whatever order they did.
unfoldable pub run_threads :
    List ℕ → (ℕ → ℕ → ℕ) → (ℕ → ℕ → ℕ) → ℕ → ℕ → (ℕ → Option Socket) → ℕ → Report
run_threads junk rng micros mode reqs sockets zero = record {
  succ = 0;
  failed = 0;
  total_latency = 0;
}
run_threads junk rng micros mode reqs sockets (suc id) =
    let w = benchmark_worker junk (rng id) (micros id) mode id reqs (sockets id) in
    let r = run_threads junk rng micros mode reqs sockets id in
    record {
      succ = r.succ + w.success;
      failed = r.failed + w.fail;
      total_latency = (r.total_latency + w.latency) % 2 ^ 64;
    }
