-- ===== src/Client/Choices.antt =====
-- The requests that the rounds of src/client/client.cpp choose, as include/Protocol.hpp reads them.
use exchange_server.Prelude.{
  ℕ, zero, suc, ◌+◌, ◌*◌, ◌%◌, ◌^◌, ◌<◌, List, [], ◌∷◌, length, ◌==◌, ◌≡◌, refl, arith, All,
  Bool-cases, inl, inr,
}
use exchange_server.Framing.Serve.{Sendable}
use exchange_server.Protocol.{field, trade_request, cancel_request}
use exchange_server.Client.Requests.{
  Request, register, login, deposit, trade_order, cancel, market, trend, balance, holdings, orders,
  news, all_stocks, payload_of, packet_of, trade_request-trade_bytes, cancel_request-cancel_bytes,
}
use exchange_server.Client.Socket.{at}
use exchange_server.Client.Worker.{Benchmark, cancel_last, choose_trading, choose_mixed, choose}

-- What a round's request holds: a trade has one of two sides, shares and a price, and its cost fits an
-- `int64_t`.
abbrev pub Ranged : Request → Type 0
Ranged (trade_order r) =
    (r.ticker_id < 2 ^ 32)
    × (r.side < 2)
    × (0 < r.amount)
    × (r.amount < 2 ^ 32)
    × (0 < r.price)
    × (r.price < 2 ^ 64)
    × (r.price * r.amount < 2 ^ 63)
Ranged (cancel r) = (r.ticker_id < 2 ^ 32) × (r.order_id < 2 ^ 64)
Ranged (market t) = t < 2 ^ 32
Ranged (trend t) = t < 2 ^ 32
Ranged balance = Unit
Ranged holdings = Unit
Ranged orders = Unit
Ranged news = Unit
Ranged q = ⊥

-- What the server's layouts make of the payload.
abbrev pub ReadAs : Request → List ℕ → Type 0
ReadAs (trade_order r) bs = trade_request bs ≡ r
ReadAs (cancel r) bs = cancel_request bs ≡ r
ReadAs (market t) bs = field 0 4 bs ≡ t
ReadAs (trend t) bs = field 0 4 bs ≡ t
ReadAs q bs = bs ≡ []

product_small : (x y : ℕ) → x < 50 → y < 10 → (100 + x) * 10000 * (1 + y) < 2 ^ 63
product_small x y h k = grind arith

module _ (rng : ℕ → ℕ) (tid : ℕ) (small : tid < 2 ^ 32) where
  cancel_last-Ranged :
      (os : List ℕ) (d : ℕ) → All (λ o. o < 2 ^ 64) os → Ranged (cancel_last rng tid os d).request
  cancel_last-Ranged [] d h = tt
  cancel_last-Ranged (o ∷ os) d h = (small, h.0)

  choose_trading-Ranged :
      (weight : ℕ) (os : List ℕ) (d : ℕ)
      → All (λ o. o < 2 ^ 64) os
      → Ranged (choose_trading rng tid weight os d).request
  choose_trading-Ranged weight os d h = ground (
    arith,
    h,
    small,
    cancel_last-Ranged os d h,
    product_small (rng (d + 1) % 50) (rng (d + 2) % 10) (omega arith) (omega arith),
  )

  choose_mixed-Ranged :
      (weight : ℕ) (os : List ℕ) (d : ℕ) → Ranged (choose_mixed rng tid weight os d).request
  choose_mixed-Ranged weight os d = ground (arith, small)

at-All : (P : ℕ → Type 0) (i : ℕ) (xs : List ℕ) → P 0 → All P xs → P (at i xs)
at-All P i [] z h = z
at-All P zero (x ∷ xs) z h = h.0
at-All P (suc i) (x ∷ xs) z h = at-All P i xs z h.1

-- The request fits a packet, and the server's layouts read its payload as it was made.
abbrev pub Readable : Request → Type 0
Readable q = Sendable (packet_of q) × ReadAs q (payload_of q)

pub Ranged-Readable : (q : Request) → Ranged q → Readable q
Ranged-Readable (trade_order r) h = (omega arith, trade_request-trade_bytes r (ground (arith, h)))
Ranged-Readable (cancel r) h = (omega arith, cancel_request-cancel_bytes r h)
Ranged-Readable (market t) h = (omega arith, omega (arith, h))
Ranged-Readable (trend t) h = (omega arith, omega (arith, h))
Ranged-Readable balance h = (omega arith, refl)
Ranged-Readable holdings h = (omega arith, refl)
Ranged-Readable orders h = (omega arith, refl)
Ranged-Readable news h = (omega arith, refl)
Ranged-Readable (register u p) h = absurd h
Ranged-Readable (login u p) h = absurd h
Ranged-Readable (deposit a) h = absurd h
Ranged-Readable all_stocks h = absurd h

pub choose-Ranged :
    (rng : ℕ → ℕ) (mode : ℕ) (tickers : List ℕ) (w : Benchmark)
    → All (λ t. t < 2 ^ 32) tickers
    → All (λ o. o < 2 ^ 64) w.active_orders
    → Ranged (choose rng mode tickers w).request
choose-Ranged rng mode tickers w ts os =
    let tid = at (rng (w.draws + 1) % length tickers) tickers in
    let small =
      at-All (λ t. t < 2 ^ 32) (rng (w.draws + 1) % length tickers) tickers (omega arith) ts in
    elim (Bool-cases (mode == 1)) [
      | inl e ↦
          rw e (
            choose_trading-Ranged rng tid small (rng w.draws % 100) w.active_orders (w.draws + 2)
              os)
      | inr e ↦
          rw e (choose_mixed-Ranged rng tid small (rng w.draws % 100) w.active_orders (w.draws + 2))
    ]

cancel_last-All :
    (P : ℕ → Type 0) (rng : ℕ → ℕ) (tid : ℕ) (os : List ℕ) (d : ℕ)
    → All P os
    → All P (cancel_last rng tid os d).left_orders
cancel_last-All P rng tid [] d h = tt
cancel_last-All P rng tid (o ∷ os) d h = h.1

-- The orders that are left are among those there were.
pub choose-All :
    (P : ℕ → Type 0) (rng : ℕ → ℕ) (mode : ℕ) (tickers : List ℕ) (w : Benchmark)
    → All P w.active_orders
    → All P (choose rng mode tickers w).left_orders
choose-All P rng mode tickers w h =
    let tid = at (rng (w.draws + 1) % length tickers) tickers in
    ground (arith, h, cancel_last-All P rng tid w.active_orders (w.draws + 2) h)
