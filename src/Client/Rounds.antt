-- ===== src/Client/Rounds.antt =====
-- The rounds of src/client/client.cpp as the server sees them.
use exchange_server.Prelude.{
  ℕ, zero, suc, ◌+◌, ◌^◌, ◌<◌, Bool, true, false, Option, none, some, List, [], ◌∷◌, ◌++◌, map,
  length, leb, append-nil, append_assoc, ◌≡◌, refl, sym, ap, ◌∙◌, subst, arith, All, Bool-cases,
  inl, inr,
}
use exchange_server.Framing.Cut.{send_pkt}
use exchange_server.Framing.Serve.{stream}
use exchange_server.Client.{send_all}
use exchange_server.Client.Receive.{send_all-Sent}
use exchange_server.Client.Requests.{
  Request, register, login, deposit, trade_order, cancel, market, trend, balance, holdings, orders,
  news, all_stocks, type_of, payload_of, packet_of,
}
use exchange_server.Client.Socket.{Socket, first, send_on, recv_on, ask, orders_in, header_size}
use exchange_server.Client.Worker.{
  Benchmark, push_all, settle, settle_orders, settle_of, choose, asked, after_request, attempt,
  rounds,
}
use exchange_server.Client.Choices.{Ranged, choose-Ranged, choose-All}
use exchange_server.Client.Counts.{attempt-RoundOutcome}
use exchange_server.Client.Bytes.{
  AreBytes, AllBytes, HasReceived, recv_on-HasReceived, orders_in-All,
}

-- A request that is sent whole.
send_on_complete :
    (q : Request) (s : Socket)
    → (send_on q s).0 ≡ true
    → (send_on q s).1.sent ≡ s.sent ++ send_pkt (type_of q) (payload_of q)
unfolding send_on
send_on_complete q s h =
    let out = send_all-Sent (first s.sends) (send_pkt (type_of q) (payload_of q)) in
    ap (λ bs. s.sent ++ bs)
      (sym (append-nil (send_all (first s.sends) (send_pkt (type_of q) (payload_of q))).1)
        ∙ ap (λ bs. (send_all (first s.sends) (send_pkt (type_of q) (payload_of q))).1 ++ bs)
            (sym (out.complete h))
        ∙ out.prefix_eq)

pub send_on-arrived : (q : Request) (s : Socket) → (send_on q s).1.arrived ≡ s.arrived
unfolding send_on
send_on-arrived q s = refl

-- A request that got its reply: sent whole, and the reply made of bytes.
abbrev Asked : Request → Socket → Option (List ℕ) × Socket → Type 0
Asked q s (none, t) = Unit
Asked q s (some body, t) =
    AreBytes body × AllBytes t.arrived × (t.sent ≡ s.sent ++ send_pkt (type_of q) (payload_of q))

ask-Asked : (q : Request) (s : Socket) → AllBytes s.arrived → Asked q s (ask q s)
ask-Asked q s h = elim (Bool-cases (send_on q s).0) [
  | inl e ↦
      let r = recv_on-HasReceived (send_on q s).1 (subst AllBytes (sym (send_on-arrived q s)) h) in
      rw e (HasReceived-Asked (recv_on (send_on q s).1) (send_on_complete q s e) r)
  | inr e ↦ rw e tt
]
  where
    HasReceived-Asked :
        (r : Option (List ℕ) × Socket)
        → (send_on q s).1.sent ≡ s.sent ++ send_pkt (type_of q) (payload_of q)
        → HasReceived (send_on q s).1 r
        → Asked q s r
    HasReceived-Asked (none, t) e g = tt
    HasReceived-Asked (some body, t) e g = (g.0, g.1, g.2 ∙ e)

-- The connection holds bytes, and the ids of the known orders fit 64 bits.
pub record Good (w : Benchmark) : Type 0 where
  pub bytes : AllBytes w.socket.arrived
  pub ids : All (λ o. o < 2 ^ 64) w.active_orders

push_all-All : (P : ℕ → Type 0) (ns os : List ℕ) → All P ns → All P os → All P (push_all ns os)
push_all-All P [] os h k = k
push_all-All P (n ∷ ns) os h k = push_all-All P ns (n ∷ os) h.1 (h.0, k)

abbrev IsSome : Option (List ℕ) → Type 0
IsSome none = ⊥
IsSome (some body) = AreBytes body

Asked-body :
    (q : Request) (s : Socket) (r : Option (List ℕ) × Socket)
    → Asked q s r
    → (body : List ℕ) → r.0 ≡ some body
    → AreBytes body
Asked-body q s (none, t) a body e = ground (arith, e)
Asked-body q s (some c, t) a body e = subst IsSome e a.0

Asked-sent :
    (q : Request) (s : Socket) (r : Option (List ℕ) × Socket)
    → IsSome r.0
    → Asked q s r
    → AllBytes r.1.arrived × (r.1.sent ≡ s.sent ++ send_pkt (type_of q) (payload_of q))
Asked-sent q s (none, t) i a = absurd i
Asked-sent q s (some c, t) i a = (a.1, a.2)

-- Where the loop goes on, there was a reply, and the connection is as it was after it.
abbrev Settled : Option (List ℕ) → Benchmark → Bool × Benchmark → Type 0
Settled o v r =
    r.0 ≡ true → IsSome o × (r.1.socket ≡ v.socket) × All (λ o. o < 2 ^ 64) r.1.active_orders

module _ (junk : List ℕ) (clean : AreBytes junk) where
  settle-Settled :
      (micros : ℕ) (o : Option (List ℕ)) (v : Benchmark)
      → ((body : List ℕ) → o ≡ some body → AreBytes body)
      → All (λ o. o < 2 ^ 64) v.active_orders
      → Settled o v (settle micros o v)
  settle-Settled micros none v b h e = ground (arith, e)
  settle-Settled micros (some body) v b h e = (b body refl, refl, h)

  settle_orders-Settled :
      (micros : ℕ) (o : Option (List ℕ)) (v : Benchmark)
      → ((body : List ℕ) → o ≡ some body → AreBytes body)
      → All (λ o. o < 2 ^ 64) v.active_orders
      → Settled o v (settle_orders junk micros o v)
  settle_orders-Settled micros none v b h = λ e. ground (arith, e)
  settle_orders-Settled micros (some body) v b h =
      elim (Bool-cases (leb header_size (length body))) [
        | inl k ↦ rw k (λ e. (
          b body refl,
          refl,
          push_all-All (λ o. o < 2 ^ 64) (orders_in junk body) v.active_orders
              (orders_in-All junk body clean (b body refl)) h,
        ))
        | inr k ↦ rw k (λ e. ground (arith, e))
      ]

  settle_of-Settled :
      (q : Request) (micros : ℕ) (o : Option (List ℕ)) (v : Benchmark)
      → ((body : List ℕ) → o ≡ some body → AreBytes body)
      → All (λ o. o < 2 ^ 64) v.active_orders
      → Settled o v (settle_of junk q micros o v)
  settle_of-Settled orders = settle_orders-Settled
  settle_of-Settled (register u p) = settle-Settled
  settle_of-Settled (login u p) = settle-Settled
  settle_of-Settled (deposit a) = settle-Settled
  settle_of-Settled (trade_order r) = settle-Settled
  settle_of-Settled (cancel r) = settle-Settled
  settle_of-Settled (market t) = settle-Settled
  settle_of-Settled (trend t) = settle-Settled
  settle_of-Settled balance = settle-Settled
  settle_of-Settled holdings = settle-Settled
  settle_of-Settled news = settle-Settled
  settle_of-Settled all_stocks = settle-Settled

  module _ (rng micros : ℕ → ℕ) (mode : ℕ) (tickers : List ℕ)
      (small : All (λ t. t < 2 ^ 32) tickers) where
    -- A round sends one request.
    abbrev Sends : Benchmark → Benchmark → Type 0
    Sends w w' =
        (q : Request) × Ranged q
        × (w'.socket.sent ≡ w.socket.sent ++ send_pkt (type_of q) (payload_of q))
        × Good w'

    attempt-Sends :
        (i : ℕ) (w : Benchmark)
        → Good w
        → (attempt junk rng micros mode tickers i w).0 ≡ true
        → Sends w (attempt junk rng micros mode tickers i w).1
    unfolding attempt
    attempt-Sends i w g e =
        let q = (choose rng mode tickers w).request in
        let v = after_request rng mode tickers w in
        let a = asked rng mode tickers w in
        let got = ask-Asked q w.socket g.bytes in
        let (some_body, same, ids) =
          settle_of-Settled q (micros i) a.0 v (Asked-body q w.socket a got)
            (choose-All (λ o. o < 2 ^ 64) rng mode tickers w g.ids) e in
        let (bytes, sent) = Asked-sent q w.socket a some_body got in
        (
          q,
          choose-Ranged rng mode tickers w small g.ids,
          ap (λ (s : Socket). s.sent) same ∙ sent,
          record { bytes = subst (λ (s : Socket). AllBytes s.arrived) (sym same) bytes; ids = ids },
        )

    abbrev step : ℕ → Benchmark → Bool × Benchmark
    step = attempt junk rng micros mode tickers

    abbrev run : ℕ → ℕ → Benchmark → Benchmark
    run = rounds junk rng micros mode tickers

    rounds_next :
        (n i : ℕ) (w : Benchmark)
        → (step i w).0 ≡ true
        → run (suc n) i w ≡ run n (i + 1) (step i w).1
    unfolding rounds
    rounds_next n i w e = rw (rounds, e) refl

    rounds_stop : (n i : ℕ) (w : Benchmark) → (step i w).0 ≡ false → run (suc n) i w ≡ (step i w).1
    unfolding rounds
    rounds_stop n i w e = rw (rounds, e) refl

    -- What the rounds sent: as many requests as there were rounds.
    abbrev pub Requests : ℕ → Benchmark → Benchmark → Type 0
    Requests n w r =
        (qs : List Request) × (length qs ≡ n)
        × All Ranged qs
        × (r.socket.sent ≡ w.socket.sent ++ stream (map packet_of qs))

    pub rounds-Requests :
        (n i : ℕ) (w : Benchmark)
        → Good w
        → (rounds junk rng micros mode tickers n i w).fail ≡ w.fail
        → Requests n w (rounds junk rng micros mode tickers n i w)
    unfolding rounds
    rounds-Requests zero i w g e = ([], refl, tt, sym (append-nil w.socket.sent))
    rounds-Requests (suc n) i w g e = elim (Bool-cases (step i w).0) [
      | inl k ↦
          let w' = (step i w).1 in
          let next = rounds_next n i w k in
          let (q, fits, sent, good) = attempt-Sends i w g k in
          let steady : w'.fail ≡ w.fail =
            ground (arith, attempt-RoundOutcome junk rng micros mode tickers i w, k) in
          let (qs, size, all, more) =
            rounds-Requests n (i + 1) w' good (ap (λ r. r.fail) (sym next) ∙ e ∙ sym steady) in
          (
            q ∷ qs,
            ap suc size,
            (fits, all),
            ap (λ (r : Benchmark). r.socket.sent) next
                ∙ more
                ∙ ap (λ bs. bs ++ stream (map packet_of qs)) sent
                ∙ append_assoc w.socket.sent (send_pkt (type_of q) (payload_of q))
                    (stream (map packet_of qs)),
          )
      | inr k ↦ absurd (
          ground (
            arith,
            attempt-RoundOutcome junk rng micros mode tickers i w,
            k,
            ap (λ (r : Benchmark). r.fail) (rounds_stop n i w k),
            e,
          ))
    ]
