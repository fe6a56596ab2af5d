-- ===== src/Client/Socket.antt =====
-- Requests and replies of src/client/client.cpp on one connection. The results of `send` and of `recv`
-- are given; `junk` is what lies in memory behind a received body.
use exchange_server.Prelude.{
  ℕ, zero, suc, ◌-◌, Bool, Option, none, some, List, [], ◌∷◌, ◌++◌, length, ltb, leb, if◌then◌else◌,
}
use exchange_server.Prelude.Bytes.{drop, be32}
use exchange_server.Framing.Cut.{send_pkt}
use exchange_server.Protocol.{field}
use exchange_server.Client.{Arrived, send_all, recv_all, recv_pkt, max_body}
use exchange_server.Client.Requests.{Request, type_of, payload_of}

-- A connection: for each call of `send_pkt` what its calls of `send` return, the bytes that arrive,
-- and the bytes sent.
pub record Socket : Type 0 where
  pub sends : List (List ℕ)
  pub arrived : Arrived
  pub sent : List ℕ

abbrev pub first : List (List ℕ) → List ℕ
first [] = []
first (rs ∷ rss) = rs

abbrev pub others : List (List ℕ) → List (List ℕ)
others [] = []
others (rs ∷ rss) = rss

-- `send_pkt(sock, …)`
unfoldable pub send_on : Request → Socket → Bool × Socket
send_on r s =
    let out = send_all (first s.sends) (send_pkt (type_of r) (payload_of r)) in
    (out.0, record s { sends = others s.sends; sent = s.sent ++ out.1 })

-- What a failing `recv_all` leaves.
abbrev pub recv_left : Arrived → ℕ → Arrived
recv_left cs zero = cs
recv_left [] (suc n) = []
recv_left ([] ∷ cs) (suc n) = cs
recv_left ((b ∷ bs) ∷ cs) (suc n) =
    let rest = recv_left cs (suc n - length (b ∷ bs)) in
    if leb (length (b ∷ bs)) (suc n) then rest else drop (suc n) (b ∷ bs) ∷ cs

-- What a failing `recv_pkt` leaves.
abbrev pub body_left : List ℕ → Arrived → Arrived
body_left (a ∷ b ∷ c ∷ d ∷ hdr) cs =
    let len = be32 a b c d in if ltb max_body len then cs else recv_left cs len
body_left hdr cs = cs

abbrev pub pkt_left : Arrived → Arrived
pkt_left cs = elim (recv_all cs 6) [ none ↦ recv_left cs 6 | some r ↦ body_left r.0 r.1 ]

-- `recv_pkt(sock, r_type, r_body)`
unfoldable pub recv_on : Socket → Option (List ℕ) × Socket
recv_on s = elim (recv_pkt s.arrived) [
  | none ↦ (none, record s { arrived = pkt_left s.arrived })
  | some r ↦ (some r.body, record s { arrived = r.rest })
]

-- `send_pkt(…) && recv_pkt(…)`
abbrev pub ask : Request → Socket → Option (List ℕ) × Socket
ask r s = let out = send_on r s in if out.0 then recv_on out.1 else (none, out.1)

-- The header of the two lists: a status and a count; the items follow.
abbrev pub header_size : ℕ
header_size = 5

-- `ticker_ids.push_back(items[i].ticker_id)`
abbrev pub tickers_at : ℕ → List ℕ → List ℕ
tickers_at zero bs = []
tickers_at (suc n) bs = field 0 4 bs ∷ tickers_at n (drop 20 bs)

-- `active_orders.push_back(items[j].order_id)`
abbrev pub orders_at : ℕ → List ℕ → List ℕ
orders_at zero bs = []
orders_at (suc n) bs = field 0 8 bs ∷ orders_at n (drop 29 bs)

module _ (junk : List ℕ) where
  unfoldable pub tickers_in : List ℕ → List ℕ
  tickers_in body =
      if leb header_size (length body)
      then tickers_at (field 1 4 body) (drop header_size body ++ junk)
      else []

  unfoldable pub orders_in : List ℕ → List ℕ
  orders_in body = orders_at (field 1 4 body) (drop header_size body ++ junk)

-- `if (ticker_ids.empty()) ticker_ids.push_back(1);`
abbrev pub or_one : List ℕ → List ℕ
or_one [] = 1 ∷ []
or_one (t ∷ ts) = t ∷ ts

-- `v[i]`, in range.
abbrev pub at : ℕ → List ℕ → ℕ
at i [] = 0
at zero (x ∷ xs) = x
at (suc i) (x ∷ xs) = at i xs
