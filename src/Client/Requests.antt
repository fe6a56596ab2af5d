-- ===== src/Client/Requests.antt =====
-- The requests of src/client/client.cpp as it packs them.
use exchange_server.Prelude.{ℕ, ◌^◌, ◌<◌, List, [], ◌∷◌, ◌++◌, ◌≡◌, arith}
use exchange_server.Prelude.Bytes.{to_le}
use exchange_server.Prelude.Names.{Name}
use exchange_server.Framing.{Packet}
use exchange_server.Protocol.{
  TradeRequest, CancelRequest, text_field, trade_request, cancel_request,
}

-- The requests that the client makes.
pub data Request : Type 0 where
  register : Name → Name → Request
  login : Name → Name → Request
  deposit : ℕ → Request
  trade_order : TradeRequest → Request
  cancel : CancelRequest → Request
  market trend : ℕ → Request
  balance holdings orders news all_stocks : Request

-- `AuthRequest`, zeroed and filled with `strncpy` of 31 bytes.
abbrev pub auth_bytes : Name → Name → List ℕ
auth_bytes username password = text_field 31 username ++ 0 ∷ text_field 31 password ++ 0 ∷ []

abbrev pub trade_bytes : TradeRequest → List ℕ
trade_bytes r = to_le 4 r.ticker_id ++ to_le 1 r.side ++ to_le 8 r.price ++ to_le 4 r.amount

abbrev pub cancel_bytes : CancelRequest → List ℕ
cancel_bytes r = to_le 4 r.ticker_id ++ to_le 8 r.order_id

abbrev pub payload_of : Request → List ℕ
payload_of (register username password) = auth_bytes username password
payload_of (login username password) = auth_bytes username password
payload_of (deposit amount) = to_le 8 amount
payload_of (trade_order r) = trade_bytes r
payload_of (cancel r) = cancel_bytes r
payload_of (market ticker) = to_le 4 ticker
payload_of (trend ticker) = to_le 4 ticker
payload_of balance = []
payload_of holdings = []
payload_of orders = []
payload_of news = []
payload_of all_stocks = []

-- `MsgType` of the client.
abbrev pub type_of : Request → ℕ
type_of (register username password) = 1001
type_of (login username password) = 1003
type_of (deposit amount) = 2001
type_of (trade_order r) = 3001
type_of (cancel r) = 3003
type_of (market ticker) = 4003
type_of (trend ticker) = 4007
type_of balance = 2003
type_of holdings = 4001
type_of orders = 4005
type_of news = 4009
type_of all_stocks = 4011

abbrev pub packet_of : Request → Packet
packet_of r = record { type = type_of r; payload = payload_of r }

pub trade_request-trade_bytes :
    (r : TradeRequest)
    → (r.ticker_id < 2 ^ 32) × (r.side < 2 ^ 8) × (r.price < 2 ^ 64) × (r.amount < 2 ^ 32)
    → trade_request (trade_bytes r) ≡ r
trade_request-trade_bytes r h = ground (arith, h)

pub cancel_request-cancel_bytes :
    (r : CancelRequest)
    → (r.ticker_id < 2 ^ 32) × (r.order_id < 2 ^ 64)
    → cancel_request (cancel_bytes r) ≡ r
cancel_request-cancel_bytes r h = ground (arith, h)
