-- ===== src/Protocol.antt =====
-- include/Protocol.hpp: the packed layouts of requests and responses, in the byte order of the
-- machine, which is taken to be little-endian.
use exchange_server.Prelude.{ℕ, ◌-◌, ◌==◌, ◌%◌, ◌^◌, zero, suc, List, [], ◌∷◌, ◌++◌, if◌then◌else◌}
use exchange_server.Prelude.Int.{ℤ, pos, negsuc}
use exchange_server.Prelude.Bytes.{drop, to_le, from_le}
use exchange_server.Prelude.Names.{Name}
use exchange_server.Common.{OrderSide, buy, sell, Order}

-- `std::string s = field`: the bytes up to the first NUL.
abbrev pub c_string : List ℕ → Name
c_string [] = []
c_string (b ∷ bs) = let rest = c_string bs in if b == 0 then [] else b ∷ rest

-- A field of `n` bytes at an offset.
abbrev pub field : ℕ → ℕ → List ℕ → ℕ
field offset n bs = from_le n (drop offset bs)

-- An `int64_t` stored in a `uint64_t`.
abbrev pub as_uint64 : ℤ → ℕ
as_uint64 (pos n) = n % 2 ^ 64
as_uint64 (negsuc n) = 2 ^ 64 - 1 - n % 2 ^ 64

-- An `int` stored in a `uint32_t`.
abbrev pub quantity_code : ℤ → ℕ
quantity_code (pos n) = n % 2 ^ 32
quantity_code (negsuc n) = 2 ^ 32 - 1 - n % 2 ^ 32

abbrev pub auth_request_size : ℕ
auth_request_size = 64

pub record AuthRequest : Type 0 where
  pub username : Name
  pub password : Name

-- A name that fills its field runs on into the next one, here up to the end of the payload.
abbrev pub auth_request : List ℕ → AuthRequest
auth_request bs = record { username = c_string bs; password = c_string (drop 32 bs) }

abbrev pub deposit_request_size : ℕ
deposit_request_size = 8

abbrev pub trade_request_size : ℕ
trade_request_size = 17

pub record TradeRequest : Type 0 where
  pub ticker_id : ℕ
  pub side : ℕ
  pub price : ℕ
  pub amount : ℕ

abbrev pub trade_request : List ℕ → TradeRequest
trade_request bs = record {
  ticker_id = field 0 4 bs;
  side = field 4 1 bs;
  price = field 5 8 bs;
  amount = field 13 4 bs;
}

abbrev pub cancel_request_size : ℕ
cancel_request_size = 12

pub record CancelRequest : Type 0 where
  pub ticker_id : ℕ
  pub order_id : ℕ

abbrev pub cancel_request : List ℕ → CancelRequest
cancel_request bs = record { ticker_id = field 0 4 bs; order_id = field 4 8 bs }

abbrev pub market_request_size : ℕ
market_request_size = 4

abbrev pub trend_request_size : ℕ
trend_request_size = 4

abbrev pub generic_response : ℕ → List ℕ
generic_response status = status ∷ []

-- `AuthResponse`, `DepositResponse` and `BalanceResponse`: a status and eight bytes.
abbrev pub value_response : ℕ → ℕ → List ℕ
value_response status value = status ∷ to_le 8 value

abbrev pub market_response : ℕ → ℕ → ℕ → List ℕ
market_response status best_bid best_ask = status ∷ to_le 8 best_bid ++ to_le 8 best_ask

-- The five response headers with a status and a count.
abbrev pub list_header : ℕ → ℕ → List ℕ
list_header status count = status ∷ to_le 4 count

abbrev pub holding_item : ℕ × ℤ → List ℕ
holding_item (ticker, qty) = to_le 4 ticker ++ to_le 4 (quantity_code qty)

abbrev pub side_byte : OrderSide → ℕ
side_byte buy = 0
side_byte sell = 1

abbrev pub order_item : Order → List ℕ
order_item o =
    to_le 8 o.order_id
    ++ to_le 4 o.ticker_id
    ++ side_byte o.side ∷ to_le 8 o.price
    ++ to_le 8 o.quantity

-- `strncpy` into a zeroed field of `n` bytes.
abbrev pub text_field : ℕ → Name → List ℕ
text_field zero cs = []
text_field (suc n) [] = 0 ∷ text_field n []
text_field (suc n) (c ∷ cs) = c ∷ text_field n cs

abbrev pub stock_item : ℕ → Name → List ℕ
stock_item ticker symbol = to_le 4 ticker ++ text_field 15 symbol ++ 0 ∷ []
