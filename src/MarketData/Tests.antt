-- ===== src/MarketData/Tests.antt =====
-- Tests of the published members: two trades at one price for one quantity, at different times.
use exchange_server.Prelude.{List, [], ◌∷◌, ℕ, ◌↔◌, ◌≡◌, refl}
use exchange_server.Prelude.Texts.{codes}
use exchange_server.Common.{MatchRecord}
use exchange_server.MarketData.{digits, json_data, publish_all}
use exchange_server.MarketData.Members.{json_data-same}
use exchange_server.MarketData.Memory.{Sets, sorted_sets}

abbrev trade_at : ℕ → MatchRecord
trade_at time = record {
  ticker_id = 1;
  maker_order_id = 11;
  taker_order_id = time;
  buyer_user_id = 1;
  sell_user_id = 2;
  buyer_expected_price = 101;
  match_price = 100;
  match_quantity = 5;
  timestamp = time;
}

shown : json_data (trade_at 7) ≡ codes "{\"ticker\":1,\"price\":100,\"qty\":5}"
unfolding digits
shown = refl

abbrev Alike : MatchRecord → MatchRecord → Type 0
Alike r q =
    (r.ticker_id ≡ q.ticker_id)
    × (r.match_price ≡ q.match_price)
    × (r.match_quantity ≡ q.match_quantity)

json_data-same_example :
    (json_data (trade_at 7) ≡ json_data (trade_at 8)) ↔ Alike (trade_at 7) (trade_at 8)
json_data-same_example = json_data-same (trade_at 7) (trade_at 8)

-- One trade is in the history, and two more of the ticker, at other prices, are published with one of
-- another ticker between them.
abbrev priced : ℕ → ℕ → ℕ → MatchRecord
priced ticker price time = record (trade_at time) { ticker_id = ticker; match_price = price }

abbrev batch : List MatchRecord
batch =
    priced 1 101 1752000000000001000
    ∷ priced 2 55 1752000000000001100
    ∷ priced 1 103 1752000000000002000
    ∷ []

abbrev published : Sets
published = publish_all sorted_sets (priced 1 100 1752000000000000000 ∷ []) []
