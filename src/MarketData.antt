-- ===== src/MarketData.antt =====
-- include/MarketDataPublisher.hpp, and what GetTrendHandler of include/Handler.hpp reads back. The
-- clients of Redis and of the JSON library are parameters.
pub mod Members
pub mod Trend
pub mod Memory
mod Tests
use exchange_server.Prelude.{
  ℕ, zero, suc, ◌+◌, ◌/◌, ◌%◌, Bool, true, false, Option, none, some, List, [], ◌∷◌, ◌++◌, ltb,
  if◌then◌else◌,
}
use exchange_server.Prelude.Names.{Name}
use exchange_server.Prelude.Texts.{codes}
use exchange_server.Prelude.Bytes.{take, drop}
use exchange_server.Common.{MatchRecord}

-- The decimal digits of a number, for so many of them at most.
pub digits : ℕ → ℕ → Name
digits zero n = []
digits (suc most) n = elim (ltb n 10) [
  | true ↦ (48 + n) ∷ []
  | false ↦ digits most (n / 10) ++ (48 + n % 10) ∷ []
]

-- `std::to_string` of an unsigned number
abbrev pub to_string : ℕ → Name
to_string n = digits (suc n) n

abbrev pub json_data : MatchRecord → Name
json_data r =
    codes "{\"ticker\":"
    ++ (to_string r.ticker_id
        ++ (codes ",\"price\":"
            ++ (to_string r.match_price
                ++ (codes ",\"qty\":" ++ (to_string r.match_quantity ++ codes "}")))))

abbrev pub zset_key : ℕ → Name
zset_key ticker_id = codes "history:trade:" ++ to_string ticker_id

-- What the handler of trends makes of the elements of a reply: `price_of` is `json::parse` with
-- `["price"].get<uint64_t>()`, and nothing where they throw.
pub parsed : (Name → Option ℕ) → List Name → List ℕ
parsed price_of [] = []
parsed price_of (e ∷ es) = elim (price_of e) [
  | none ↦ parsed price_of es
  | some p ↦ p ∷ parsed price_of es
]

abbrev pub reversed : List ℕ → List ℕ → List ℕ
reversed [] acc = acc
reversed (p ∷ ps) acc = reversed ps (p ∷ acc)

-- `ZADD` with a key, a score, sent as its decimal digits, and a member, and `ZREVRANGE` with a key, 0 and 9, which gives nothing
-- where the reply is no array.
pub record Redis (Db : Type 0) : Type 0 where
  pub zadd : Name → ℕ → Name → Db → Db
  pub zrevrange : Name → Db → Option (List Name)

abbrev pub push_records : List MatchRecord → List MatchRecord → List MatchRecord
push_records [] queue = queue
push_records (r ∷ rs) queue = queue ++ r ∷ rs

module _ {Db : Type 0} (c : Redis Db) where
  abbrev pub publish : MatchRecord → Db → Db
  publish r db = c.zadd (zset_key r.ticker_id) r.timestamp (json_data r) db

  pub publish_all : List MatchRecord → Db → Db
  publish_all [] db = db
  publish_all (r ∷ rs) db = publish_all rs (publish r db)

  -- Without a connection the batch is dropped.
  pub publish_batch_to_redis : Bool → List MatchRecord → Db → Db
  publish_batch_to_redis connected batch db = if connected then publish_all batch db else db

  abbrev pub publish_size : ℕ
  publish_size = 1000

  -- One round of `processQueue` while it runs: the queue that is left, and the database.
  pub process_queue : Bool → List MatchRecord → Db → List MatchRecord × Db
  process_queue connected queue db =
      (drop publish_size queue, publish_batch_to_redis connected (take publish_size queue) db)

  pub trend_prices : (Name → Option ℕ) → Db → ℕ → List ℕ
  trend_prices price_of db ticker_id = elim (c.zrevrange (zset_key ticker_id) db) [
    | none ↦ []
    | some elements ↦ reversed (parsed price_of elements) []
  ]
