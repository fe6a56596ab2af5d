-- ===== src/MarketData/Trend.antt =====
-- What include/MarketDataPublisher.hpp publishes, GetTrendHandler of include/Handler.hpp shows.
use exchange_server.Prelude.{
  ℕ, ◌^◌, ◌<◌, Bool, true, false, ◌&&◌, ◌||◌, Option, none, some, List, [], ◌∷◌, map, ltb, ◌==◌,
  if◌then◌else◌, ◌≡◌, ◌≢◌, All,
}
use exchange_server.Prelude.Names.{Name, same_name}
use exchange_server.Prelude.Bytes.{take}
use exchange_server.Common.{MatchRecord}
use exchange_server.MarketData.{Redis, json_data, parsed, reversed}

-- An entry of a sorted set: its score and its member.
abbrev pub Entry : Type 0
Entry = ℕ × Name

-- The order of members with one score.
abbrev pub above : Name → Name → Bool
above [] n = false
above (c ∷ cs) [] = true
above (c ∷ cs) (d ∷ ds) = ltb d c || ((c == d) && above cs ds)

abbrev pub later : Entry → Entry → Bool
later x y = ltb y.0 x.0 || ((x.0 == y.0) && above x.1 y.1)

abbrev pub without : Name → List Entry → List Entry
without m [] = []
without m (x ∷ xs) = let rest = without m xs in if same_name m x.1 then rest else x ∷ rest

abbrev pub put_entry : Entry → List Entry → List Entry
put_entry x [] = x ∷ []
put_entry x (y ∷ ys) = if later x y then x ∷ y ∷ ys else y ∷ put_entry x ys

-- What Redis promises of sorted sets: `entries` is a set with its highest score first, and the members
-- of one score in the order of their bytes. A score is kept as a double: `double` is the conversion.
-- Adding a member that is there gives it the new score.
pub record IsSortedSets {Db : Type 0} (double : ℕ → ℕ) (c : Redis Db)
    (entries : Name → Db → List Entry) : Type 0 where
  pub zadd_rows :
      (k u : Name) (score : ℕ) (m : Name) (db : Db)
      → entries u (c.zadd k score m db) ≡ (
          if same_name k u
          then put_entry (double score, m) (without m (entries u db))
          else entries u db)
  pub range :
      (k : Name) (db : Db) → c.zrevrange k db ≡ some (take 10 (map (λ e. e.1) (entries k db)))

abbrev entry : (ℕ → ℕ) → MatchRecord → Entry
entry double r = (double r.timestamp, json_data r)

-- A trade that is newer than another one, also as a double, and has another member.
abbrev pub Newer : (ℕ → ℕ) → MatchRecord → MatchRecord → Type 0
Newer double r h = (double h.timestamp < double r.timestamp) × (json_data r ≢ json_data h)

-- A price that fits into a `uint64_t`.
abbrev pub Priced : MatchRecord → Type 0
Priced r = r.match_price < 2 ^ 64

-- The trades of a ticker after some more trades, the newest first.
abbrev pub history : ℕ → List MatchRecord → List MatchRecord → List MatchRecord
history t [] hs = hs
history t (r ∷ rs) hs = history t rs (if r.ticker_id == t then r ∷ hs else hs)

-- Each trade of the ticker is newer than those before it.
abbrev pub Follows : (ℕ → ℕ) → ℕ → List MatchRecord → List MatchRecord → Type 0
Follows double t [] hs = Unit
Follows double t (r ∷ rs) hs =
    ((r.ticker_id == t) ≡ true → All (Newer double r) hs)
    × Follows double t rs (if r.ticker_id == t then r ∷ hs else hs)

module _ {Db : Type 0} (double : ℕ → ℕ) (c : Redis Db) (entries : Name → Db → List Entry)
    (s : IsSortedSets double c entries) (t : ℕ) where
  module _ (price_of : Name → Option ℕ)
      (reads : (r : MatchRecord) → Priced r → price_of (json_data r) ≡ some r.match_price) where
    first_parsed : List ℕ → Option ℕ → List ℕ
    first_parsed rest o = elim o [ none ↦ rest | some p ↦ p ∷ rest ]

    shown_prices : Option (List Name) → List ℕ
    shown_prices o = elim o [ none ↦ [] | some es ↦ reversed (parsed price_of es) [] ]
