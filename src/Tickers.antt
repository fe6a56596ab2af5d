-- ===== src/Tickers.antt =====
-- include/TickerManager.hpp: the two directions of the map between symbols and ids. The rows of
-- `SELECT id, symbol FROM stocks` are an argument.
use exchange_server.Prelude.{ℕ, none, some, List, [], ◌∷◌, map}
use exchange_server.Prelude.Map.{Map, lookup, insert}
use exchange_server.Prelude.Names.{Name, NameMap, find, assign}

pub record TickerManager : Type 0 where
  pub symbol_to_id : NameMap ℕ
  pub id_to_symbol : Map Name

unfoldable pub load_all_tickers : List (ℕ × Name) → TickerManager → TickerManager
load_all_tickers [] t = t
load_all_tickers ((id, symbol) ∷ rows) t = load_all_tickers rows (record {
  symbol_to_id = assign symbol id t.symbol_to_id;
  id_to_symbol = insert id symbol t.id_to_symbol;
})

unfoldable pub get_ticker_id : Name → TickerManager → ℕ
get_ticker_id symbol t = elim (find symbol t.symbol_to_id) [ none ↦ 0 | some id ↦ id ]

-- "UNKNOWN"
abbrev pub unknown : Name
unknown = b'U' ∷ b'N' ∷ b'K' ∷ b'N' ∷ b'O' ∷ b'W' ∷ b'N' ∷ []

pub get_symbol : ℕ → TickerManager → Name
get_symbol id t = elim (lookup id t.id_to_symbol) [ none ↦ unknown | some symbol ↦ symbol ]

unfoldable pub get_all_ticker_ids : TickerManager → List ℕ
get_all_ticker_ids t = map (λ e. e.0) t.id_to_symbol
