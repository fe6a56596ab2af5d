-- ===== src/Handlers/Queries.antt =====
-- The handlers of include/Handler.hpp that only read.
use exchange_server.Prelude.{
  ◌+◌, ◌-◌, ◌*◌, ◌%◌, ◌^◌, ℕ, ◌==◌, Bool, false, List, [], ◌∷◌, ◌++◌, length, ltb, if◌then◌else◌,
}
use exchange_server.Prelude.Int.{ℤ, pos, negsuc}
use exchange_server.Prelude.Names.{Name}
use exchange_server.Prelude.Bytes.{to_le, take}
use exchange_server.Accounts.{get_holdings}
use exchange_server.Tickers.{TickerManager, get_ticker_id}
use exchange_server.Repositories.{StockRepository}
use exchange_server.Engine.{Engine, engine_best_bid_offer, engine_user_active_order}
use exchange_server.Protocol
use exchange_server.Protocol.{text_field}
use exchange_server.Handlers.{Handler, is_logged_in}

abbrev pub concat_map {ℓ} : {A : Type ℓ} → (A → List ℕ) → List A → List ℕ
concat_map f [] = []
concat_map f (x ∷ xs) = f x ++ concat_map f xs

-- `if (qty > 0)`
abbrev pub is_positive : ℤ → Bool
is_positive (pos n) = ltb 0 n
is_positive (negsuc n) = false

abbrev pub held : List (ℕ × ℤ) → List (ℕ × ℤ)
held [] = []
held (h ∷ hs) = let rest = held hs in if is_positive h.1 then h ∷ rest else rest

-- `symbolToTickerId`
abbrev pub symbol_to_ticker_id : Name → TickerManager → ℕ
symbol_to_ticker_id symbol t = let id = get_ticker_id symbol t in if id == 0 then 999 else id

module _ {Db : Type 0} where
  unfoldable pub get_holdings_handler : Handler Db
  get_holdings_handler s req w =
      let items = held (get_holdings s.user_id w.accounts) in
      if is_logged_in s
      then (Protocol.list_header 1 (length items) ++ concat_map Protocol.holding_item items, s, w)
      else (Protocol.list_header 0 0, s, w)

  -- The engine's books as they are when the request is handled.
  pub get_market_handler : Engine → Handler Db
  get_market_handler e s req w =
      let best = engine_best_bid_offer (Protocol.field 0 4 req) (0, 0) e in
      if ltb (length req) Protocol.market_request_size
      then ([], s, w)
      else (Protocol.market_response 1 best.0 best.1, s, w)

  unfoldable pub get_orders_handler : Engine → Handler Db
  get_orders_handler e s req w =
      let orders = engine_user_active_order s.user_id e in
      if is_logged_in s
      then (Protocol.list_header 1 (length orders) ++ concat_map Protocol.order_item orders, s, w)
      else (Protocol.list_header 0 0, s, w)

  -- `prices` is what the cache holds for the ticker, newest last.
  pub get_trend_handler : (ℕ → List ℕ) → Handler Db
  get_trend_handler prices s req w =
      let ps = prices (Protocol.field 0 4 req) in
      if ltb (length req) Protocol.trend_request_size
      then ([], s, w)
      else (Protocol.list_header 1 (length ps) ++ concat_map (to_le 8) ps, s, w)

  unfoldable pub get_all_stocks_handler : StockRepository Db → TickerManager → Handler Db
  get_all_stocks_handler stocks tickers s req w =
      let symbols = stocks.get_all_stocks w.db in
      let item =
        λ (symbol : Name). Protocol.stock_item (symbol_to_ticker_id symbol tickers) symbol in
      (Protocol.list_header 1 (length symbols) ++ concat_map item symbols, s, w)

-- An entry of `newsPool`.
pub record NewsTemplate : Type 0 where
  pub title : Name
  pub type : Name
  pub symbol : Name

-- `NewsItem`: the time in a `uint32_t`, and three texts in their fields.
abbrev pub news_item : ℕ → NewsTemplate → List ℕ
news_item time n =
    to_le 4 time
    ++ text_field 127 n.title
    ++ 0 ∷ text_field 15 n.type
    ++ 0 ∷ text_field 15 n.symbol
    ++ 0 ∷ []

-- The loop over `i`; `item.time = now - i * 300`.
abbrev pub news_items : ℕ → ℕ → List NewsTemplate → List (List ℕ)
news_items now i [] = []
news_items now i (n ∷ ns) =
    news_item (now + 2 ^ 32 - i * 300 % 2 ^ 32) n ∷ news_items now (i + 1) ns

-- `shuffled` is what `std::shuffle` made of the twelve entries of the pool.
pub get_news_handler : {Db : Type 0} → ℕ → List NewsTemplate → Handler Db
get_news_handler now shuffled s req w =
    let items = news_items now 0 (take 3 shuffled) in
    (Protocol.list_header 1 (length items) ++ concat_map (λ bs. bs) items, s, w)
