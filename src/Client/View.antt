-- ===== src/Client/View.antt =====
-- `view_root_stocks` of src/client/client.cpp, up to the text that it prints. A symbol ends with its field
-- where that has no NUL.
use exchange_server.Prelude.{
  ℕ, zero, suc, ◌==◌, Option, none, some, List, [], ◌∷◌, ◌++◌, length, leb, if◌then◌else◌,
}
use exchange_server.Prelude.Bytes.{take, drop}
use exchange_server.Prelude.Texts.{codes}
use exchange_server.Prelude.Names.{Name}
use exchange_server.Protocol.{field, c_string}
use exchange_server.Client.Requests.{login, holdings, all_stocks}
use exchange_server.Client.Socket.{Socket, ask, header_size}

-- `StockItem` and `HoldingItem`
pub record StockItem : Type 0 where
  pub ticker_id : ℕ
  pub symbol : Name

pub record HoldingItem : Type 0 where
  pub ticker_id : ℕ
  pub quantity : ℕ

abbrev pub stocks_at : ℕ → List ℕ → List StockItem
stocks_at zero bs = []
stocks_at (suc n) bs =
    record { ticker_id = field 0 4 bs; symbol = c_string (take 16 (drop 4 bs)) }
    ∷ stocks_at n (drop 20 bs)

abbrev pub holdings_at : ℕ → List ℕ → List HoldingItem
holdings_at zero bs = []
holdings_at (suc n) bs =
    record { ticker_id = field 0 4 bs; quantity = field 4 4 bs } ∷ holdings_at n (drop 8 bs)

-- The symbol of the first stock with the ticker.
abbrev pub symbol_of : List StockItem → ℕ → Name
symbol_of [] ticker = codes "UNKNOWN"
symbol_of (s ∷ ss) ticker = if s.ticker_id == ticker then s.symbol else symbol_of ss ticker

-- A line of the table: ticker, symbol and quantity.
pub record Row : Type 0 where
  pub ticker : ℕ
  pub symbol : Name
  pub quantity : ℕ

abbrev pub rows_of : List StockItem → List HoldingItem → List Row
rows_of stocks [] = []
rows_of stocks (h ∷ hs) =
    record { ticker = h.ticker_id; symbol = symbol_of stocks h.ticker_id; quantity = h.quantity }
    ∷ rows_of stocks hs

-- What is shown: the id of the user, the stocks, and the holdings; a list is missing where its request or
-- the header of its reply is.
pub record Shown : Type 0 where
  pub user_id : ℕ
  pub stocks : Option (List StockItem)
  pub rows : Option (List Row)

pub data View : Type 0 where
  no_connection no_reply refused : View
  shown : Shown → View

module _ (junk : List ℕ) where
  unfoldable pub stocks_in : Option (List ℕ) → Option (List StockItem)
  stocks_in none = none
  stocks_in (some body) =
      if leb header_size (length body)
      then some (stocks_at (field 1 4 body) (drop header_size body ++ junk))
      else none

  abbrev pub stock_list : Option (List StockItem) → List StockItem
  stock_list none = []
  stock_list (some ss) = ss

  unfoldable pub rows_in : List StockItem → Option (List ℕ) → Option (List Row)
  rows_in stocks none = none
  rows_in stocks (some body) =
      if leb header_size (length body)
      then some (rows_of stocks (holdings_at (field 1 4 body) (drop header_size body ++ junk)))
      else none

  abbrev pub shows : ℕ → Option (List StockItem) → Option (List ℕ) → View
  shows user_id stocks reply =
      shown
        (record { user_id = user_id; stocks = stocks; rows = rows_in (stock_list stocks) reply })

  -- An empty body reads as the NUL behind it.
  abbrev pub after_login : Option (List ℕ) → Socket → View
  after_login none s = no_reply
  after_login (some body) s =
      let l = ask all_stocks s in
      let h = ask holdings l.1 in
      if field 0 1 body == 1 then shows (field 1 8 (body ++ junk)) (stocks_in l.0) h.0 else refused

  unfoldable pub view_root_stocks : Option Socket → View
  view_root_stocks none = no_connection
  view_root_stocks (some s) =
      let r = ask (login (codes "root") (codes "root")) s in after_login r.0 r.1
