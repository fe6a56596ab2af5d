-- ===== src/Settlement.antt =====
-- include/SettlementProcessor.hpp: the worker that books trades and cancellations. What one round
-- takes from the two queues is an argument, so the batch size and the order of arrival do not matter.
pub mod Conserve
pub mod Lifecycle
pub mod Backed
pub mod Cancelled
pub mod Released
mod Tests
use exchange_server.Prelude.{ℕ, List, [], ◌∷◌}
use exchange_server.Prelude.Words.{sub64, mul64, as_int64, as_int32}
use exchange_server.Prelude.Names.{Name}
use exchange_server.Common.{OrderSide, buy, sell, MatchRecord, CancelRecord}
use exchange_server.Accounts.{
  UserManager, get_name, commit_buy, commit_sell, unfreeze_balance, unfreeze_stock,
}
use exchange_server.Tickers.{TickerManager, get_symbol}
use exchange_server.Repositories.{UserRepository, StockRepository}

-- The accounts in memory, and the database.
pub record Holders (Db : Type 0) : Type 0 where
  pub accounts : UserManager
  pub db : Db

-- The body of the loop over cancellations.
abbrev pub unfreeze_order : OrderSide → CancelRecord → UserManager → UserManager
unfreeze_order buy r = unfreeze_balance r.user_id (as_int64 (mul64 r.price r.quantity))
unfreeze_order sell r = unfreeze_stock r.user_id r.ticker_id (as_int32 r.quantity)

module _ {Db : Type 0} (users : UserRepository Db) (stocks : StockRepository Db)
    (tickers : TickerManager) where
  -- The body of the loop over trades: four writes to the database, then two to the accounts.
  pub settle_match : MatchRecord → Holders Db → Holders Db
  settle_match r h =
      let buyer_name = get_name r.buyer_user_id h.accounts in
      let seller_name = get_name r.sell_user_id h.accounts in
      let symbol = get_symbol r.ticker_id tickers in
      let sell_money = as_int64 (mul64 r.match_price r.match_quantity) in
      let refund_money =
        as_int64 (mul64 (sub64 r.buyer_expected_price r.match_price) r.match_quantity) in
      let qty = as_int32 r.match_quantity in
      let db1 = (users.deduct_balance buyer_name sell_money h.db).1 in
      let db2 = (stocks.update_stock_holding buyer_name symbol qty db1).1 in
      let db3 = (users.update_balance seller_name sell_money db2).1 in
      let db4 = (stocks.deduct_stock_holding seller_name symbol qty db3).1 in
      let bought = commit_buy r.buyer_user_id r.ticker_id sell_money qty refund_money h.accounts in
      record { accounts = commit_sell r.sell_user_id r.ticker_id sell_money qty bought; db = db4 }

  pub settle_matches : List MatchRecord → Holders Db → Holders Db
  settle_matches [] h = h
  settle_matches (r ∷ rs) h = settle_matches rs (settle_match r h)

  pub settle_cancels : List CancelRecord → Holders Db → Holders Db
  settle_cancels [] h = h
  settle_cancels (r ∷ rs) h =
      settle_cancels rs (record h { accounts = unfreeze_order r.side r h.accounts })

  -- One round of the worker: first the trades that it took, then the cancellations.
  pub settle_round : List MatchRecord → List CancelRecord → Holders Db → Holders Db
  settle_round ms cs h = settle_cancels cs (settle_matches ms h)
