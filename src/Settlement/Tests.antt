-- ===== src/Settlement/Tests.antt =====
-- The theorems on settlement and on the accounts at a small exchange.
use exchange_server.Prelude.{ℕ, ◌+◌, ◌==◌, if◌then◌else◌, true, [], ◌∷◌, ◌≡◌, refl, arith, Distinct}
use exchange_server.Prelude.Int.{ℤ, pos}
use exchange_server.Common.{buy, MatchRecord, CancelRecord}
use exchange_server.Accounts.{UserAccount, UserManager, try_freeze_balance}
use exchange_server.Accounts.Frozen.{frozen_of}
use exchange_server.Tickers.{TickerManager}
use exchange_server.Repositories.{UserRepository, StockRepository}
use exchange_server.Settlement.{Holders, settle_matches, settle_cancels, settle_round}
use exchange_server.Settlement.Backed.{process_settle-backed}
use exchange_server.OrderBook.{process_order, cancel_order}
use exchange_server.Processor.{cancel_record}
use exchange_server.Settlement.Released.{cancel_settle-backed}
use exchange_server.OrderBook.Spec.{market_of}
use exchange_server.OrderBook.Owed.{owed}
use exchange_server.OrderBook.Example.{clock, book, book-IsValid, book-IsIndexed, book-IsNew}
use exchange_server.Settlement.Conserve.{Conserved, settle_round_conserves}
use exchange_server.Settlement.Lifecycle.{frozen_for, freeze_settle_cancel}

-- A database that counts the writes.
abbrev users : UserRepository ℕ
users = record {
  register_user = λ name password db. (true, db);
  check_login = λ name password db. true;
  get_balance = λ name db. pos 0;
  update_balance = λ name amount db. (true, db);
  deduct_balance = λ name amount db. (true, db);
  get_user_id = λ name db. 1;
}

abbrev stocks : StockRepository ℕ
stocks = record {
  get_stock_holding = λ name symbol db. pos 0;
  update_stock_holding = λ name symbol delta db. (true, db);
  get_all_holdings = λ name db. [];
  get_all_stocks = λ db. [];
  deduct_stock_holding = λ name symbol amount db. (true, db);
}

abbrev tickers : TickerManager
tickers = record { symbol_to_id = []; id_to_symbol = [] }

abbrev account : ℕ → ℤ → UserAccount
account uid balance = record {
  user_id = uid;
  username = uid ∷ [];
  available_balance = balance;
  frozen_balance = pos 0;
  available_stock = (1, pos 50) ∷ [];
  frozen_stock = [];
}

-- The users 1 and 2 have 2000 each.
abbrev accounts : UserManager
accounts i =
    if i == 1
    then record { account = (1, account 1 (pos 2000)) ∷ []; find_account = [] }
    else if i == 2
    then record { account = (2, account 2 (pos 2000)) ∷ []; find_account = [] }
    else record { account = []; find_account = [] }

abbrev holders : Holders ℕ
holders = record { accounts = accounts; db = 0 }

abbrev trade : MatchRecord
trade = record {
  ticker_id = 1;
  maker_order_id = 11;
  taker_order_id = 12;
  buyer_user_id = 1;
  sell_user_id = 2;
  buyer_expected_price = 101;
  match_price = 100;
  match_quantity = 5;
  timestamp = 0;
}

abbrev cancel : CancelRecord
cancel = record {
  ticker_id = 1;
  order_id = 12;
  user_id = 1;
  side = buy;
  price = 101;
  quantity = 3;
  timestamp = 0;
}

both_distinct : Distinct (1 ∷ 2 ∷ [])
both_distinct = omega arith

settle_round_conserves_example :
    Conserved users stocks tickers
      (1 ∷ 2 ∷ [])
      both_distinct
      1
      accounts
      (settle_round users stocks tickers (trade ∷ []) (cancel ∷ []) holders).accounts
settle_round_conserves_example =
    settle_round_conserves users stocks tickers (1 ∷ 2 ∷ []) both_distinct 1 (trade ∷ [])
      (cancel ∷ []) holders ((((λ e. cc), refl), ((λ e. cc), refl)), tt) (((λ e. cc), refl), tt)

freeze_settle_cancel_example :
    frozen_of 1
      (settle_round users stocks tickers (trade ∷ []) (cancel ∷ []) (record holders {
        accounts = (frozen_for users stocks tickers 1 101 8 holders).1;
      })).accounts
    ≡ pos 0
unfolding try_freeze_balance
freeze_settle_cancel_example =
    freeze_settle_cancel users stocks tickers 1 101 (trade ∷ []) cancel holders
      (omega arith, omega arith) ((refl, refl, omega arith, omega arith), tt) (refl, refl, refl)
      (omega arith) refl

-- The user 9 has a bid for 5 at 99, and a new one for 7 at 101, and 100 frozen for other orders.
abbrev bidder : UserAccount
bidder = record (account 9 (pos 10)) { frozen_balance = pos 1302 }

abbrev bidders : Holders ℕ
bidders = record {
  accounts = λ i.
      if i == 9
      then record { account = (9, bidder) ∷ []; find_account = [] }
      else record { account = []; find_account = [] };
  db = 0;
}

process_settle-backed_example :
    (let c = process_order clock 4 book in
      frozen_of 9 (settle_matches users stocks tickers c.results bidders).accounts
      ≡ pos (owed 9 (market_of c).bids + 100))
process_settle-backed_example =
    process_settle-backed users stocks tickers 9 clock 4 book bidders 100 book-IsValid book-IsNew
      refl (λ e. cc) (omega arith) refl

cancel_settle-backed_example :
    frozen_of 9
      (settle_cancels users stocks tickers (cancel_record 5 (book.store 3) ∷ []) bidders).accounts
    ≡ pos (owed 9 (market_of (cancel_order 13 9 book).1).bids + 807)
cancel_settle-backed_example =
    cancel_settle-backed users stocks tickers 13 9 3 5 807 book bidders book-IsValid book-IsIndexed
      refl refl (λ e. cc) (omega arith) refl
