-- ===== src/Handlers/Example.antt =====
-- A small server for the tests.
use exchange_server.Prelude.{ℕ, ◌+◌, ◌==◌, true, List, [], ◌∷◌, ◌++◌, if◌then◌else◌}
use exchange_server.Prelude.Int.{ℤ, pos}
use exchange_server.Prelude.Bytes.{to_le}
use exchange_server.Accounts.{UserAccount, UserManager}
use exchange_server.Common.{Order, buy}
use exchange_server.Repositories.{UserRepository}
use exchange_server.Handlers.{Session, Server}

abbrev pub account : UserAccount
account = record {
  user_id = 1;
  username = 65 ∷ [];
  available_balance = pos 2000;
  frozen_balance = pos 0;
  available_stock = [];
  frozen_stock = [];
}

abbrev pub accounts : UserManager
accounts i =
    if i == 1
    then record { account = (1, account) ∷ []; find_account = [] }
    else record { account = []; find_account = [] }

abbrev pub order : Order
order = record {
  order_id = 0;
  ticker_id = 0;
  user_id = 0;
  side = buy;
  price = 0;
  quantity = 0;
  timestamp = 0;
}

abbrev pub server : Server ℤ
server = record {
  accounts = accounts;
  db = pos 2000;
  log = [];
  store = λ p. order;
  next = 0;
  sequence = 0;
  ticks = 0;
}

abbrev pub session : Session
session = record { username = 65 ∷ []; user_id = 1 }

-- A database with one balance.
abbrev pub users : UserRepository ℤ
users = record {
  register_user = λ name password db. (true, db);
  check_login = λ name password db. true;
  get_balance = λ name db. db;
  update_balance = λ name amount db. (true, amount);
  deduct_balance = λ name amount db. (true, db);
  get_user_id = λ name db. 1;
}

abbrev pub clock : ℕ → ℕ
clock n = 1767225600001 + n

-- A buy order of an amount at a price for the ticker 1.
abbrev pub buy_request : ℕ → ℕ → List ℕ
buy_request price amount = to_le 4 1 ++ 0 ∷ to_le 8 price ++ to_le 4 amount
