-- ===== src/Handlers/Tests.antt =====
-- Requests to the handlers of include/Handler.hpp.
use exchange_server.Prelude.{ℕ, List, [], ◌∷◌, ◌++◌, ◌≡◌, refl, arith}
use exchange_server.Prelude.Int.{pos}
use exchange_server.Prelude.Names.{find, same_name}
use exchange_server.Prelude.Texts.{codes}
use exchange_server.Sql.{user_repository}
use exchange_server.Sql.Accounts.{user_repository-IsUserRepository}
use exchange_server.Sql.Memory.{Table, memory, next_id, memory-IsServer}
use exchange_server.Protocol
use exchange_server.Handlers.Example.{account, server, session, clock, buy_request}
use exchange_server.Handlers.{Session, Server, trade_handler, login_handler, register_user_handler}
use exchange_server.Handlers.Trade.{Accepted, trade_handler-buy, trade_handler-wraps}
use exchange_server.Handlers.Login.{login_handler-register}

trade_handler-buy_example :
    Accepted clock clock session
      (buy_request 100 5)
      server
      (pos 500)
      account
      (trade_handler clock clock session (buy_request 100 5) server)
trade_handler-buy_example =
    trade_handler-buy clock clock session (buy_request 100 5) server account (refl, refl, refl) refl
      (omega arith)

-- 2^32 at a price of 2^32 would be beyond the field of the amount; 2^31 at 2^33 is not.
trade_handler-wraps_example :
    Accepted clock clock session
      (buy_request 8589934592 2147483648)
      server
      (pos 0)
      account
      (trade_handler clock clock session (buy_request 8589934592 2147483648) server)
trade_handler-wraps_example =
    trade_handler-wraps clock clock session (buy_request 8589934592 2147483648) server account
      (refl, refl, refl) refl refl refl

-- A server with an empty memory and a table of one user, and the request of another.
abbrev empty_server : Server Table
empty_server = record {
  accounts = λ i. record { account = []; find_account = [] };
  db = (codes "root", record { id = 1; password = codes "root"; balance = pos 2000 }) ∷ [];
  log = [];
  store = server.store;
  next = 0;
  sequence = 0;
  ticks = 0;
}

abbrev ann : List ℕ
ann = Protocol.text_field 32 (codes "ann") ++ Protocol.text_field 32 (codes "pw")

abbrev ann_session : Session
ann_session = record { username = codes "ann"; user_id = 2 }

login_handler-register_example :
    (let o = register_user_handler (user_repository memory) session ann empty_server in
      (o.1 ≡ ann_session)
      × (login_handler (user_repository memory) 7 session ann o.2
          ≡ (Protocol.value_response 1 2, o.1, o.2)))
unfolding same_name
login_handler-register_example =
    login_handler-register (user_repository memory) find next_id
      (user_repository-IsUserRepository memory find next_id memory-IsServer) ann refl empty_server
      refl (λ i. refl) refl refl session session 7
