-- ===== src/Main/Tests.antt =====
-- The server of src/server/main.cpp with two tickers, and a connection that sends a balance request.
use exchange_server.Prelude.{ℕ, true, List, [], ◌∷◌}
use exchange_server.Prelude.Int.{ℤ, pos}
use exchange_server.Prelude.Names.{Name}
use exchange_server.Repositories.{StockRepository}
use exchange_server.Handlers.{Session, Server}
use exchange_server.Handlers.Example.{users, server, session, clock}
use exchange_server.Framing.{Connection, Received, bytes, would_block}
use exchange_server.Framing.Serve.{serve}
use exchange_server.Router.{dispatch}
use exchange_server.Router.Silent.{Unanswered}
use exchange_server.Main.{Parts, started_routers}
use exchange_server.Main.Start.{instance_router-silent}

abbrev stocks : StockRepository ℤ
stocks = record {
  get_stock_holding = λ name symbol db. pos 0;
  update_stock_holding = λ name symbol delta db. (true, db);
  get_all_holdings = λ name db. [];
  get_all_stocks = λ db. [];
  deduct_stock_holding = λ name symbol amount db. (true, db);
}

abbrev parts : Parts ℤ
parts = record {
  users = users;
  stocks = stocks;
  tickers = record { symbol_to_id = []; id_to_symbol = [] };
  engine = [];
  clock_ms = clock;
  clock = clock;
  rubbish = 0;
  prices = λ ticker. [];
  time = 0;
  shuffled = [];
}

abbrev rows : List (ℕ × Name)
rows = (1, 65 ∷ []) ∷ (2, 66 ∷ []) ∷ []

abbrev connection : Connection (Session × Server ℤ)
connection = record { buffer = []; state = (session, server); sent = [] }

-- A whole packet with the type 2003 and no payload.
abbrev events : List (List Received)
events = (bytes (0 ∷ 0 ∷ 0 ∷ 0 ∷ 7 ∷ 211 ∷ []) ∷ would_block ∷ []) ∷ []

instance_router-silent_example :
    Unanswered connection
      (serve (dispatch (started_routers parts).instance_router) events connection)
instance_router-silent_example = instance_router-silent parts events connection
