-- ===== src/Main/Start.antt =====
-- What `main` of src/server/main.cpp has set up when it starts to listen.
use exchange_server.Prelude.{List, refl}
use exchange_server.Handlers.{Session, Server}
use exchange_server.Framing.{Connection, Received}
use exchange_server.Framing.Serve.{serve}
use exchange_server.Router.{dispatch}
use exchange_server.Router.Silent.{Unanswered, serve-silent}
use exchange_server.Main.{Parts, started_routers}

module _ {Db : Type 0} (x : Parts Db) where
  -- The dispatch of `MyEchoBusiness` goes through the other object, which has no handlers: whatever
  -- arrives on a connection, the server sends nothing and changes nothing but the buffer.
  pub instance_router-silent :
      (rss : List (List Received)) (c : Connection (Session × Server Db))
      → Unanswered c (serve (dispatch (started_routers x).instance_router) rss c)
  unfolding started_routers dispatch
  instance_router-silent rss c =
      serve-silent (dispatch (started_routers x).instance_router) (λ s type req. refl) rss c
