-- ===== src/Router.antt =====
-- include/Router.hpp: handlers by message type.
pub mod Silent
use exchange_server.Prelude.{ℕ, none, some, List, []}
use exchange_server.Prelude.Map.{Map, lookup, insert}
use exchange_server.Handlers.{Session, Server, Handler}

-- `handlers_`
abbrev pub Router : Type 0 → Type 0
Router Db = Map (Handler Db)

module _ {Db : Type 0} where
  abbrev pub register_handler : ℕ → Handler Db → Router Db → Router Db
  register_handler type h r = insert type h r

  -- `dispatch`, with the session and the server's state as one state.
  unfoldable pub dispatch :
      Router Db → Session × Server Db → ℕ → List ℕ → List ℕ × (Session × Server Db)
  dispatch r sw type req = elim (lookup type r) [
    | none ↦ ([], sw)
    | some h ↦ let o = h sw.0 req sw.1 in (o.0, (o.1, o.2))
  ]
