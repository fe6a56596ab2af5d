-- ===== src/Handlers/Login.antt =====
-- Registration and login of include/Handler.hpp over a repository that keeps its promises.
use exchange_server.Prelude.{
  ℕ, true, false, Option, none, List, length, ltb, ◌==◌, ◌≡◌, refl, sym, ◌∙◌, ap,
}
use exchange_server.Prelude.Names.{Name, same_name_refl}
use exchange_server.Accounts.{get_account, create_user_account, get_id}
use exchange_server.Accounts.Created.{Unknown, get_id-create_user_account}
use exchange_server.Repositories.{UserRepository}
use exchange_server.Repositories.Contract.{AccountRow, IsUserRepository, opened}
use exchange_server.Protocol
use exchange_server.Handlers.{Session, Server, login_handler, register_user_handler}

module _ {Db : Type 0} (users : UserRepository Db) (account : Name → Db → Option AccountRow)
    (new_id : Db → ℕ) (c : IsUserRepository users account new_id) (req : List ℕ)
    (whole : ltb (length req) Protocol.auth_request_size ≡ false) (w : Server Db) where
  abbrev name : Name
  name = (Protocol.auth_request req).username

  abbrev password : Name
  password = (Protocol.auth_request req).password

  abbrev id : ℕ
  id = new_id w.db

  module _ (free : account name w.db ≡ none) where
    abbrev db' : Db
    db' = (users.register_user name password w.db).1

    row : account name db' ≡ opened id password none
    row = c.register_rows name password name w.db ∙ rw (same_name_refl name, free) refl

    accepted : (users.register_user name password w.db).0 ≡ true
    accepted = c.register_answer name password w.db ∙ rw free refl

    new_user : users.get_user_id name db' ≡ id
    new_user = c.id_answer name db' ∙ rw row refl

    known : users.check_login name password db' ≡ true
    known = c.login_answer name password db' ∙ rw (row, same_name_refl password) refl

    -- The server after the registration.
    abbrev registered : Server Db
    registered = record w { accounts = create_user_account id name w.accounts; db = db' }

    register_user_handler-opens :
        (s : Session)
        → register_user_handler users s req w
          ≡ (Protocol.value_response 1 id, record { username = name; user_id = id }, registered)
    unfolding register_user_handler
    register_user_handler-opens s = rw (register_user_handler, whole, accepted, new_user) refl

    login_handler-knows :
        (rubbish : ℕ) (s : Session)
        → get_id name registered.accounts ≡ id
        → (id == 0) ≡ false
        → login_handler users rubbish s req registered
          ≡ (Protocol.value_response 1 id, record { username = name; user_id = id }, registered)
    unfolding login_handler
    login_handler-knows rubbish s e z = rw (login_handler, whole, known, e, z) refl

    -- A user registers under a name that is free in the database and that no account in memory has,
    -- and gets an id that is not 0 and that no account has. The session is then the user's, and a
    -- login with the same name and password, from any session, is answered with the same id, makes
    -- its session the user's, and changes nothing on the server.
    pub login_handler-register :
        Unknown name w.accounts
        → get_account id w.accounts ≡ none
        → (id == 0) ≡ false
        → (s later : Session) (rubbish : ℕ)
        → let o = register_user_handler users s req w in
          (o.1 ≡ record { username = name; user_id = id })
          × (login_handler users rubbish later req o.2 ≡ (Protocol.value_response 1 id, o.1, o.2))
    login_handler-register unknown fresh z s later rubbish =
        let r = register_user_handler-opens s in
        let e = get_id-create_user_account id name w.accounts fresh unknown in
        (
          ap (λ o. o.1) r,
          ap (λ o. login_handler users rubbish later req o.2) r
              ∙ login_handler-knows rubbish later e z
              ∙ ap (λ o. (Protocol.value_response 1 id, o.1, o.2)) (sym r),
        )
