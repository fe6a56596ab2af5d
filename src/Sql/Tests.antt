-- ===== src/Sql/Tests.antt =====
-- The repositories of src/server/UserRepositoryImpl.cpp on a table in memory.
use exchange_server.Prelude.{false, [], ◌∷◌, ◌≡◌, refl}
use exchange_server.Prelude.Int.{pos}
use exchange_server.Prelude.Names.{same_name}
use exchange_server.Prelude.Texts.{codes}
use exchange_server.Sql.{register_user, deduct_balance, get_user_id}
use exchange_server.Sql.Memory.{Table, memory, run, ask}

abbrev table : Table
table = (codes "root", record { id = 1; password = codes "root"; balance = pos 2000 }) ∷ []

-- A registered name has an id, and a deduction beyond the balance is refused.
runs_register :
    get_user_id memory (codes "ann") (register_user memory (codes "ann") (codes "pw") table).1 ≡ 2
unfolding get_user_id register_user run ask same_name
runs_register = refl

runs_deduct : (deduct_balance memory (codes "root") (pos 2001) table).0 ≡ false
unfolding deduct_balance run same_name
runs_deduct = refl
