-- ===== src/Pools/Tests.antt =====
-- A pool of two connections.
use exchange_server.Prelude.{[], ◌∷◌, refl}
use exchange_server.Pools.{take_one, give_one, Reach, fresh, next, get_connection}
use exchange_server.Pools.Leases.{Conserves, Reach-Conserves}

-- Both are taken, and the first one is given back.
after_three : Reach (7 ∷ 8 ∷ []) (record { queue = 7 ∷ []; held = 8 ∷ [] })
unfolding get_connection
after_three =
    next (next (next fresh (take_one 7 (8 ∷ []) refl refl)) (take_one 8 [] refl refl))
      (give_one 7 (8 ∷ []) [] refl refl)

Reach-Conserves_example : Conserves (7 ∷ 8 ∷ []) (record { queue = 7 ∷ []; held = 8 ∷ [] })
Reach-Conserves_example = Reach-Conserves after_three
