-- ===== src/Tcp/Tests.antt =====
-- A session whose idle timer has expired.
use exchange_server.Prelude.{some, false, List, [], ◌∷◌, ◌≡◌, refl}
use exchange_server.Prelude.Map.{lookup}
use exchange_server.Tcp.{Tcp, new_session, handle_timeouts, create_session, add_timer}
use exchange_server.Tcp.Idle.{handle_timeouts-keeps}
use exchange_server.Tcp.Loop
use exchange_server.Tcp.Loop.{
  Loop, got, created, added, Phase, hanging, returned, tested, deleted, cancelled, removed,
  on_event, accept_client, accept_next, hang_up, clean_step, Reach, started, stepped, accepted,
  accepts, ready, hung_up, cleaned,
}
use exchange_server.Tcp.Loop.Served.{Served}
use exchange_server.Tcp.Loop.Turns.{Reach-Served}

abbrev idle : Tcp
idle = record {
  sessions = (5, new_session) ∷ [];
  heap = record { fd = 5; expire = 60 } ∷ [];
  table = (5, 60) ∷ [];
  closed = [];
}

handle_timeouts-keeps_example : lookup 5 (handle_timeouts 100 idle).sessions ≡ some new_session
handle_timeouts-keeps_example = handle_timeouts-keeps 100 5 new_session idle refl

-- A connection is accepted, its first event goes to the pool, and the task closes it.
abbrev accepted_one : Loop
accepted_one =
    accept_next 1 5 added
      (accept_next 1 5 created (accept_next 1 5 got (accept_client 5 Loop.idle)))

abbrev closed_one : Loop
closed_one = clean_step 5 hanging [] [] (hang_up 5 [] (on_event 2 5 accepted_one))

abbrev closed_reached : Reach closed_one
closed_reached =
    stepped
      (stepped
        (stepped
          (stepped
            (stepped
              (stepped (stepped started (accepted 5 refl refl refl refl))
                (accepts 1 5 got refl refl))
              (accepts 1 5 created refl refl))
            (accepts 1 5 added refl refl))
          (ready 2 5 refl refl refl))
        (hung_up 5 [] [] refl refl))
      (cleaned 5 hanging [] [] refl refl)

Reach-Served_example : Served closed_one
Reach-Served_example =
    Reach-Served closed_one closed_reached (((((((tt, refl), tt), tt), tt), tt), tt), tt)

-- The race that the reuse of a descriptor leads to: when `doCleanup` has found no session, a new
-- connection is accepted with the same number, and the task closes it.
abbrev race : List Phase → Loop → Loop
race [] l = l
race (p ∷ ps) l = race ps (clean_step 5 p [] [] l)

race_closes :
    (race
        (tested ∷ deleted ∷ cancelled ∷ removed ∷ [])
        (accept_client 5 (race (returned ∷ []) closed_one))).is_open
      5
    ≡ false
unfolding create_session add_timer
race_closes = refl
