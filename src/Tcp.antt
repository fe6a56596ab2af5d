-- ===== src/Tcp.antt =====
-- include/SessionManager.hpp, include/TimerManager.hpp and the clean-up of src/server/TcpServer.cpp:
-- the table of sessions, the idle timers, and what closes a connection. The heap of the timers is a
-- list in order of expiry. A mutex is taken to be free when it is locked.
pub mod Idle
pub mod Closes
pub mod Loop
mod Tests
use exchange_server.Prelude.{
  ℕ, ◌+◌, ◌*◌, ◌==◌, Bool, true, false, Option, none, some, List, [], ◌∷◌, ◌++◌, ltb, if◌then◌else◌,
}
use exchange_server.Prelude.Map.{Map, lookup, lookup_or, insert, erase}
use exchange_server.Handlers.{Session}

pub record TimerNode : Type 0 where
  pub fd : ℕ
  pub expire : ℕ

-- The sessions by descriptor, the timers, and the calls of `close`, the last one at the end.
pub record Tcp : Type 0 where
  pub sessions : Map Session
  pub heap : List TimerNode
  pub table : Map ℕ
  pub closed : List ℕ

abbrev pub max_fd : ℕ
max_fd = 65535

-- `new Session(fd)`
abbrev pub new_session : Session
new_session = record { username = []; user_id = 0 }

pub create_session : ℕ → Tcp → Tcp
create_session fd t =
    if ltb fd max_fd then record t { sessions = insert fd new_session t.sessions } else t

pub get_session : ℕ → Tcp → Option Session
get_session fd t = if ltb fd max_fd then lookup fd t.sessions else none

abbrev pub remove_session : ℕ → Tcp → Tcp
remove_session fd t = if ltb fd max_fd then record t { sessions = erase fd t.sessions } else t

abbrev pub clean_connection : ℕ → Tcp → Tcp
clean_connection fd t = let r = remove_session fd t in record r { closed = r.closed ++ fd ∷ [] }

-- `return sessions_[fd] == nullptr;`
abbrev pub has_session : ℕ → Tcp → Bool
has_session fd t = elim (lookup fd t.sessions) [ none ↦ true | some s ↦ false ]

-- `push` on the heap.
abbrev pub push : TimerNode → List TimerNode → List TimerNode
push n [] = n ∷ []
push n (m ∷ ms) = if ltb n.expire m.expire then n ∷ m ∷ ms else m ∷ push n ms

pub add_timer : ℕ → ℕ → ℕ → Tcp → Tcp
add_timer now fd timeout t = record t {
  heap = push (record { fd = fd; expire = now + timeout }) t.heap;
  table = insert fd (now + timeout) t.table;
}

abbrev pub cancel_timer : ℕ → Tcp → Tcp
cancel_timer fd t = record t { table = erase fd t.table }

-- `doCleanup`, without the call of `epoll_ctl`.
pub do_cleanup : ℕ → Tcp → Tcp
do_cleanup fd t = if has_session fd t then clean_connection fd (cancel_timer fd t) else t

-- The callback that `start` passes.
abbrev pub close_callback : ℕ → Tcp → Tcp
close_callback fd t = if has_session fd t then do_cleanup fd t else t

-- The loop of `handleTimeouts`. Reading the table adds a missing descriptor with the time 0.
pub run_timers : ℕ → List TimerNode → Tcp → Tcp
run_timers now [] t = record t { heap = [] }
run_timers now (n ∷ ns) t =
    let armed = lookup_or 0 n.fd t.table in
    let c = close_callback n.fd t in
    let stale = run_timers now ns (record t { table = insert n.fd armed t.table }) in
    let expired = run_timers now ns (record c { table = erase n.fd c.table }) in
    if ltb now n.expire
    then record t { heap = n ∷ ns }
    else if n.expire == armed
    then expired
    else stale

pub handle_timeouts : ℕ → Tcp → Tcp
handle_timeouts now t = run_timers now t.heap t
