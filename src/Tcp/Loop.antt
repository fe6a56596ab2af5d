-- ===== src/Tcp/Loop.antt =====
-- The event loop of src/server/TcpServer.cpp with its pool of threads. Of the kernel there are the open
-- descriptors and the list of `epoll`, which says for a descriptor whether its event is armed; `close`
-- takes a descriptor off both. A step is one call of the loop's thread in accepting a connection, its
-- turn for an event, one call of a task in cleaning up, the end of a task that goes on, or the
-- time-outs, which are one step because the loop's thread accepts nothing meanwhile; `accept` gives a
-- descriptor that is not open, here below the size of the table.
pub mod Served
pub mod Serving
pub mod Cleaning
pub mod Turns
use exchange_server.Prelude.{
  ℕ, ◌==◌, Bool, true, false, Option, none, some, List, [], ◌∷◌, ◌++◌, length, ltb, if◌then◌else◌,
  ◌≡◌,
}
use exchange_server.Prelude.Bytes.{drop}
use exchange_server.Tcp.{
  Tcp, max_fd, create_session, add_timer, remove_session, cancel_timer, handle_timeouts,
  has_session,
}

abbrev pub update {ℓ} : {A : Type ℓ} → (ℕ → A) → ℕ → A → ℕ → A
update f k v j = if k == j then v else f j

-- Where `acceptConnection` is: the calls that it has made for its connection.
pub data Stage : Type 0 where
  got : Stage
  created : Stage
  added : Stage

-- Where a task is that is to end. In `hanging` it is between the removal of the session and `close` in
-- the clean-up of `onMessage_`, in `returned` that has returned false, and then `doCleanup` has found
-- no session, has called `EPOLL_CTL_DEL`, has cancelled the timer, and has removed the session.
pub data Phase : Type 0 where
  hanging : Phase
  returned : Phase
  tested : Phase
  deleted : Phase
  cancelled : Phase
  removed : Phase

-- The tasks are those in the pool or on its threads: `running` before `onMessage_` ends, and
-- `cleaning` from its `cleanConnection` on.
pub record Loop : Type 0 where
  pub tcp : Tcp
  pub is_open : ℕ → Bool
  pub epoll : ℕ → Option Bool
  pub running : List ℕ
  pub cleaning : List (ℕ × Phase)
  pub accepting : Option (ℕ × Stage)

-- What `close(fd)` does in the kernel.
abbrev pub close_fd : ℕ → Loop → Loop
close_fd fd l = record l { is_open = update l.is_open fd false; epoll = update l.epoll fd none }

abbrev pub close_all : List ℕ → Loop → Loop
close_all [] l = l
close_all (fd ∷ fds) l = close_all fds (close_fd fd l)

-- The descriptors that an operation on the sessions closes are closed.
abbrev pub with_tcp : Tcp → Loop → Loop
with_tcp t l = close_all (drop (length l.tcp.closed) t.closed) (record l { tcp = t })

-- `accept`
abbrev pub accept_client : ℕ → Loop → Loop
accept_client fd l = record l { is_open = update l.is_open fd true; accepting = some (fd, got) }

-- The calls that follow in `acceptConnection`.
abbrev pub accept_next : ℕ → ℕ → Stage → Loop → Loop
accept_next now fd got l = record l {
  tcp = create_session fd l.tcp;
  accepting = some (fd, created);
}
accept_next now fd created l = record l {
  epoll = update l.epoll fd (some true);
  accepting = some (fd, added);
}
accept_next now fd added l = record l { tcp = add_timer now fd 60 l.tcp; accepting = none }

-- An event of a connection, which is disarmed by it: the timer, and the task for the pool.
abbrev pub on_event : ℕ → ℕ → Loop → Loop
on_event now fd l = record l {
  tcp = add_timer now fd 60 l.tcp;
  epoll = update l.epoll fd (some false);
  running = l.running ++ fd ∷ [];
}

-- `EPOLL_CTL_MOD`, which fails for a descriptor that is not in the list.
abbrev pub modify : ℕ → (ℕ → Option Bool) → ℕ → Option Bool
modify fd epoll = elim (epoll fd) [ none ↦ epoll | some b ↦ update epoll fd (some true) ]

-- A task whose `onMessage_` returned true.
abbrev pub keep_alive : ℕ → List ℕ → Loop → Loop
keep_alive fd rest l = record l { epoll = modify fd l.epoll; running = rest }

-- The first call of `cleanConnection(client_fd)` in `onMessage_`.
abbrev pub hang_up : ℕ → List ℕ → Loop → Loop
hang_up fd rest l = record l {
  tcp = remove_session fd l.tcp;
  running = rest;
  cleaning = (fd, hanging) ∷ l.cleaning;
}

-- `if (!session) return false;` in `onMessage_`
abbrev pub miss_session : ℕ → List ℕ → Loop → Loop
miss_session fd rest l = record l { running = rest; cleaning = (fd, returned) ∷ l.cleaning }

-- `close(fd)` of a task.
abbrev pub close_call : ℕ → Loop → Loop
close_call fd l = close_fd fd (record l { tcp = record l.tcp { closed = l.tcp.closed ++ fd ∷ [] } })

-- The next call of a task that is to end.
abbrev pub clean_call : ℕ → Phase → Loop → Loop
clean_call fd hanging l = close_call fd l
clean_call fd returned l = l
clean_call fd tested l = record l { epoll = update l.epoll fd none }
clean_call fd deleted l = record l { tcp = cancel_timer fd l.tcp }
clean_call fd cancelled l = record l { tcp = remove_session fd l.tcp }
clean_call fd removed l = close_call fd l

-- Where the task is after that call, if it has not ended.
abbrev pub clean_next : ℕ → Phase → Tcp → List (ℕ × Phase)
clean_next fd hanging t = (fd, returned) ∷ []
clean_next fd returned t = if has_session fd t then (fd, tested) ∷ [] else []
clean_next fd tested t = (fd, deleted) ∷ []
clean_next fd deleted t = (fd, cancelled) ∷ []
clean_next fd cancelled t = (fd, removed) ∷ []
clean_next fd removed t = []

abbrev pub clean_step : ℕ → Phase → List (ℕ × Phase) → List (ℕ × Phase) → Loop → Loop
clean_step fd p xs ys l = record (clean_call fd p l) {
  cleaning = xs ++ (clean_next fd p l.tcp ++ ys);
}

-- `timerMgr_.handleTimeouts(…)`
abbrev pub time_out : ℕ → Loop → Loop
time_out now l = with_tcp (handle_timeouts now l.tcp) l

pub data Step (l r : Loop) : Type 0 where
  accepted :
      (fd : ℕ)
      → l.accepting ≡ none
      → ltb fd max_fd ≡ true
      → l.is_open fd ≡ false
      → r ≡ accept_client fd l
      → Step l r
  accepts :
      (now fd : ℕ) (stage : Stage)
      → l.accepting ≡ some (fd, stage)
      → r ≡ accept_next now fd stage l
      → Step l r
  ready :
      (now fd : ℕ) → l.accepting ≡ none → l.epoll fd ≡ some true → r ≡ on_event now fd l → Step l r
  kept :
      (fd : ℕ) (xs ys : List ℕ)
      → l.running ≡ xs ++ fd ∷ ys
      → r ≡ keep_alive fd (xs ++ ys) l
      → Step l r
  hung_up :
      (fd : ℕ) (xs ys : List ℕ) → l.running ≡ xs ++ fd ∷ ys → r ≡ hang_up fd (xs ++ ys) l → Step l r
  missed :
      (fd : ℕ) (xs ys : List ℕ)
      → l.running ≡ xs ++ fd ∷ ys
      → has_session fd l.tcp ≡ true
      → r ≡ miss_session fd (xs ++ ys) l
      → Step l r
  cleaned :
      (fd : ℕ) (p : Phase) (xs ys : List (ℕ × Phase))
      → l.cleaning ≡ xs ++ (fd, p) ∷ ys
      → r ≡ clean_step fd p xs ys l
      → Step l r
  timed_out : (now : ℕ) → l.accepting ≡ none → r ≡ time_out now l → Step l r

-- No connection yet.
abbrev pub idle : Loop
idle = record {
  tcp = record { sessions = []; heap = []; table = []; closed = [] };
  is_open = λ fd. false;
  epoll = λ fd. none;
  running = [];
  cleaning = [];
  accepting = none;
}

pub data Reach : Loop → Type 0 where
  started : Reach idle
  stepped : {l r : Loop} → Reach l → Step l r → Reach r

-- Whether a task has an entry of some kind among those that are to end.
abbrev pub some_entry : (ℕ × Phase → Bool) → List (ℕ × Phase) → Bool
some_entry test [] = false
some_entry test (e ∷ es) = if test e then true else some_entry test es

-- A task for the descriptor is to end.
abbrev pub pending : ℕ → List (ℕ × Phase) → Bool
pending fd = some_entry λ e. e.0 == fd

-- The kernel gives out no descriptor that a task is still cleaning up.
abbrev pub NoReuseStep : (l r : Loop) → Step l r → Type 0
NoReuseStep l r (accepted fd free small shut e) = pending fd l.cleaning ≡ false
NoReuseStep l r _ = Unit

abbrev pub NoReuse : (l : Loop) → Reach l → Type 0
NoReuse l started = Unit
NoReuse l (stepped p q) = NoReuse _ p × NoReuseStep _ l q
