-- ===== src/Tcp/Loop/Turns.antt =====
-- Each connection of src/server/TcpServer.cpp is waited for or served, and by one task.
use exchange_server.Prelude.{refl, sym, subst, arith}
use exchange_server.Tcp.{handle_timeouts}
use exchange_server.Tcp.Closes.{handle_timeouts-Closes}
use exchange_server.Tcp.Loop.{
  Loop, got, created, added, Step, Reach, started, stepped, accepted, accepts, ready, kept, hung_up,
  missed, cleaned, timed_out, NoReuse, NoReuseStep,
}
use exchange_server.Tcp.Loop.Served.{Served}
use exchange_server.Tcp.Loop.Serving.{
  accept_client-Served, create_session-Served, add_event-Served, add_timer-Served, on_event-Served,
  task_session, keep_alive-Served, hang_up-Served,
}
use exchange_server.Tcp.Loop.Cleaning.{clean_step-Served, Closes-Served}

Step-Served : (l r : Loop) (q : Step l r) → NoReuseStep l r q → Served l → Served r
Step-Served l r (accepted fd free small shut e) unused s =
    subst Served (sym e) (accept_client-Served l s fd free small shut unused)
Step-Served l r (accepts now fd got at e) n s =
    subst Served (sym e) (create_session-Served l s now fd at)
Step-Served l r (accepts now fd created at e) n s =
    subst Served (sym e) (add_event-Served l s now fd at)
Step-Served l r (accepts now fd added at e) n s =
    subst Served (sym e) (add_timer-Served l s now fd at)
Step-Served l r (ready now fd free waits e) n s =
    subst Served (sym e) (on_event-Served l s now fd waits)
Step-Served l r (kept fd xs ys among e) n s =
    subst Served (sym e) (keep_alive-Served l s fd xs ys among)
Step-Served l r (hung_up fd xs ys among e) n s =
    subst Served (sym e) (hang_up-Served l s fd xs ys among)
Step-Served l r (missed fd xs ys among gone e) n s =
    absurd (ground (arith, gone, task_session l s fd xs ys among))
Step-Served l r (cleaned fd p xs ys among e) n s =
    subst Served (sym e) (clean_step-Served l s fd xs ys p among)
Step-Served l r (timed_out now free e) n s =
    subst Served (sym e)
      (Closes-Served l (handle_timeouts now l.tcp) s free (handle_timeouts-Closes now l.tcp))

-- In every state that the loop, the threads and the time-outs reach, in any order of their calls, in
-- which `accept` has given out no descriptor that a task was still cleaning up: each connection that is
-- open and that no task is cleaning up is being accepted, or waited for by one armed event, or served by
-- one running task, exactly one of the three, and any other descriptor by none; the session that it was
-- given and its place in the list of `epoll` are there; and a descriptor that a task has closed and is
-- still cleaning up is not open.
pub Reach-Served : (l : Loop) (p : Reach l) → NoReuse l p → Served l
Reach-Served l started n = record {
  once = λ fd. refl;
  listed = λ fd h en. absurd (ground (arith, h));
  session = λ fd h f. absurd (ground (arith, h));
  shut = λ fd h. refl;
  small = λ fd h. absurd (ground (arith, h));
}
Reach-Served l (stepped p q) n = Step-Served _ l q n.1 (Reach-Served _ p n.0)
