-- ===== src/Tcp/Idle.antt =====
-- What the idle timers of src/server/TcpServer.cpp do to the sessions.
use exchange_server.Prelude.{
  ℕ, some, List, [], ◌∷◌, ltb, ◌==◌, ◌≡◌, arith, Bool-cases, Option-cases, inl, inr, ==_iff,
}
use exchange_server.Prelude.Map.{lookup, lookup_or, insert, erase, lookup-erase}
use exchange_server.Handlers.{Session}
use exchange_server.Tcp.{TimerNode, Tcp, close_callback, do_cleanup, run_timers, handle_timeouts}

close_callback-keeps :
    (n fd : ℕ) (s : Session) (t : Tcp)
    → lookup fd t.sessions ≡ some s
    → lookup fd (close_callback n t).sessions ≡ some s
unfolding do_cleanup
close_callback-keeps n fd s t h = elim (Option-cases (lookup n t.sessions)) [
  | inl e ↦ ground (arith, h, e, lookup-erase n fd t.sessions, ==_iff n fd)
  | inr (r, e) ↦ ground (arith, h, e)
]

run_timers-keeps :
    (now fd : ℕ) (s : Session) (ns : List TimerNode) (t : Tcp)
    → lookup fd t.sessions ≡ some s
    → lookup fd (run_timers now ns t).sessions ≡ some s
unfolding run_timers
run_timers-keeps now fd s [] t h = h
run_timers-keeps now fd s (n ∷ ns) t h =
    let c = close_callback n.fd t in
    let stale =
      run_timers-keeps now fd s ns
        (record t { table = insert n.fd (lookup_or 0 n.fd t.table) t.table }) h in
    let expired =
      run_timers-keeps now fd s ns (record c { table = erase n.fd c.table })
        (close_callback-keeps n.fd fd s t h) in
    elim (Bool-cases (ltb now n.expire)) [
      | inl e ↦ rw (run_timers, e) h
      | inr e ↦ elim (Bool-cases (n.expire == lookup_or 0 n.fd t.table)) [
        | inl a ↦ rw (run_timers, e, a) expired
        | inr a ↦ rw (run_timers, e, a) stale
      ]
    ]

-- The time-outs close no live session: each session that is there before them is there after them,
-- at any time and with any timers.
pub handle_timeouts-keeps :
    (now fd : ℕ) (s : Session) (t : Tcp)
    → lookup fd t.sessions ≡ some s
    → lookup fd (handle_timeouts now t).sessions ≡ some s
unfolding handle_timeouts
handle_timeouts-keeps now fd s t h = run_timers-keeps now fd s t.heap t h
