-- ===== src/Tcp/Closes.antt =====
-- Which descriptors the clean-up and the timers of src/server/TcpServer.cpp close.
use exchange_server.Prelude.{
  ℕ, ◌==◌, ==_iff, true, false, List, [], ◌∷◌, ◌++◌, append-nil, append_assoc, ltb, ◌≡◌, refl, sym,
  ap, ◌∙◌, subst, arith, All, All-append, Bool-cases, inl, inr,
}
use exchange_server.Prelude.Map.{lookup_or, insert, erase, lookup-erase}
use exchange_server.Tcp.{
  Tcp, TimerNode, clean_connection, cancel_timer, do_cleanup, close_callback, run_timers,
  handle_timeouts, has_session,
}

-- What is closed has no session in the table, and the sessions that there are stay.
pub record Closes (t u : Tcp) : Type 0 where
  pub fds : List ℕ
  pub closed_eq : u.closed ≡ t.closed ++ fds
  pub absent : All (λ fd. has_session fd t ≡ true) fds
  pub kept : (x : ℕ) → has_session x t ≡ false → has_session x u ≡ false

-- Only the timers change.
Closes-same : (t u : Tcp) → u.closed ≡ t.closed → u.sessions ≡ t.sessions → Closes t u
Closes-same t u e f = record {
  fds = [];
  closed_eq = e ∙ sym (append-nil t.closed);
  absent = tt;
  kept = λ x h. ground (arith, h, f);
}

Closes-trans : (t u v : Tcp) → Closes t u → Closes u v → Closes t v
Closes-trans t u v c d = record {
  fds = c.fds ++ d.fds;
  closed_eq = d.closed_eq ∙ ap (λ cs. cs ++ d.fds) c.closed_eq ∙ append_assoc t.closed c.fds d.fds;
  absent = All-append _ c.fds d.fds c.absent (earlier d.fds d.absent);
  kept = λ x h. d.kept x (c.kept x h);
}
  where
    earlier :
        (fds : List ℕ)
        → All (λ fd. has_session fd u ≡ true) fds
        → All (λ fd. has_session fd t ≡ true) fds
    earlier [] h = tt
    earlier (fd ∷ fds) h = (
      elim (Bool-cases (has_session fd t)) [
        | inl e ↦ e
        | inr e ↦ absurd (ground (arith, h.0, c.kept fd e))
      ],
      earlier fds h.1,
    )

pub clean_connection-closed :
    (fd : ℕ) (t : Tcp) → (clean_connection fd t).closed ≡ t.closed ++ fd ∷ []
clean_connection-closed fd t = ground arith

pub clean_connection-others :
    (fd x : ℕ) (t : Tcp)
    → (fd == x) ≡ false
    → has_session x t ≡ false
    → has_session x (clean_connection fd t) ≡ false
clean_connection-others fd x t e h = ground (arith, e, h, lookup-erase fd x t.sessions)

pub do_cleanup-Closes : (fd : ℕ) (t : Tcp) → Closes t (do_cleanup fd t)
unfolding do_cleanup
do_cleanup-Closes fd t = elim (Bool-cases (has_session fd t)) [
  | inl e ↦
      rw (do_cleanup, e)
        (record {
          fds = fd ∷ [];
          closed_eq = clean_connection-closed fd (cancel_timer fd t);
          absent = (e, tt);
          kept = λ x h. elim (Bool-cases (fd == x)) [
            | inl i ↦
                let there = subst (λ y. has_session y t ≡ true) ((==_iff fd x).0 i) e in
                absurd (ground (arith, there, h))
            | inr i ↦ clean_connection-others fd x (cancel_timer fd t) i h
          ];
        })
  | inr e ↦ rw (do_cleanup, e) (Closes-same t t refl refl)
]

close_callback-Closes : (fd : ℕ) (t : Tcp) → Closes t (close_callback fd t)
close_callback-Closes fd t = elim (Bool-cases (has_session fd t)) [
  | inl e ↦ rw e (do_cleanup-Closes fd t)
  | inr e ↦ rw e (Closes-same t t refl refl)
]

run_timers-Closes : (now : ℕ) (ns : List TimerNode) (t : Tcp) → Closes t (run_timers now ns t)
unfolding run_timers
run_timers-Closes now [] t = Closes-same t _ refl refl
run_timers-Closes now (n ∷ ns) t =
    let armed = lookup_or 0 n.fd t.table in
    let c = close_callback n.fd t in
    let d = record c { table = erase n.fd c.table } in
    let v = record t { table = insert n.fd armed t.table } in
    let stale =
      Closes-trans t v (run_timers now ns v) (Closes-same t v refl refl)
        (run_timers-Closes now ns v) in
    let expired =
      Closes-trans t d (run_timers now ns d)
        (Closes-trans t c d (close_callback-Closes n.fd t) (Closes-same c d refl refl))
        (run_timers-Closes now ns d) in
    elim (Bool-cases (ltb now n.expire)) [
      | inl e ↦ rw (run_timers, e) (Closes-same t _ refl refl)
      | inr e ↦ elim (Bool-cases (n.expire == armed)) [
        | inl a ↦ rw (run_timers, e, a) expired
        | inr a ↦ rw (run_timers, e, a) stale
      ]
    ]

pub handle_timeouts-Closes : (now : ℕ) (t : Tcp) → Closes t (handle_timeouts now t)
unfolding handle_timeouts
handle_timeouts-Closes now t = run_timers-Closes now t.heap t
