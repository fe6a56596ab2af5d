-- ===== src/Tcp/Loop/Serving.antt =====
-- Accepting, events and tasks of src/server/TcpServer.cpp keep the connections served.
use exchange_server.Prelude.{
  ℕ, ◌+◌, ◌==◌, ==_iff, true, false, none, some, List, [], ◌∷◌, ◌++◌, count, count-append, ltb,
  if◌then◌else◌, ◌≡◌, refl, sym, ap, ◌∙◌, subst, arith, Bool-cases, inl, inr,
}
use exchange_server.Prelude.Map.{lookup-insert}
use exchange_server.Tcp.{max_fd, create_session, add_timer, has_session, new_session}
use exchange_server.Tcp.Closes.{clean_connection-others}
use exchange_server.Tcp.Loop.{
  Loop, got, created, added, pending, update, modify, accept_client, accept_next, on_event,
  keep_alive, hang_up,
}
use exchange_server.Tcp.Loop.Served.{Served, armed, entering, live, ended_pending, fresh_lem}

module _ (l : Loop) (s : Served l) where
  pub accept_client-Served :
      (fd : ℕ)
      → l.accepting ≡ none
      → ltb fd max_fd ≡ true
      → l.is_open fd ≡ false
      → pending fd l.cleaning ≡ false
      → Served (accept_client fd l)
  accept_client-Served fd free small closed unused = record {
    once = λ x. elim (Bool-cases (fd == x)) [
      | inl e ↦
          let closed_x = subst (λ y. l.is_open y ≡ false) ((==_iff fd x).0 e) closed in
          let unused_x = subst (λ y. pending y l.cleaning ≡ false) ((==_iff fd x).0 e) unused in
          ground (arith, e, s.once x, free, closed_x, unused_x)
      | inr e ↦ ground (arith, e, s.once x, free)
    ];
    listed = λ x h en. elim (Bool-cases (fd == x)) [
      | inl e ↦ absurd (ground (arith, e, en))
      | inr e ↦ s.listed x (ground (arith, h, e)) (ground (arith, free))
    ];
    session = λ x h f. elim (Bool-cases (fd == x)) [
      | inl e ↦ absurd (ground (arith, e, f))
      | inr e ↦ s.session x (ground (arith, h, e)) (ground (arith, free))
    ];
    shut = λ x h. elim (Bool-cases (fd == x)) [
      | inl e ↦
          let unused_x = subst (λ y. pending y l.cleaning ≡ false) ((==_iff fd x).0 e) unused in
          absurd (ended_pending x l.cleaning h unused_x)
      | inr e ↦ ground (arith, e, s.shut x h)
    ];
    small = λ x h. subst (λ y. ltb y max_fd ≡ true) ((==_iff fd x).0 h) small;
  }

  module _ (now fd : ℕ) where
    pub create_session-Served : l.accepting ≡ some (fd, got) → Served (accept_next now fd got l)
    unfolding create_session
    create_session-Served at =
        let small : ltb fd max_fd ≡ true = s.small fd (ground (arith, at)) in
        record {
          once = λ x. ground (arith, s.once x, at);
          listed = λ x h en. s.listed x h (ground (arith, en, at));
          session = λ x h f. elim (Bool-cases (fd == x)) [
            | inl e ↦ ground (arith, e, small, lookup-insert fd x new_session l.tcp.sessions)
            | inr e ↦ ground (
              arith,
              e,
              small,
              s.session x h (ground (arith, at, e)),
              lookup-insert fd x new_session l.tcp.sessions,
            )
          ];
          shut = s.shut;
          small = λ x h. absurd (ground (arith, h));
        }

    pub add_event-Served : l.accepting ≡ some (fd, created) → Served (accept_next now fd created l)
    add_event-Served at = record {
      once = λ x. elim (Bool-cases (fd == x)) [
        | inl e ↦ ground (arith, e, s.once x, at)
        | inr e ↦ ground (arith, e, s.once x, at)
      ];
      listed = λ x h en. elim (Bool-cases (fd == x)) [
        | inl e ↦ (true, ground (arith, e))
        | inr e ↦ let (b, k) = s.listed x h (ground (arith, at, e)) in (b, ground (arith, e, k))
      ];
      session = λ x h f. s.session x h (ground (arith, at));
      shut = s.shut;
      small = λ x h. absurd (ground (arith, h));
    }

    pub add_timer-Served : l.accepting ≡ some (fd, added) → Served (accept_next now fd added l)
    unfolding add_timer
    add_timer-Served at = record {
      once = λ x. ground (arith, s.once x, at);
      listed = λ x h en. s.listed x h (ground (arith, at));
      session = λ x h f. s.session x h (ground (arith, at));
      shut = s.shut;
      small = λ x h. absurd (ground (arith, h));
    }

    pub on_event-Served : l.epoll fd ≡ some true → Served (on_event now fd l)
    unfolding add_timer
    on_event-Served waits = record {
      once = λ x. elim (Bool-cases (fd == x)) [
        | inl e ↦
            let waits_x : l.epoll x ≡ some true =
              subst (λ y. l.epoll y ≡ some true) ((==_iff fd x).0 e) waits in
            ground (arith, s.once x, e, waits_x, count-append x l.running (fd ∷ []))
        | inr e ↦ ground (arith, s.once x, e, count-append x l.running (fd ∷ []))
      ];
      listed = λ x h en. elim (Bool-cases (fd == x)) [
        | inl e ↦ (false, ground (arith, e))
        | inr e ↦ let (b, k) = s.listed x h en in (b, ground (arith, e, k))
      ];
      session = s.session;
      shut = s.shut;
      small = s.small;
    }

  module _ (fd : ℕ) (xs ys : List ℕ) (among : l.running ≡ xs ++ fd ∷ ys) where
    task_count : (x : ℕ) → count x l.running ≡ (if fd == x then 1 else 0) + count x (xs ++ ys)
    task_count x =
        ap (count x) among ∙ omega (arith, count-append x xs (fd ∷ ys), count-append x xs ys)

    -- The task is one of those that run, so that its connection is live.
    live_lem : live fd l ≡ true
    live_lem = elim (Bool-cases (live fd l)) [
      | inl e ↦ e
      | inr e ↦ absurd (ground (arith, e, s.once fd, task_count fd))
    ]

    -- No event of its connection is armed, and no other task runs for it.
    alone : (count fd (xs ++ ys) ≡ 0) × (armed (l.epoll fd) ≡ 0) × (entering fd l.accepting ≡ 0)
    alone = ground (arith, s.once fd, task_count fd, live_lem)

    -- Its connection has its session.
    pub task_session : has_session fd l.tcp ≡ false
    task_session = s.session fd live_lem (fresh_lem fd l.accepting alone.2)

    modified : modify fd l.epoll ≡ update l.epoll fd (some true)
    modified = let (b, k) = s.listed fd live_lem alone.2 in rw (modify, k) refl

    alone_at :
        (x : ℕ)
        → (fd == x) ≡ true
        → (count x (xs ++ ys) ≡ 0) × (armed (l.epoll x) ≡ 0) × (entering x l.accepting ≡ 0)
    alone_at x e =
        subst
          (λ y. (count y (xs ++ ys) ≡ 0) × (armed (l.epoll y) ≡ 0) × (entering y l.accepting ≡ 0))
          ((==_iff fd x).0 e) alone

    pub keep_alive-Served : Served (keep_alive fd (xs ++ ys) l)
    keep_alive-Served =
        subst (λ epoll. Served (record l { epoll = epoll; running = xs ++ ys })) (sym modified)
          (record {
            once = λ x. elim (Bool-cases (fd == x)) [
              | inl e ↦
                  let live_x = subst (λ y. live y l ≡ true) ((==_iff fd x).0 e) live_lem in
                  let a = alone_at x e in ground (arith, e, a.0, a.2, live_x)
              | inr e ↦ ground (arith, e, s.once x, task_count x)
            ];
            listed = λ x h en. elim (Bool-cases (fd == x)) [
              | inl e ↦ (true, ground (arith, e))
              | inr e ↦ let (b, k) = s.listed x h en in (b, ground (arith, e, k))
            ];
            session = s.session;
            shut = s.shut;
            small = s.small;
          })

    pub hang_up-Served : Served (hang_up fd (xs ++ ys) l)
    hang_up-Served = record {
      once = λ x. elim (Bool-cases (fd == x)) [
        | inl e ↦ let a = alone_at x e in ground (arith, e, a.0, a.1, a.2)
        | inr e ↦ ground (arith, e, s.once x, task_count x)
      ];
      listed = λ x h en. elim (Bool-cases (fd == x)) [
        | inl e ↦ absurd (ground (arith, e, h))
        | inr e ↦ s.listed x (ground (arith, e, h)) en
      ];
      session = λ x h f. elim (Bool-cases (fd == x)) [
        | inl e ↦ absurd (ground (arith, e, h))
        | inr e ↦ clean_connection-others fd x l.tcp e (s.session x (ground (arith, e, h)) f)
      ];
      shut = λ x h. s.shut x (ground (arith, h));
      small = s.small;
    }
