-- ===== src/Tcp/Loop/Cleaning.antt =====
-- The clean-up of src/server/TcpServer.cpp, call by call, and its time-outs keep the connections served.
use exchange_server.Prelude.{
  ℕ, ◌==◌, ==_iff, Bool, true, false, ◌&&◌, ◌||◌, not, none, List, [], ◌∷◌, ◌++◌, length,
  if◌then◌else◌, ◌≡◌, refl, sym, ap, ◌∙◌, subst, arith, All, Bool-cases, inl, inr,
}
use exchange_server.Prelude.Bytes.{drop, drop-length}
use exchange_server.Tcp.{Tcp, has_session}
use exchange_server.Tcp.Closes.{Closes}
use exchange_server.Tcp.Loop.{
  Loop, Phase, hanging, returned, tested, deleted, cancelled, removed, some_entry, pending,
  close_fd, close_all, with_tcp, close_call, clean_call, clean_next, clean_step,
}
use exchange_server.Tcp.Loop.Served.{
  Served, bit, live, ended, some_entry-append, close_fd-Served, delete-Served,
  remove_session-Served,
}

-- Other entries of the descriptor, or none, in place of one, when the descriptor is closed.
module _ (l : Loop) (s : Served l) (fd : ℕ) (p : Phase) (xs ys zs : List (ℕ × Phase))
    (among : l.cleaning ≡ xs ++ (fd, p) ∷ ys) (closed : l.is_open fd ≡ false)
    (own : (x : ℕ) → (fd == x) ≡ false → (pending x zs ≡ false) × (ended x zs ≡ false)) where
  entries_same :
      (test : ℕ × Phase → Bool)
      → test (fd, p) ≡ false
      → some_entry test zs ≡ false
      → some_entry test (xs ++ (zs ++ ys)) ≡ some_entry test l.cleaning
  entries_same test h k =
      let before : some_entry test l.cleaning ≡ (some_entry test xs || some_entry test ys) =
        ap (some_entry test) among
        ∙ some_entry-append test xs ((fd, p) ∷ ys)
        ∙ ap (λ (b : Bool). some_entry test xs || (if b then true else some_entry test ys)) h in
      some_entry-append test xs (zs ++ ys)
      ∙ ap (λ b. some_entry test xs || b)
          (some_entry-append test zs ys ∙ ap (λ b. b || some_entry test ys) k)
      ∙ sym before

  pub replaced-Served : Served (record l { cleaning = xs ++ (zs ++ ys) })
  replaced-Served = record {
    once = λ x. s.once x ∙ ap bit (sym (live_same x));
    listed = λ x h en. s.listed x (sym (live_same x) ∙ h) en;
    session = λ x h f. s.session x (sym (live_same x) ∙ h) f;
    shut = λ x h. elim (Bool-cases (fd == x)) [
      | inl e ↦ subst (λ y. l.is_open y ≡ false) ((==_iff fd x).0 e) closed
      | inr e ↦ s.shut x (sym (entries_same _ (ground (arith, e)) (own x e).1) ∙ h)
    ];
    small = s.small;
  }
    where
      live_same : (x : ℕ) → live x (record l { cleaning = xs ++ (zs ++ ys) }) ≡ live x l
      live_same x = elim (Bool-cases (fd == x)) [
        | inl e ↦
            let closed_x = subst (λ y. l.is_open y ≡ false) ((==_iff fd x).0 e) closed in
            ground (arith, closed_x)
        | inr e ↦ ap (λ b. l.is_open x && not b) (entries_same _ e (own x e).0)
      ]

module _ (l : Loop) (s : Served l) (fd : ℕ) (xs ys : List (ℕ × Phase)) where
  abbrev Entry : Phase → Type 0
  Entry p = l.cleaning ≡ xs ++ (fd, p) ∷ ys

  pending_lem : (p : Phase) → Entry p → live fd l ≡ false
  pending_lem p among =
      let h : pending fd l.cleaning ≡ true =
        ap (pending fd) among
        ∙ some_entry-append (λ e. e.0 == fd) xs ((fd, p) ∷ ys)
        ∙ ground arith in
      ground (arith, h)

  -- The call of a task whose descriptor is closed by then.
  clean-Served :
      (p : Phase)
      → Entry p
      → Served (clean_call fd p l)
      → (clean_call fd p l).is_open fd ≡ false
      → (clean_call fd p l).cleaning ≡ l.cleaning
      → Served (clean_step fd p xs ys l)
  clean-Served p among after closed same =
      replaced-Served (clean_call fd p l) after fd p xs ys (clean_next fd p l.tcp) (same ∙ among)
        closed (own p)
    where
      own :
          (p : Phase) (x : ℕ)
          → (fd == x) ≡ false
          → (pending x (clean_next fd p l.tcp) ≡ false) × (ended x (clean_next fd p l.tcp) ≡ false)
      own hanging x e = ground (arith, e)
      own returned x e = ground (arith, e)
      own tested x e = ground (arith, e)
      own deleted x e = ground (arith, e)
      own cancelled x e = ground (arith, e)
      own removed x e = ground (arith, e)

  shut_lem : (p : Phase) → Entry p → ended fd ((fd, p) ∷ []) ≡ true → l.is_open fd ≡ false
  shut_lem p among h =
      s.shut fd (ap (ended fd) among ∙ some_entry-append _ xs ((fd, p) ∷ ys) ∙ ground (arith, h))

  close_call-Served : (p : Phase) → Entry p → Served (close_call fd l)
  close_call-Served p among =
      close_fd-Served fd (record l { tcp = record l.tcp { closed = l.tcp.closed ++ fd ∷ [] } })
        (record {
          once = s.once;
          listed = s.listed;
          session = s.session;
          shut = s.shut;
          small = s.small;
        })
        (pending_lem p among)

  pub clean_step-Served : (p : Phase) → Entry p → Served (clean_step fd p xs ys l)
  clean_step-Served hanging among =
      clean-Served hanging among (close_call-Served hanging among) (ground arith) refl
  clean_step-Served returned among =
      clean-Served returned among s (shut_lem returned among (ground arith)) refl
  clean_step-Served tested among =
      clean-Served tested among (delete-Served fd l s (pending_lem tested among))
        (shut_lem tested among (ground arith)) refl
  clean_step-Served deleted among =
      clean-Served deleted among
        (record {
          once = s.once;
          listed = s.listed;
          session = s.session;
          shut = s.shut;
          small = s.small;
        })
        (shut_lem deleted among (ground arith)) refl
  clean_step-Served cancelled among =
      clean-Served cancelled among (remove_session-Served fd l s (pending_lem cancelled among))
        (shut_lem cancelled among (ground arith)) refl
  clean_step-Served removed among =
      clean-Served removed among (close_call-Served removed among) (ground arith) refl

with_tcp_lem :
    (l : Loop) (t : Tcp) (fds : List ℕ)
    → t.closed ≡ l.tcp.closed ++ fds
    → with_tcp t l ≡ close_all fds (record l { tcp = t })
with_tcp_lem l t fds e =
    ap (λ cs. close_all (drop (length l.tcp.closed) cs) (record l { tcp = t })) e
    ∙ ap (λ cs. close_all cs (record l { tcp = t })) (drop-length l.tcp.closed fds)

close_all-Served :
    (fds : List ℕ) (l : Loop)
    → Served l
    → All (λ fd. live fd l ≡ false) fds
    → Served (close_all fds l)
close_all-Served [] l s h = s
close_all-Served (fd ∷ fds) l s h =
    close_all-Served fds (close_fd fd l) (close_fd-Served fd l s h.0) (still fds h.1)
  where
    still :
        (xs : List ℕ)
        → All (λ x. live x l ≡ false) xs
        → All (λ x. live x (close_fd fd l) ≡ false) xs
    still [] k = tt
    still (x ∷ xs) k = (ground (arith, k.0), still xs k.1)

-- Closing what has no session changes no live connection, while none is being accepted.
pub Closes-Served :
    (l : Loop) (t : Tcp) → Served l → l.accepting ≡ none → Closes l.tcp t → Served (with_tcp t l)
Closes-Served l t s free c = subst Served (sym (with_tcp_lem l t c.fds c.closed_eq)) (
    close_all-Served c.fds (record l { tcp = t })
      (record {
        once = s.once;
        listed = s.listed;
        session = λ x h f. c.kept x (s.session x h f);
        shut = s.shut;
        small = s.small;
      })
      (dead c.fds c.absent))
  where
    dead :
        (fds : List ℕ)
        → All (λ fd. has_session fd l.tcp ≡ true) fds
        → All (λ fd. live fd l ≡ false) fds
    dead [] h = tt
    dead (fd ∷ fds) h = (
      elim (Bool-cases (live fd l)) [
        | inl e ↦ absurd (ground (arith, h.0, s.session fd e (ground (arith, free))))
        | inr e ↦ e
      ],
      dead fds h.1,
    )
