-- ===== src/Tcp/Loop/Served.antt =====
-- What the states of the event loop of src/server/TcpServer.cpp keep true.
use exchange_server.Prelude.{
  ℕ, ◌+◌, ◌==◌, ==_iff, Bool, true, false, ◌&&◌, ◌||◌, not, Option, none, some, List, [], ◌∷◌, ◌++◌,
  count, ltb, ◌≡◌, refl, subst, arith, Bool-cases, inl, inr,
}
use exchange_server.Tcp.{max_fd, has_session, remove_session}
use exchange_server.Tcp.Closes.{clean_connection-others}
use exchange_server.Tcp.Loop.{
  Loop, Stage, got, created, added, Phase, hanging, some_entry, pending, update, close_fd,
}

abbrev pub armed : Option Bool → ℕ
armed none = 0
armed (some false) = 0
armed (some true) = 1

abbrev pub bit : Bool → ℕ
bit false = 0
bit true = 1

-- The descriptor is being accepted, and is not in the list of `epoll` yet.
abbrev pub entering : ℕ → Option (ℕ × Stage) → ℕ
entering fd none = 0
entering fd (some (f, got)) = bit (f == fd)
entering fd (some (f, created)) = bit (f == fd)
entering fd (some (f, added)) = 0

-- The descriptor is being accepted, and has no session yet.
abbrev pub fresh : ℕ → Option (ℕ × Stage) → Bool
fresh fd none = false
fresh fd (some (f, got)) = f == fd
fresh fd (some (f, created)) = false
fresh fd (some (f, added)) = false

-- The entry of a task that has closed the descriptor once.
abbrev has_closed : Phase → Bool
has_closed hanging = false
has_closed _ = true

abbrev pub ended : ℕ → List (ℕ × Phase) → Bool
ended fd = some_entry λ e. (e.0 == fd) && has_closed e.1

-- An open connection that no task is cleaning up.
abbrev pub live : ℕ → Loop → Bool
live fd l = l.is_open fd && not (pending fd l.cleaning)

pub record Served (l : Loop) : Type 0 where
  pub once :
      (fd : ℕ) → count fd l.running + armed (l.epoll fd) + entering fd l.accepting ≡ bit (live fd l)
  pub listed :
      (fd : ℕ) → live fd l ≡ true → entering fd l.accepting ≡ 0 → (b : Bool) × (l.epoll fd ≡ some b)
  pub session :
      (fd : ℕ) → live fd l ≡ true → fresh fd l.accepting ≡ false → has_session fd l.tcp ≡ false
  pub shut : (fd : ℕ) → ended fd l.cleaning ≡ true → l.is_open fd ≡ false
  pub small : (fd : ℕ) → fresh fd l.accepting ≡ true → ltb fd max_fd ≡ true

pub some_entry-append :
    (test : ℕ × Phase → Bool) (xs ys : List (ℕ × Phase))
    → some_entry test (xs ++ ys) ≡ (some_entry test xs || some_entry test ys)
some_entry-append test [] ys = refl
some_entry-append test (x ∷ xs) ys = elim (Bool-cases (test x)) [
  | inl e ↦ rw e refl
  | inr e ↦ rw e (some_entry-append test xs ys)
]

pub ended_pending : (x : ℕ) (es : List (ℕ × Phase)) → ended x es ≡ true → pending x es ≡ false → ⊥
ended_pending x [] h k = ground (arith, h)
ended_pending x (e ∷ es) h k = elim (Bool-cases (e.0 == x)) [
  | inl hit ↦ ground (arith, hit, k)
  | inr miss ↦ ended_pending x es (ground (arith, miss, h)) (ground (arith, miss, k))
]

-- A descriptor that is not entering has a session already.
pub fresh_lem : (fd : ℕ) (a : Option (ℕ × Stage)) → entering fd a ≡ 0 → fresh fd a ≡ false
fresh_lem fd none h = refl
fresh_lem fd (some (f, got)) h = ground (arith, h)
fresh_lem fd (some (f, created)) h = refl
fresh_lem fd (some (f, added)) h = refl

-- What happens to a descriptor that is not live.
module _ (fd : ℕ) (l : Loop) (s : Served l) (dead : live fd l ≡ false) where
  dead_at : (x : ℕ) → (fd == x) ≡ true → live x l ≡ false
  dead_at x e = subst (λ y. live y l ≡ false) ((==_iff fd x).0 e) dead

  pub close_fd-Served : Served (close_fd fd l)
  close_fd-Served = record {
    once = λ x. elim (Bool-cases (fd == x)) [
      | inl e ↦ ground (arith, e, s.once x, dead_at x e)
      | inr e ↦ ground (arith, e, s.once x)
    ];
    listed = λ x h en. elim (Bool-cases (fd == x)) [
      | inl e ↦ absurd (ground (arith, e, h))
      | inr e ↦ let (b, k) = s.listed x (ground (arith, h, e)) en in (b, ground (arith, e, k))
    ];
    session = λ x h f. elim (Bool-cases (fd == x)) [
      | inl e ↦ absurd (ground (arith, e, h))
      | inr e ↦ s.session x (ground (arith, h, e)) f
    ];
    shut = λ x h. elim (Bool-cases (fd == x)) [
      | inl e ↦ ground (arith, e)
      | inr e ↦ ground (arith, e, s.shut x h)
    ];
    small = s.small;
  }

  pub delete-Served : Served (record l { epoll = update l.epoll fd none })
  delete-Served = record {
    once = λ x. elim (Bool-cases (fd == x)) [
      | inl e ↦ ground (arith, e, s.once x, dead_at x e)
      | inr e ↦ ground (arith, e, s.once x)
    ];
    listed = λ x h en. elim (Bool-cases (fd == x)) [
      | inl e ↦ absurd (ground (arith, h, dead_at x e))
      | inr e ↦ let (b, k) = s.listed x h en in (b, ground (arith, e, k))
    ];
    session = s.session;
    shut = s.shut;
    small = s.small;
  }

  pub remove_session-Served : Served (record l { tcp = remove_session fd l.tcp })
  remove_session-Served = record {
    once = s.once;
    listed = s.listed;
    session = λ x h f. elim (Bool-cases (fd == x)) [
      | inl e ↦ absurd (ground (arith, h, dead_at x e))
      | inr e ↦ clean_connection-others fd x l.tcp e (s.session x h f)
    ];
    shut = s.shut;
    small = s.small;
  }
