-- ===== src/ThreadPool/Drained.antt =====
-- The threads of include/ThreadPool.hpp run every task that was submitted, in order, before they end.
use exchange_server.Prelude.{
  ℕ, zero, suc, ◌+◌, ◌-◌, ◌*◌, ◌<◌, if◌then◌else◌, not, ◌&&◌, Bool, true, false, Option, none, some,
  List, [], ◌∷◌, ◌++◌, length, length-append, append-nil, append_assoc, ◌≡◌, refl, sym, ◌∙◌, ap,
  subst, arith, Bool-cases, ◌⊎◌, inl, inr,
}
use exchange_server.ThreadPool.{
  Threads, enqueue, run_task, after_dequeue, work_on, stop, send_null, Reach, fresh, submit, work,
  halt, send,
}

-- Tasks, and then so many empty ones.
queue_of : List ℕ → ℕ → List (Option ℕ)
queue_of [] zero = []
queue_of [] (suc k) = none ∷ queue_of [] k
queue_of (t ∷ ts) k = some t ∷ queue_of ts k

queue_of-submit : (ts : List ℕ) (t : ℕ) → queue_of ts 0 ++ some t ∷ [] ≡ queue_of (ts ++ t ∷ []) 0
unfolding queue_of
queue_of-submit [] t = refl
queue_of-submit (u ∷ ts) t = ap (λ q. some u ∷ q) (queue_of-submit ts t)

queue_of-null : (ts : List ℕ) (k : ℕ) → queue_of ts k ++ none ∷ [] ≡ queue_of ts (suc k)
unfolding queue_of
queue_of-null [] zero = refl
queue_of-null [] (suc k) = ap (λ q. none ∷ q) (queue_of-null [] k)
queue_of-null (t ∷ ts) k = ap (λ q. some t ∷ q) (queue_of-null ts k)

length-queue_of : (ts : List ℕ) (k : ℕ) → length (queue_of ts k) ≡ length ts + k
unfolding queue_of
length-queue_of [] zero = refl
length-queue_of [] (suc k) = omega (arith, length-queue_of [] k)
length-queue_of (t ∷ ts) k = omega (arith, length-queue_of ts k)

record Ordered (n : ℕ) (all : List ℕ) (p : Threads) : Type 0 where
  waiting : List ℕ
  nulls : ℕ
  workers_eq : p.workers ≡ n
  tasks_eq : p.tasks ≡ queue_of waiting nulls
  all_eq : all ≡ p.ran ++ waiting
  manned : p.running ≡ true → (p.alive ≡ n) × (p.unsent ≡ 0) × (nulls ≡ 0)
  leaving : p.running ≡ false → p.alive ≡ nulls + p.unsent
  early : p.alive < n → waiting ≡ []

after_dequeue-task : (t : ℕ) (p : Threads) → after_dequeue (some t) p ≡ run_task (some t) p
after_dequeue-task t p = on p.running
  where
    on :
        (b : Bool)
        → (if not b && false then record p { alive = p.alive - 1 } else run_task (some t) p)
          ≡ run_task (some t) p
    on true = refl
    on false = refl

after_dequeue-null :
    (p : Threads) → p.running ≡ false → after_dequeue none p ≡ record p { alive = p.alive - 1 }
after_dequeue-null p h = ap (λ b. if not b && true then record p { alive = p.alive - 1 } else p) h

module _ (n : ℕ) where
  submit-Ordered :
      (all : List ℕ) (p : Threads) (t : ℕ)
      → Ordered n all p
      → p.running ≡ true
      → Ordered n (all ++ t ∷ []) (enqueue (some t) p)
  submit-Ordered all p t o e = record {
    waiting = o.waiting ++ t ∷ [];
    nulls = 0;
    workers_eq = o.workers_eq;
    tasks_eq =
        ap (λ q. q ++ some t ∷ []) (o.tasks_eq ∙ ap (queue_of o.waiting) (o.manned e).2)
        ∙ queue_of-submit o.waiting t;
    all_eq = ap (λ ts. ts ++ t ∷ []) o.all_eq ∙ append_assoc p.ran o.waiting (t ∷ []);
    manned = λ h. ((o.manned e).0, (o.manned e).1, refl);
    leaving = λ h. ground (arith, e, h);
    early = λ h. ground (arith, h, (o.manned e).0);
  }

  work-Ordered :
      (all : List ℕ) (p : Threads)
      → Ordered n all p
      → 0 < p.alive
      → 0 < length p.tasks
      → Ordered n all (work_on p.tasks p)
  unfolding queue_of
  work-Ordered all p o a l =
      subst (λ q. Ordered n all (work_on q p)) (sym o.tasks_eq)
        (on o.waiting o.nulls (ap length o.tasks_eq) o.all_eq o.manned o.leaving o.early)
    where
      on :
          (ts : List ℕ) (k : ℕ)
          → length p.tasks ≡ length (queue_of ts k)
          → all ≡ p.ran ++ ts
          → (p.running ≡ true → (p.alive ≡ n) × (p.unsent ≡ 0) × (k ≡ 0))
          → (p.running ≡ false → p.alive ≡ k + p.unsent)
          → (p.alive < n → ts ≡ [])
          → Ordered n all (work_on (queue_of ts k) p)
      on [] zero e f m v w = ground (arith, l, e)
      on [] (suc k) e f m v w = elim (Bool-cases p.running) [
        | inl h ↦ ground (arith, (m h).2)
        | inr h ↦
            subst (Ordered n all) (sym (after_dequeue-null (record p { tasks = queue_of [] k }) h))
              (record {
                waiting = [];
                nulls = k;
                workers_eq = o.workers_eq;
                tasks_eq = refl;
                all_eq = f;
                manned = λ e. ground (arith, h, e);
                leaving = λ e. omega (arith, v h);
                early = λ e. refl;
              })
      ]
      on (t ∷ ts) k e f m v w =
          subst (Ordered n all) (sym (after_dequeue-task t (record p { tasks = queue_of ts k })))
            (record {
              waiting = ts;
              nulls = k;
              workers_eq = o.workers_eq;
              tasks_eq = refl;
              all_eq = f ∙ sym (append_assoc p.ran (t ∷ []) ts);
              manned = m;
              leaving = v;
              early = λ h. ground (arith, ap length (w h));
            })

  stop-Ordered :
      (all : List ℕ) (p : Threads) → Ordered n all p → p.running ≡ true → Ordered n all (stop p)
  stop-Ordered all p o e = record {
    waiting = o.waiting;
    nulls = 0;
    workers_eq = o.workers_eq;
    tasks_eq = o.tasks_eq ∙ ap (queue_of o.waiting) (o.manned e).2;
    all_eq = o.all_eq;
    manned = λ h. ground (arith, h);
    leaving = λ h. omega (arith, (o.manned e).0, o.workers_eq);
    early = λ h. ground (arith, h, (o.manned e).0);
  }

  send_null-Ordered :
      (all : List ℕ) (p : Threads) → Ordered n all p → 0 < p.unsent → Ordered n all (send_null p)
  send_null-Ordered all p o h = record {
    waiting = o.waiting;
    nulls = suc o.nulls;
    workers_eq = o.workers_eq;
    tasks_eq = ap (λ q. q ++ none ∷ []) o.tasks_eq ∙ queue_of-null o.waiting o.nulls;
    all_eq = o.all_eq;
    manned = λ e. omega (arith, h, (o.manned e).1);
    leaving = λ e. omega (arith, h, o.leaving e);
    early = o.early;
  }

  Reach-Ordered : {all : List ℕ} {p : Threads} → Reach n all p → Ordered n all p
  unfolding queue_of
  Reach-Ordered fresh = record {
    waiting = [];
    nulls = 0;
    workers_eq = refl;
    tasks_eq = refl;
    all_eq = refl;
    manned = λ h. (refl, refl, refl);
    leaving = λ h. ground (arith, h);
    early = λ h. refl;
  }
  Reach-Ordered (submit {ts} {p} t r e) = submit-Ordered ts p t (Reach-Ordered r) e
  Reach-Ordered (work {ts} {p} r a l) = work-Ordered ts p (Reach-Ordered r) a l
  Reach-Ordered (halt {ts} {p} r e) = stop-Ordered ts p (Reach-Ordered r) e
  Reach-Ordered (send {ts} {p} r h) = send_null-Ordered ts p (Reach-Ordered r) h

-- The steps that are left to a stopped pool: each empty task is queued and then taken.
abbrev pub left : Threads → ℕ
left p = length p.tasks + 2 * p.unsent

pub record Drains (n : ℕ) (all : List ℕ) (p : Threads) : Type 0 where
  pub awake : 0 < p.alive → (0 < length p.tasks) ⊎ (0 < p.unsent)
  pub work_shorter : 0 < length p.tasks → left (work_on p.tasks p) < left p
  pub send_shorter : 0 < p.unsent → left (send_null p) < left p
  pub ended : p.alive ≡ 0 → 0 < n → (p.ran ≡ all) × (left p ≡ 0)

after_dequeue-left : (task : Option ℕ) (p : Threads) → left (after_dequeue task p) ≡ left p
after_dequeue-left (some t) p = ap left (after_dequeue-task t p)
after_dequeue-left none p = on p.running
  where
    on : (b : Bool) → left (if not b && true then record p { alive = p.alive - 1 } else p) ≡ left p
    on true = refl
    on false = refl

work_on-left :
    (q : List (Option ℕ)) (p : Threads)
    → 0 < length q
    → left (work_on q p) < length q + 2 * p.unsent
work_on-left [] p h = ground (arith, h)
work_on-left (task ∷ q) p h = omega (arith, after_dequeue-left task (record p { tasks = q }))

-- Once the destructor has stopped a pool, the joins return: every step of a worker or of the
-- destructor leaves fewer steps to do, one of them can be taken as long as a worker runs, and when no
-- worker of one or more runs, every task that was submitted was run, in order, and the queue is empty.
pub Reach-Drains :
    {n : ℕ} {all : List ℕ} {p : Threads} → Reach n all p → p.running ≡ false → Drains n all p
Reach-Drains {n} {all} {p} r h =
    let o = Reach-Ordered n r in
    let size = ap length o.tasks_eq ∙ length-queue_of o.waiting o.nulls in
    record {
      awake = λ a. ground (arith, size, o.leaving h, a);
      work_shorter = work_on-left p.tasks p;
      send_shorter = λ a. omega (arith, a, length-append p.tasks (none ∷ []));
      ended = λ a k.
          let done = o.early (omega (arith, a, k)) in
          (
            sym (o.all_eq ∙ ap (λ ts. p.ran ++ ts) done ∙ append-nil p.ran),
            omega (arith, size, ap length done, o.leaving h, a),
          );
    }
