-- ===== src/Logger/Flush.antt =====
-- The logger of include/Logger.hpp writes every item before it ends.
use exchange_server.Prelude.{
  ℕ, zero, suc, ◌≤◌, ◌<◌, Bool, true, false, ◌||◌, List, [], ◌∷◌, ◌++◌, map, length, ltb,
  if◌then◌else◌, ◌≡◌, refl, sym, ◌∙◌, ap, subst, arith, append-nil, append_assoc, ◌⊎◌, inl, inr,
}
use exchange_server.Prelude.Names.{Name}
use exchange_server.Prelude.Bytes.{take, drop, take-drop, length-drop}
use exchange_server.Logger.{
  LogItem, Logger, line, batch_size, write_to_sink, write_all, round, process_logs, shut_down,
}

length-drop-suc : (n : ℕ) (xs : List LogItem) → 0 < length xs → length (drop (suc n) xs) < length xs
length-drop-suc n [] h = ground (arith, h)
length-drop-suc n (x ∷ xs) h = omega (arith, length-drop n xs)

queue-cases : (xs : List LogItem) → (xs ≡ []) ⊎ ((ltb 0 (length xs) ≡ true) × (0 < length xs))
queue-cases [] = inl refl
queue-cases (x ∷ xs) = inr (ground arith, omega arith)

length-zero : (xs : List LogItem) → length xs ≤ 0 → xs ≡ []
length-zero [] h = refl
length-zero (x ∷ xs) h = ground (arith, h)

module _ (local_time : ℕ → Name) where
  abbrev pub lines : List LogItem → List Name
  lines items = map (line local_time) items

  -- What the file holds after so many lines: they are lost where it is not open.
  abbrev pub appended : Bool → List Name → List Name → List Name
  appended is_open file new = if is_open then file ++ new else file

  -- A logger with so many lines written to both sinks.
  abbrev pub written : List LogItem → Logger → Logger
  written items l = record l {
    console = l.console ++ lines items;
    file = appended l.is_open l.file (lines items);
  }

  appended-nil : (b : Bool) (f : List Name) → f ≡ appended b f []
  appended-nil true f = sym (append-nil f)
  appended-nil false f = refl

  appended_assoc :
      (b : Bool) (f xs ys : List Name) → appended b (appended b f xs) ys ≡ appended b f (xs ++ ys)
  appended_assoc true f xs ys = append_assoc f xs ys
  appended_assoc false f xs ys = refl

  lines-append : (xs ys : List LogItem) → lines xs ++ lines ys ≡ lines (xs ++ ys)
  lines-append [] ys = refl
  lines-append (x ∷ xs) ys = ap (λ zs. line local_time x ∷ zs) (lines-append xs ys)

  written-written :
      (xs ys : List LogItem) (l : Logger) → written ys (written xs l) ≡ written (xs ++ ys) l
  written-written xs ys l = λ i. record l {
    console =
        (append_assoc l.console (lines xs) (lines ys)
            ∙ ap (λ zs. l.console ++ zs) (lines-append xs ys))
          i;
    file =
        (appended_assoc l.is_open l.file (lines xs) (lines ys)
            ∙ ap (appended l.is_open l.file) (lines-append xs ys))
          i;
  }

  write_all_lem :
      (items : List LogItem) (l : Logger) → write_all local_time items l ≡ written items l
  unfolding write_all
  write_all_lem [] l = λ i. record l {
    console = sym (append-nil l.console) i;
    file = appended-nil l.is_open l.file i;
  }
  write_all_lem (x ∷ xs) l =
      write_all_lem xs (write_to_sink local_time x l) ∙ written-written (x ∷ []) xs l

  -- A logger that wrote its whole queue.
  abbrev pub flushed : Logger → Logger
  flushed l = written l.queue (record l { queue = [] })

  round-flushed : (l : Logger) → flushed (round local_time l) ≡ flushed l
  round-flushed l =
      let now = take batch_size l.queue in
      let rest = drop batch_size l.queue in
      let empty = record l { queue = [] } in
      ap flushed (write_all_lem now (record l { queue = rest }))
      ∙ written-written now rest empty
      ∙ ap (λ q. written q empty) (take-drop batch_size l.queue)

  round-running : (l : Logger) → (round local_time l).running ≡ l.running
  round-running l =
      ap (λ m. m.running)
        (write_all_lem (take batch_size l.queue) (record l { queue = drop batch_size l.queue }))

  round-queue : (l : Logger) → (round local_time l).queue ≡ drop batch_size l.queue
  round-queue l =
      ap (λ m. m.queue)
        (write_all_lem (take batch_size l.queue) (record l { queue = drop batch_size l.queue }))

  flushed-nil : (l : Logger) → l.queue ≡ [] → l ≡ flushed l
  flushed-nil l e = λ i. record l {
    queue = e i;
    console = (sym (append-nil l.console) ∙ ap (λ q. l.console ++ lines q) (sym e)) i;
    file =
        (appended-nil l.is_open l.file ∙ ap (λ q. appended l.is_open l.file (lines q)) (sym e)) i;
  }

  next_round : ℕ → Logger → Bool → Logger
  next_round rounds l more = elim more [
    | true ↦ process_logs local_time rounds (round local_time l)
    | false ↦ l
  ]

  process_logs-next_round :
      (rounds : ℕ) (l : Logger) (more : Bool)
      → l.running ≡ false
      → ltb 0 (length l.queue) ≡ more
      → process_logs local_time (suc rounds) l ≡ next_round rounds l more
  unfolding process_logs next_round
  process_logs-next_round rounds l more h e =
      ap (λ b. next_round rounds l (b || ltb 0 (length l.queue))) h ∙ ap (next_round rounds l) e

  process_logs-flushed :
      (rounds : ℕ) (l : Logger)
      → l.running ≡ false
      → length l.queue ≤ rounds
      → process_logs local_time rounds l ≡ flushed l
  unfolding process_logs next_round
  process_logs-flushed zero l h k = flushed-nil l (length-zero l.queue k)
  process_logs-flushed (suc rounds) l h k = elim (queue-cases l.queue) [
    | inl e ↦
        process_logs-next_round rounds l false h (ap (λ q. ltb 0 (length q)) e) ∙ flushed-nil l e
    | inr (e, some_items) ↦
        let ih = process_logs-flushed rounds (round local_time l) (round-running l ∙ h) (
          subst (λ q. length q ≤ rounds) (sym (round-queue l))
            (omega (arith, k, length-drop-suc 499 l.queue some_items))) in
        process_logs-next_round rounds l true h e ∙ ih ∙ round-flushed l
  ]

  -- The destructor of a logger whose worker runs for as many rounds as there are items in the
  -- queue, or for more, ends with an empty queue and a closed file, and every item of the queue,
  -- in order, is on the standard output, and in the file if that was open.
  pub shut_down-writes :
      (rounds : ℕ) (l : Logger)
      → length l.queue ≤ rounds
      → shut_down local_time rounds l
        ≡ record (written l.queue l) { queue = []; running = false; is_open = false }
  unfolding shut_down
  shut_down-writes rounds l k =
      ap {A = Logger} (λ m. record m { is_open = false })
        (process_logs-flushed rounds (record l { running = false }) refl k)
