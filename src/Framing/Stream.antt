-- ===== src/Framing/Stream.antt =====
-- The loop of `MyEchoBusiness` of src/server/main.cpp over a growing buffer.
use exchange_server.Prelude.{
  ℕ, zero, suc, ◌+◌, ◌≤◌, none, some, List, [], ◌∷◌, ◌++◌, length, ◌≡◌, refl, sym, ◌∙◌, subst,
  arith, Option-cases, inl, inr, append-nil, append_assoc, length-append,
}
use exchange_server.Framing.{Packet, next_packet, Connection, answer, drain, feed}
use exchange_server.Framing.Cut.{next_packet-shorter, next_packet-append}

module _ {S : Type 0} (dispatch : S → ℕ → List ℕ → List ℕ × S) where
  drain-none :
      (n : ℕ) (bs : List ℕ) (c : Connection S)
      → next_packet bs ≡ none
      → drain dispatch (suc n) bs c ≡ record c { buffer = bs }
  unfolding drain
  drain-none n bs c e = rw (drain, e) refl

  pub drain-some :
      (n : ℕ) (bs rest : List ℕ) (p : Packet) (c : Connection S)
      → next_packet bs ≡ some (p, rest)
      → drain dispatch (suc n) bs c ≡ drain dispatch n rest (answer dispatch p c)
  unfolding drain
  drain-some n bs rest p c e = rw (drain, e) refl

  -- The buffer that a connection had is not read again.
  drain-buffer :
      (n : ℕ) (bs old : List ℕ) (c : Connection S)
      → drain dispatch n bs (record c { buffer = old }) ≡ drain dispatch n bs c
  unfolding drain
  drain-buffer zero bs old c = refl
  drain-buffer (suc n) bs old c = elim (Option-cases (next_packet bs)) [
    | inl e ↦ drain-none n bs (record c { buffer = old }) e ∙ sym (drain-none n bs c e)
    | inr ((p, rest), e) ↦
        drain-some n bs rest p (record c { buffer = old }) e
        ∙ drain-buffer n rest old (answer dispatch p c)
        ∙ sym (drain-some n bs rest p c e)
  ]

  pub drain_nil : (n : ℕ) (c : Connection S) → drain dispatch n [] c ≡ record c { buffer = [] }
  unfolding drain next_packet
  drain_nil zero c = refl
  drain_nil (suc n) c = refl

  -- As many rounds as the buffer has bytes are enough.
  pub drain_enough :
      (n m : ℕ) (bs : List ℕ) (c : Connection S)
      → length bs ≤ n
      → length bs ≤ m
      → drain dispatch n bs c ≡ drain dispatch m bs c
  drain_enough n m [] c h k = drain_nil n c ∙ sym (drain_nil m c)
  drain_enough zero m (b ∷ bs) c h k = ground (arith, h)
  drain_enough (suc n) zero (b ∷ bs) c h k = ground (arith, k)
  drain_enough (suc n) (suc m) (b ∷ bs) c h k = elim (Option-cases (next_packet (b ∷ bs))) [
    | inl e ↦ drain-none n (b ∷ bs) c e ∙ sym (drain-none m (b ∷ bs) c e)
    | inr ((p, rest), e) ↦
        let s = next_packet-shorter (b ∷ bs) p rest e in
        drain-some n (b ∷ bs) rest p c e
        ∙ drain_enough n m rest (answer dispatch p c) (omega (arith, h, s)) (omega (arith, k, s))
        ∙ sym (drain-some m (b ∷ bs) rest p c e)
  ]

  length-drain :
      (n : ℕ) (bs : List ℕ) (c : Connection S) → length (drain dispatch n bs c).buffer ≤ length bs
  unfolding drain
  length-drain zero bs c = omega arith
  length-drain (suc n) bs c = elim (Option-cases (next_packet bs)) [
    | inl e ↦ subst (λ d. length d.buffer ≤ length bs) (sym (drain-none n bs c e)) (omega arith)
    | inr ((p, rest), e) ↦
        let s = next_packet-shorter bs p rest e in
        let r = length-drain n rest (answer dispatch p c) in
        subst (λ d. length d.buffer ≤ length bs) (sym (drain-some n bs rest p c e))
          (omega (arith, s, r))
  ]

  nil_settled : next_packet [] ≡ none
  unfolding next_packet
  nil_settled = refl

  -- What the loop leaves is less than a packet.
  pub drain-settled :
      (n : ℕ) (bs : List ℕ) (c : Connection S)
      → length bs ≤ n
      → next_packet (drain dispatch n bs c).buffer ≡ none
  drain-settled n [] c h =
      subst (λ d. next_packet d.buffer ≡ none) (sym (drain_nil n c)) nil_settled
  drain-settled zero (b ∷ bs) c h = ground (arith, h)
  drain-settled (suc n) (b ∷ bs) c h = elim (Option-cases (next_packet (b ∷ bs))) [
    | inl e ↦ subst (λ d. next_packet d.buffer ≡ none) (sym (drain-none n (b ∷ bs) c e)) e
    | inr ((p, rest), e) ↦
        let s = next_packet-shorter (b ∷ bs) p rest e in
        subst (λ d. next_packet d.buffer ≡ none) (sym (drain-some n (b ∷ bs) rest p c e))
          (drain-settled n rest (answer dispatch p c) (omega (arith, h, s)))
  ]

  -- Bytes that come later can wait until the loop has run.
  drain-append :
      (n k : ℕ) (bs ys : List ℕ) (c : Connection S)
      → length bs ≤ n
      → length bs + length ys ≤ k
      → drain dispatch k (bs ++ ys) c
        ≡ drain dispatch k ((drain dispatch n bs c).buffer ++ ys) (drain dispatch n bs c)
  drain-append n k [] ys c h q =
      subst (λ d. drain dispatch k ys c ≡ drain dispatch k (d.buffer ++ ys) d) (sym (drain_nil n c))
        (sym (drain-buffer k ys [] c))
  drain-append zero k (b ∷ bs) ys c h q = ground (arith, h)
  drain-append (suc n) zero (b ∷ bs) ys c h q = ground (arith, q)
  drain-append (suc n) (suc k) (b ∷ bs) ys c h q = elim (Option-cases (next_packet (b ∷ bs))) [
    | inl e ↦
        subst
          (λ d. drain dispatch (suc k) (b ∷ bs ++ ys) c ≡ drain dispatch (suc k) (d.buffer ++ ys) d)
          (sym (drain-none n (b ∷ bs) c e)) (sym (drain-buffer (suc k) (b ∷ bs ++ ys) (b ∷ bs) c))
    | inr ((p, rest), e) ↦
        let s = next_packet-shorter (b ∷ bs) p rest e in
        let c' = answer dispatch p c in
        let d = drain dispatch n rest c' in
        let l = length-drain n rest c' in
        let a = length-append d.buffer ys in
        subst
          (λ d. drain dispatch (suc k) (b ∷ bs ++ ys) c ≡ drain dispatch (suc k) (d.buffer ++ ys) d)
          (sym (drain-some n (b ∷ bs) rest p c e))
          (drain-some k (b ∷ bs ++ ys) (rest ++ ys) p c (next_packet-append (b ∷ bs) ys p rest e)
            ∙ drain-append n k rest ys c' (omega (arith, h, s)) (omega (arith, q, s))
            ∙ drain_enough k (suc k) (d.buffer ++ ys) d (omega (arith, q, s, l, a))
                (omega (arith, q, s, l, a)))
  ]

  pub feed-append :
      (xs ys : List ℕ) (c : Connection S)
      → feed dispatch (xs ++ ys) c ≡ feed dispatch ys (feed dispatch xs c)
  unfolding feed
  feed-append xs ys c =
      let bs = c.buffer ++ xs in
      let d = drain dispatch (length bs) bs c in
      let l = length-drain (length bs) bs c in
      rw (sym (append_assoc c.buffer xs ys)) (
        drain-append (length bs) (length (bs ++ ys)) bs ys c (omega arith)
          (omega (arith, length-append bs ys))
        ∙ drain_enough (length (bs ++ ys)) (length (d.buffer ++ ys)) (d.buffer ++ ys) d
            (omega (arith, l, length-append bs ys, length-append d.buffer ys)) (omega arith))

  pub feed-nil : (c : Connection S) → next_packet c.buffer ≡ none → feed dispatch [] c ≡ c
  unfolding feed drain
  feed-nil c h = rw (append-nil c.buffer) (drain_settled (length c.buffer))
    where
      drain_settled : (n : ℕ) → drain dispatch n c.buffer c ≡ c
      drain_settled zero = refl
      drain_settled (suc n) = drain-none n c.buffer c h
