-- ===== src/Ids/Unique.antt =====
-- When the identifiers of include/OrderIdGenerator.hpp differ.
use exchange_server.Prelude.{
  ℕ, suc, ◌+◌, ◌-◌, ◌%◌, ◌^◌, ◌≤◌, ◌<◌, List, [], ◌∷◌, ◌≡◌, ◌≢◌, sym, subst, arith, ltb, true,
  false, Bool-cases, inl, inr, All, Fresh, Distinct,
}
use exchange_server.Prelude.Bytes.{drop}
use exchange_server.Ids.{identifier, generate, generate_all, epoch}
use exchange_server.Ids.Fields.{identifier-fields}

-- Readings for which the 42 bits of the time are enough: for 139 years from the epoch.
abbrev pub InRange : ℕ → Type 0
InRange t = (epoch ≤ t) × (t < epoch + 2 ^ 42)

-- No reading occurs again 4096 calls later or more.
abbrev pub Paced : List ℕ → Type 0
Paced [] = Unit
Paced (t ∷ ts) = All (λ u. t ≢ u) (drop 4095 ts) × Paced ts

identifier_time : (t u a b : ℕ) → InRange t → InRange u → identifier t a ≡ identifier u b → t ≡ u
identifier_time t u a b h k e =
    omega (arith, h, k, e, identifier-fields t a h.0 h.1, identifier-fields u b k.0 k.1)

identifier_sequence :
    (t u a b : ℕ)
    → InRange t
    → InRange u
    → identifier t a ≡ identifier u b
    → a % 2 ^ 12 ≡ b % 2 ^ 12
identifier_sequence t u a b h k e =
    omega (arith, h, k, e, identifier-fields t a h.0 h.1, identifier-fields u b k.0 k.1)

next_sequence : (s d : ℕ) → (s + (d + 1)) % 2 ^ 32 ≡ ((s + d) % 2 ^ 32 + 1) % 2 ^ 32
next_sequence s d = omega arith

drops_one : (d : ℕ) → ltb d 4096 ≡ true → 4096 - d ≡ suc (4096 - (d + 1))
drops_one d e = ground (arith, e)

drops_none : (d : ℕ) → ltb d 4096 ≡ false → (4096 - d ≡ 0) × (4096 - (d + 1) ≡ 0)
drops_none d e = (ground (arith, e), ground (arith, e))

-- Fewer than 4096 calls apart, two calls have different sequence fields.
clash : (s d : ℕ) → 1 ≤ d → ltb d 4096 ≡ true → s % 2 ^ 12 ≢ (s + d) % 2 ^ 32 % 2 ^ 12
clash s d p e = ground (arith, p, e)

-- An identifier and those of the calls from the `d`-th after it on.
generate_all-Fresh :
    (t sequence d : ℕ) (us : List ℕ)
    → 1 ≤ d
    → InRange t
    → All InRange us
    → All (λ u. t ≢ u) (drop (4096 - d) us)
    → Fresh (identifier t sequence) (generate_all us ((sequence + d) % 2 ^ 32))
unfolding generate_all generate
generate_all-Fresh t sequence d [] p h k a = tt
generate_all-Fresh t sequence d (u ∷ us) p h k a =
    let later = generate_all-Fresh t sequence (d + 1) us (omega (arith, p)) h k.1 in
    let shift =
      subst (λ s. Fresh (identifier t sequence) (generate_all us s)) (next_sequence sequence d) in
    elim (Bool-cases (ltb d 4096)) [
      | inl e ↦
          let a' = subst (λ n. All (λ u. t ≢ u) (drop n (u ∷ us))) (drops_one d e) a in
          (
            (λ q.
                clash sequence d p e
                  (identifier_sequence t u sequence ((sequence + d) % 2 ^ 32) h k.0 q)),
            shift (later a'),
          )
      | inr e ↦
          let (z, z') = drops_none d e in
          let a' = subst (λ n. All (λ u. t ≢ u) (drop n (u ∷ us))) z a in
          (
            (λ q. a'.0 (identifier_time t u sequence ((sequence + d) % 2 ^ 32) h k.0 q)),
            shift (later (subst (λ n. All (λ u. t ≢ u) (drop n us)) (sym z') a'.1)),
          )
    ]

-- The identifiers of a run of calls are distinct, where the clock stays within 2^42 ms of the epoch
-- and no reading of it occurs again 4096 calls later or more.
pub generate_all-Distinct :
    (ts : List ℕ) (sequence : ℕ) → All InRange ts → Paced ts → Distinct (generate_all ts sequence)
unfolding generate_all generate
generate_all-Distinct [] sequence h p = tt
generate_all-Distinct (t ∷ ts) sequence h p = (
  generate_all-Fresh t sequence 1 ts (omega arith) h.0 h.1 p.0,
  generate_all-Distinct ts ((sequence + 1) % 2 ^ 32) h.1 p.1,
)
