-- ===== src/Ids/Fields.antt =====
-- The parts of an identifier of include/OrderIdGenerator.hpp.
use exchange_server.Prelude.{
  ℕ, zero, suc, ◌+◌, ◌-◌, ◌*◌, ◌/◌, ◌%◌, ◌^◌, ◌≤◌, ◌<◌, ◌≡◌, refl, sym, ◌∙◌, ap, subst, arith,
}
use exchange_server.Prelude.Words.{sub64}
use exchange_server.Ids.{bit_or, or_bit, shift_left64, identifier, epoch}

or_bit_small : (b : ℕ) → b < 2 → or_bit 0 b ≡ b
or_bit_small b h = refl

or_bit_zero : (a : ℕ) → a < 2 → or_bit a 0 ≡ a
or_bit_zero zero h = refl
or_bit_zero (suc a) h = omega (arith, h)

bit_or_nil : (n b : ℕ) → b < 2 ^ n → bit_or n 0 b ≡ b
unfolding bit_or
bit_or_nil zero b h = omega (arith, h)
bit_or_nil (suc n) b h = let ih = bit_or_nil n (b / 2) (omega (arith, h)) in omega (arith, ih)

bit_or_right : (n a : ℕ) → a < 2 ^ n → bit_or n a 0 ≡ a
unfolding bit_or
bit_or_right zero a h = omega (arith, h)
bit_or_right (suc n) a h =
    let ih = bit_or_right n (a / 2) (omega (arith, h)) in
    omega (arith, ih, or_bit_zero (a % 2) (omega arith))

or_bit_even : (a b : ℕ) → a % 2 ≡ 0 → or_bit (a % 2) (b % 2) ≡ b % 2
or_bit_even a b e = rw e refl

double : (a k : ℕ) → a * 2 ^ suc k ≡ 2 * (a * 2 ^ k)
double a k = grind arith

zero_below_one : (b : ℕ) → b < 2 ^ 0 → 0 ≡ b
zero_below_one b h = omega (arith, h)

times_one : (a : ℕ) → a ≡ a * 2 ^ 0
times_one a = omega arith

half_shift : (a k : ℕ) → (a * 2 ^ suc k / 2 ≡ a * 2 ^ k) × (a * 2 ^ suc k % 2 ≡ 0)
half_shift a k = let e = double a k in (omega (arith, e), omega (arith, e))

-- Numbers with no bit in common are added.
bit_or_add :
    (n k a b : ℕ) → b < 2 ^ k → a * 2 ^ k < 2 ^ n → k ≤ n → bit_or n (a * 2 ^ k) b ≡ a * 2 ^ k + b
unfolding bit_or
bit_or_add zero zero a b h l q = omega (arith, h, l)
bit_or_add zero (suc k) a b h l q = ground (arith, q)
bit_or_add (suc n) zero a b h l q =
    let r = bit_or_right (suc n) a (omega (arith, l)) in
    subst (λ x. bit_or (suc n) x b ≡ x + b) (times_one a)
      (subst (λ y. bit_or (suc n) a y ≡ a + y) (zero_below_one b h) (r ∙ omega arith))
bit_or_add (suc n) (suc k) a b h l q =
    let e = half_shift a k in
    let ih = bit_or_add n k a (b / 2) (omega (arith, h)) (omega (arith, l, e)) (omega (arith, q)) in
    let ih' = subst (λ x. bit_or n x (b / 2) ≡ x + b / 2) (sym e.0) ih in
    omega (arith, e, ih', or_bit_even (a * 2 ^ suc k) b e.1)

time_field :
    (timestamp : ℕ)
    → epoch ≤ timestamp
    → timestamp < epoch + 2 ^ 42
    → shift_left64 (sub64 timestamp epoch) 22 ≡ (timestamp - epoch) * 2 ^ 22
time_field timestamp h k = ground (arith, h, k)

regroup : (d : ℕ) → d * 2 ^ 22 + 2 ^ 12 ≡ (d * 2 ^ 10 + 1) * 2 ^ 12
regroup d = omega arith

-- The identifier is the time since the epoch, the node 1 and the sequence number side by side.
pub identifier-fields :
    (timestamp seq : ℕ)
    → epoch ≤ timestamp
    → timestamp < epoch + 2 ^ 42
    → identifier timestamp seq ≡ (timestamp - epoch) * 2 ^ 22 + 2 ^ 12 + seq % 2 ^ 12
unfolding identifier
identifier-fields timestamp seq h k =
    let d = timestamp - epoch in
    let time = time_field timestamp h k in
    let two = bit_or_add 64 22 d (2 ^ 12) (omega arith) (omega (arith, h, k)) (omega arith) in
    let all =
      bit_or_add 64 12 (d * 2 ^ 10 + 1) (seq % 2 ^ 12) (omega arith) (omega (arith, h, k))
        (omega arith) in
    ap (λ x. bit_or 64 (bit_or 64 x (2 ^ 12)) (seq % 2 ^ 12)) time
    ∙ ap (λ x. bit_or 64 x (seq % 2 ^ 12)) (two ∙ regroup d)
    ∙ all
    ∙ omega arith

-- Two readings of the clock, the first of them 1024 ms or more after the epoch of the generator, the
-- second one later and within 2^42 ms of the epoch: both identifiers are 2^32 or more and below 2^64,
-- and the second is larger, whatever the sequence numbers.
pub identifier-bounds :
    (t u seq next : ℕ)
    → epoch + 1024 ≤ t
    → t < u
    → u < epoch + 2 ^ 42
    → (2 ^ 32 ≤ identifier t seq)
      × (identifier t seq < identifier u next)
      × (identifier u next < 2 ^ 64)
identifier-bounds t u seq next a l b =
    let e = identifier-fields t seq (omega (arith, a)) (omega (arith, l, b)) in
    let f = identifier-fields u next (omega (arith, a, l)) b in
    (omega (arith, a, e), omega (arith, a, l, e, f), omega (arith, a, l, b, f))
