-- ===== src/Ids.antt =====
-- include/OrderIdGenerator.hpp: order identifiers from the clock, the node and a sequence number.
pub mod Fields
pub mod Unique
mod Tests
use exchange_server.Prelude.{ℕ, zero, suc, ◌+◌, ◌*◌, ◌/◌, ◌%◌, ◌^◌, List, [], ◌∷◌}
use exchange_server.Prelude.Words.{sub64}

-- The shifts and the mask of the generator
abbrev pub epoch : ℕ
epoch = 1767225600000

abbrev pub node_id : ℕ
node_id = 1

-- One bit of `a | b`.
abbrev pub or_bit : ℕ → ℕ → ℕ
or_bit zero b = b
or_bit (suc a) b = 1

-- `a | b` on the lowest `n` bits.
pub bit_or : ℕ → ℕ → ℕ → ℕ
bit_or zero a b = 0
bit_or (suc n) a b = or_bit (a % 2) (b % 2) + 2 * bit_or n (a / 2) (b / 2)

-- `a << k` on `uint64_t`
abbrev pub shift_left64 : ℕ → ℕ → ℕ
shift_left64 a k = a * 2 ^ k % 2 ^ 64

-- The identifier of a clock reading in milliseconds and a sequence number.
pub identifier : ℕ → ℕ → ℕ
identifier timestamp seq =
    bit_or 64 (bit_or 64 (shift_left64 (sub64 timestamp epoch) 22) (shift_left64 node_id 12))
      (seq % 2 ^ 12)

-- `generate`: the identifier, and the counter after `fetch_add(1)` on `uint32_t`.
pub generate : ℕ → ℕ → ℕ × ℕ
generate timestamp sequence = (identifier timestamp sequence, (sequence + 1) % 2 ^ 32)

-- Calls of `generate` one after the other, at these readings of the clock.
pub generate_all : List ℕ → ℕ → List ℕ
generate_all [] sequence = []
generate_all (t ∷ ts) sequence = let r = generate t sequence in r.0 ∷ generate_all ts r.1
