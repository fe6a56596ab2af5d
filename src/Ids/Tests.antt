-- ===== src/Ids/Tests.antt =====
-- Identifiers of include/OrderIdGenerator.hpp at a few readings.
use exchange_server.Prelude.{ℕ, ◌+◌, ◌^◌, ◌≤◌, ◌<◌, List, [], ◌∷◌, ◌≡◌, refl, arith, Distinct}
use exchange_server.Ids.{bit_or, identifier, generate, generate_all, epoch}
use exchange_server.Ids.Fields.{identifier-bounds}
use exchange_server.Ids.Unique.{generate_all-Distinct}

-- Two orders in the same millisecond, and one in the next.
abbrev readings : List ℕ
readings = (epoch + 1) ∷ (epoch + 1) ∷ (epoch + 2) ∷ []

runs_generate : generate_all readings 4095 ≡ 4202495 ∷ 4198400 ∷ 8392705 ∷ []
unfolding generate_all generate identifier bit_or
runs_generate = refl

generate_all-Distinct_example : Distinct (generate_all readings 4095)
generate_all-Distinct_example =
    generate_all-Distinct readings 4095
      ((omega arith, omega arith), ((omega arith, omega arith), ((omega arith, omega arith), tt)))
      (tt, (tt, (tt, tt)))

identifier-bounds_example :
    (2 ^ 32 ≤ identifier (epoch + 1024) 4095)
    × (identifier (epoch + 1024) 4095 < identifier (epoch + 1025) 0)
    × (identifier (epoch + 1025) 0 < 2 ^ 64)
identifier-bounds_example =
    identifier-bounds (epoch + 1024) (epoch + 1025) 4095 0 (omega arith) (omega arith) (omega arith)
