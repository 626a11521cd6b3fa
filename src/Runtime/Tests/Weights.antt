-- ===== src/Runtime/Tests/Weights.antt =====
-- The fee of runtime/src/lib.rs with a concrete rounding.
use neuroweb.Prelude.{ℕ, ◌+◌, ◌*◌, ◌/◌, List}
use neuroweb.Runtime.Governance.{Origin, members}
use neuroweb.Runtime.Weights.{sum_terms, Coefficient}

-- Eight of ten seats.
abbrev motion : Origin ℕ
motion = members 8 10

abbrev from_rational : ℕ → ℕ → ℕ
from_rational p q = p * 1000000000 / q

-- Half a part is rounded down.
abbrev times : ℕ → ℕ → ℕ
times parts n = (parts * n + 499999999) / 1000000000

abbrev weight_to_fee : List Coefficient → ℕ → ℕ
weight_to_fee cs w = sum_terms times cs w 0
