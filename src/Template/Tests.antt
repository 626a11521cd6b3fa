-- ===== src/Template/Tests.antt =====
-- The pallet of pallets/template/src/lib.rs at a concrete number.
use neuroweb.Prelude.{ℕ, ◌+◌, ◌<◌, ◌^◌, ◌≡◌, ◌↔◌, refl, none, some, [], ◌∷◌, arith}
use neuroweb.Dispatch.{ok}
use neuroweb.Template.{Pallet, something_stored, do_something, increments, holding, increments_iff}

abbrev empty : Pallet ℕ
empty = record { something = none; events = [] }

abbrev stored : Pallet ℕ
stored = record { something = some 40; events = something_stored 40 1 ∷ [] }

store_forty : do_something (some 1) 40 empty ≡ ok stored
unfolding do_something
store_forty = refl

increments_iff_example :
    (increments (1 ∷ 2 ∷ []) stored ≡ ok (holding 42 stored))
    ↔ ((40 + 2 < 2 ^ 32) × (holding 42 stored ≡ holding (40 + 2) stored))
increments_iff_example =
    increments_iff (1 ∷ 2 ∷ []) 40 stored (holding 42 stored) refl (omega arith)
