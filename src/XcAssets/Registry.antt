-- ===== src/XcAssets/Registry.antt =====
-- What pallets/xc-asset-config/src/lib.rs promises, without its three maps: a registry that gives
-- an asset id a location and a price. Each dispatchable that succeeds changes it as its description
-- here.
use neuroweb.Prelude.{
  ℕ, refl, Option-cases, Option, none, some, inl, inr, ◌≡◌, Eq, ◌==◌, arith, if◌then◌else◌,
}
use neuroweb.Storage.{get, insert, remove, get-insert, get-remove}
use neuroweb.Dispatch.{ok}
use neuroweb.XcAssets.{
  Config, Pallet, Call, register, set_units, change, remove_payment, unregister, move_units,
  dispatch,
}
use neuroweb.XcAssets.Invariant.{IsConsistent}
use neuroweb.XcAssets.Calls.{
  TakesFree, get-move_units, register-inversion, change-inversion, set_units-inversion,
  remove_payment-inversion, unregister-inversion,
}

-- The location and the price of an asset, if it is registered.
abbrev pub Registry : Type 0 → Type 0 → Type 0
Registry V A = A → Option (V × Option ℕ)

abbrev pub with_location : {V : Type 0} → V → Option (V × Option ℕ) → Option (V × Option ℕ)
with_location v none = none
with_location v (some (old, price)) = some (v, price)

abbrev pub with_price :
    {V : Type 0} ⦃ev : Eq V⦄ → V → Option ℕ → Option (V × Option ℕ) → Option (V × Option ℕ)
with_price v price none = none
with_price v price (some (w, old)) = if w == v then some (w, price) else some (w, old)

module _ {V A : Type 0} ⦃ev : Eq V⦄ ⦃ea : Eq A⦄ where
  -- The effect of a call on the registry; its location has been converted.
  abbrev pub described : Call V A → Registry V A → Registry V A
  described (register v i) r j = if j == i then some (v, none) else r j
  described (change v i) r j = if j == i then with_location v (r j) else r j
  described (set_units v units) r j = with_price v (some units) (r j)
  described (remove_payment v) r j = with_price v none (r j)
  described (unregister i) r j = if j == i then none else r j

  abbrev pub registry : {W : Type 0} → Pallet V A W → Registry V A
  registry s i = elim (get i s.asset_id_to_location) [
    | none ↦ none
    | some v ↦ some (v, get v s.asset_location_units_per_second)
  ]

module _ {V A W : Type 0} ⦃ev : Eq V⦄ ⦃ea : Eq A⦄ where
  register-described :
      (s t : Pallet V A W) (i : A) (v : V) (j : A)
      → IsConsistent s
      → get v s.asset_location_to_id ≡ none
      → t.asset_id_to_location ≡ insert i v s.asset_id_to_location
      → t.asset_location_units_per_second ≡ s.asset_location_units_per_second
      → registry t j ≡ described (register v i) (registry s) j
  register-described s t i v j inv free e1 e3 =
      ground (arith, get-insert j i v s.asset_id_to_location, inv.priced v free)

  change-described :
      (s t : Pallet V A W) (i : A) (old v : V) (j : A)
      → IsConsistent s
      → get i s.asset_id_to_location ≡ some old
      → get v s.asset_location_to_id ≡ none
      → t.asset_id_to_location ≡ insert i v s.asset_id_to_location
      → t.asset_location_units_per_second ≡ move_units old v s.asset_location_units_per_second
      → registry t j ≡ described (change v i) (registry s) j
  change-described s t i old v j inv hi free e1 e3 =
      elim (Option-cases (get j s.asset_id_to_location)) [
        | inl absent ↦ ground (arith, get-insert j i v s.asset_id_to_location, ea.beq_iff j i)
        | inr (w, present) ↦ ground (
          arith,
          get-insert j i v s.asset_id_to_location,
          get-move_units v old v s.asset_location_units_per_second (inv.priced v free),
          get-move_units w old v s.asset_location_units_per_second (inv.priced v free),
          inv.forward j w present,
          inv.forward i old hi,
          ea.beq_iff j i,
          ev.beq_iff v v,
          ev.beq_iff w v,
          ev.beq_iff w old,
        )
      ]

  price-described :
      (s t : Pallet V A W) (v : V) (units : ℕ) (j : A)
      → t.asset_id_to_location ≡ s.asset_id_to_location
      → t.asset_location_units_per_second ≡ insert v units s.asset_location_units_per_second
      → registry t j ≡ described (set_units v units) (registry s) j
  price-described s t v units j e1 e3 = elim (Option-cases (get j s.asset_id_to_location)) [
    | inl absent ↦ ground arith
    | inr (w, present) ↦ ground (arith, get-insert w v units s.asset_location_units_per_second)
  ]

  unprice-described :
      (s t : Pallet V A W) (v : V) (j : A)
      → t.asset_id_to_location ≡ s.asset_id_to_location
      → t.asset_location_units_per_second ≡ remove v s.asset_location_units_per_second
      → registry t j ≡ described (remove_payment v) (registry s) j
  unprice-described s t v j e1 e3 = elim (Option-cases (get j s.asset_id_to_location)) [
    | inl absent ↦ ground arith
    | inr (w, present) ↦ ground (arith, get-remove w v s.asset_location_units_per_second)
  ]

  unregister-described :
      (s t : Pallet V A W) (i : A) (v : V) (j : A)
      → IsConsistent s
      → get i s.asset_id_to_location ≡ some v
      → t.asset_id_to_location ≡ remove i s.asset_id_to_location
      → t.asset_location_units_per_second ≡ remove v s.asset_location_units_per_second
      → registry t j ≡ described (unregister i) (registry s) j
  unregister-described s t i v j inv hi e1 e3 = elim (Option-cases (get j s.asset_id_to_location)) [
    | inl absent ↦ ground (arith, get-remove j i s.asset_id_to_location)
    | inr (w, present) ↦ ground (
      arith,
      get-remove j i s.asset_id_to_location,
      get-remove w v s.asset_location_units_per_second,
      inv.forward j w present,
      inv.forward i v hi,
      ea.beq_iff j i,
      ev.beq_iff w v,
    )
  ]

module _ {V L A O W : Type 0} ⦃ev : Eq V⦄ ⦃ea : Eq A⦄ (cfg : Config V L A O W) where
  abbrev pub relocated : Option L → (V → Call V A) → Option (Call V A)
  relocated none call = none
  relocated (some l) call = some (call (cfg.v3 l))

  -- The call with its location in version 3.
  abbrev pub converted : Call V A → Option (Call V A)
  converted (register loc i) = relocated (cfg.try_from loc) (λ v. register v i)
  converted (change loc i) = relocated (cfg.try_from loc) (λ v. change v i)
  converted (set_units loc units) = relocated (cfg.try_from loc) (λ v. set_units v units)
  converted (remove_payment loc) = relocated (cfg.try_from loc) (λ v. remove_payment v)
  converted (unregister i) = some (unregister i)

  -- What a successful call has done, seen from the registry.
  abbrev pub Follows : Call V A → Pallet V A W → Pallet V A W → Type 0
  Follows call s t =
      (c : Call V A) × (converted call ≡ some c)
      × ((j : A) → registry t j ≡ described c (registry s) j)

  -- Every dispatchable that succeeds changes the registry of locations and prices as the
  -- description of the call with its location in version 3 says, in a consistent state and if a
  -- location that it gives away has no id yet.
  pub dispatch-Follows :
      (origin : O) (call : Call V A) (s t : Pallet V A W)
      → IsConsistent s
      → TakesFree cfg call s
      → dispatch cfg origin call s ≡ ok t
      → Follows call s t
  unfolding dispatch
  dispatch-Follows origin (register loc i) s t inv free h =
      let (l, e, hi, e1, e2, e3) = register-inversion cfg origin loc i s t h in
      (
        register (cfg.v3 l) i,
        rw (e),
        λ j. register-described s t i (cfg.v3 l) j inv (free l e) e1 e3,
      )
  dispatch-Follows origin (change loc i) s t inv free h =
      let (l, v, e, hi, e1, e2, e3) = change-inversion cfg origin loc i s t h in
      (
        change (cfg.v3 l) i,
        rw (e),
        λ j. change-described s t i v (cfg.v3 l) j inv hi (free l e) e1 e3,
      )
  dispatch-Follows origin (set_units loc units) s t inv free h =
      let (l, e, known, e1, e2, e3) = set_units-inversion cfg origin loc units s t h in
      (set_units (cfg.v3 l) units, rw (e), λ j. price-described s t (cfg.v3 l) units j e1 e3)
  dispatch-Follows origin (remove_payment loc) s t inv free h =
      let (l, e, e1, e2, e3) = remove_payment-inversion cfg origin loc s t h in
      (remove_payment (cfg.v3 l), rw (e), λ j. unprice-described s t (cfg.v3 l) j e1 e3)
  dispatch-Follows origin (unregister i) s t inv free h =
      let (v, hi, e1, e2, e3) = unregister-inversion cfg origin i s t h in
      (unregister i, refl, λ j. unregister-described s t i v j inv hi e1 e3)
