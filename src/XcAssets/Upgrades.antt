-- ===== src/XcAssets/Upgrades.antt =====
-- What the migration in pallets/xc-asset-config/src/migrations.rs does to the three maps together.
use neuroweb.Prelude.{
  ℕ, ◌<◌, none, some, [], ◌≡◌, inl, inr, Eq, leb, arith, Option-cases, Bool-cases,
}
use neuroweb.Storage.{get}
use neuroweb.XcAssets.{Pallet}
use neuroweb.XcAssets.Invariant.{IsConsistent}
use neuroweb.XcAssets.Migration.{Upgrade, OnChain, convert_values, convert_keys, on_runtime_upgrade}
use neuroweb.XcAssets.Conversions.{
  IsDistinct, get-convert_values-none, get-convert_values, get-convert_keys, convert_keys-inversion,
}

module _ {V A W X : Type 0} ⦃ev : Eq V⦄ ⦃ea : Eq A⦄ (up : Upgrade V X) where
  -- The keys are those of storage maps, every location converts, and no two to the same.
  pub record IsConvertible (s : Pallet V A W) : Type 0 where
    pub ids_distinct : IsDistinct s.asset_id_to_location
    pub locations_distinct : IsDistinct s.asset_location_to_id
    pub prices_distinct : IsDistinct s.asset_location_units_per_second
    pub converts :
        (l : V) (i : A)
        → get l s.asset_location_to_id ≡ some i
        → (x : V) × (up.into_version_3 l ≡ some x)
    pub separates :
        (k l x : V) (i j : A)
        → get k s.asset_location_to_id ≡ some i
        → get l s.asset_location_to_id ≡ some j
        → up.into_version_3 k ≡ some x
        → up.into_version_3 l ≡ some x
        → k ≡ l

  -- A priced location is registered.
  pub registered :
      (s : Pallet V A W) (l : V) (p : ℕ)
      → IsConsistent s
      → get l s.asset_location_units_per_second ≡ some p
      → (i : A) × (get l s.asset_location_to_id ≡ some i)
  registered s l p c e = elim (Option-cases (get l s.asset_location_to_id)) [
    | inl free ↦ ground (arith, c.priced l free)
    | inr found ↦ found
  ]

  pub converted_location :
      (s : Pallet V A W) (l x : V) (i : A)
      → IsConvertible s
      → get l s.asset_location_to_id ≡ some i
      → up.into_version_3 l ≡ some x
      → get x (convert_keys up s.asset_location_to_id []) ≡ some i
  converted_location s l x i v e c =
      get-convert_keys up l x i s.asset_location_to_id []
        (λ k j e' c'. v.separates k l x j i e' e c' c) v.locations_distinct e c

  pub converted_price :
      (s : Pallet V A W) (l x : V) (i : A) (p : ℕ)
      → IsConsistent s
      → IsConvertible s
      → get l s.asset_location_to_id ≡ some i
      → get l s.asset_location_units_per_second ≡ some p
      → up.into_version_3 l ≡ some x
      → get x (convert_keys up s.asset_location_units_per_second []) ≡ some p
  converted_price s l x i p cons v known e c =
      get-convert_keys up l x p s.asset_location_units_per_second []
        (λ k q e' c'.
          let (j, known') = registered s k q cons e' in v.separates k l x j i known' known c' c)
        v.prices_distinct e c

  abbrev pub migrated : Pallet V A W → Pallet V A W
  migrated s = record s {
    asset_id_to_location = convert_values up s.asset_id_to_location s.asset_id_to_location;
    asset_location_to_id = convert_keys up s.asset_location_to_id [];
    asset_location_units_per_second = convert_keys up s.asset_location_units_per_second [];
  }

  migrated-forward :
      (s : Pallet V A W) (i : A) (x : V)
      → IsConsistent s
      → IsConvertible s
      → get i (migrated s).asset_id_to_location ≡ some x
      → get x (migrated s).asset_location_to_id ≡ some i
  migrated-forward s i x c v e =
      let ids = s.asset_id_to_location in
      elim (Option-cases (get i ids)) [
        | inl free ↦ ground (arith, get-convert_values-none up i ids ids free)
        | inr (l, found) ↦
            let known = c.forward i l found in
            let (y, converted) = v.converts l i known in
            let here = get-convert_values up i l y ids ids v.ids_distinct found converted in
            ground (arith, here, converted_location s l y i v known converted)
      ]

  migrated-backward :
      (s : Pallet V A W) (i : A) (x : V)
      → IsConsistent s
      → IsConvertible s
      → get x (migrated s).asset_location_to_id ≡ some i
      → get i (migrated s).asset_id_to_location ≡ some x
  unfolding get
  migrated-backward s i x c v e =
      elim (convert_keys-inversion up x i s.asset_location_to_id [] v.locations_distinct e) [
        | inl old ↦ cc
        | inr (l, known, converted) ↦
            let ids = s.asset_id_to_location in
            get-convert_values up i l x ids ids v.ids_distinct (c.backward i l known) converted
      ]

  migrated-priced :
      (s : Pallet V A W) (x : V)
      → IsConsistent s
      → IsConvertible s
      → get x (migrated s).asset_location_to_id ≡ none
      → get x (migrated s).asset_location_units_per_second ≡ none
  unfolding get
  migrated-priced s x c v e =
      let prices = s.asset_location_units_per_second in
      elim (Option-cases (get x (convert_keys up prices []))) [
        | inl free ↦ free
        | inr (p, priced) ↦
            elim (convert_keys-inversion up x p prices [] v.prices_distinct priced) [
              | inl old ↦ cc
              | inr (l, e', converted) ↦
                  let (i, known) = registered s l p c e' in
                  cc (converted_location s l x i v known converted)
            ]
      ]

  -- The upgrade keeps consistent maps consistent if their keys are distinct and every registered
  -- location converts, no two to the same.
  pub on_runtime_upgrade-IsConsistent :
      (s : OnChain V A W)
      → IsConsistent s.pallet
      → IsConvertible s.pallet
      → IsConsistent (on_runtime_upgrade up s).0.pallet
  unfolding on_runtime_upgrade
  on_runtime_upgrade-IsConsistent s c v = elim (Bool-cases (leb 2 s.version)) [
    | inl done ↦ rw done c
    | inr pending ↦ rw pending (record {
      forward = λ i x. migrated-forward s.pallet i x c v;
      backward = λ i x. migrated-backward s.pallet i x c v;
      priced = λ x. migrated-priced s.pallet x c v;
    })
  ]

  -- A first upgrade of consistent maps, with distinct keys and locations that all convert, no two
  -- to the same, gives a priced asset the conversion of its location, under which it is found and
  -- priced as before.
  pub on_runtime_upgrade-lookups :
      (s t : OnChain V A W) (consumed : X) (i : A) (l x : V) (p : ℕ)
      → IsConsistent s.pallet
      → IsConvertible s.pallet
      → s.version < 2
      → get i s.pallet.asset_id_to_location ≡ some l
      → get l s.pallet.asset_location_units_per_second ≡ some p
      → up.into_version_3 l ≡ some x
      → on_runtime_upgrade up s ≡ (t, consumed)
      → (get i t.pallet.asset_id_to_location ≡ some x)
        × (get x t.pallet.asset_location_to_id ≡ some i)
        × (get x t.pallet.asset_location_units_per_second ≡ some p)
  unfolding on_runtime_upgrade
  on_runtime_upgrade-lookups s t consumed i l x p c v old found priced converted h =
      let q = s.pallet in
      let known = c.forward i l found in
      let ids = q.asset_id_to_location in
      let a = get-convert_values up i l x ids ids v.ids_distinct found converted in
      let b = converted_location q l x i v known converted in
      let d = converted_price q l x i p c v known priced converted in
      (ground (arith, a), ground (arith, b), ground (arith, d))
