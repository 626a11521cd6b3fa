-- ===== src/XcAssets/Tests/Upgrades.antt =====
-- An upgrade as pallets/xc-asset-config/src/migrations.rs does it, and the theorems on upgrades at it.
use neuroweb.Prelude.{
  ◌+◌, Bool-cases, inl, inr, ℕ, Option, none, some, List, [], ◌∷◌, ◌≡◌, ◌↔◌, refl, nat_eq,
  nat_instance, arith, if◌then◌else◌, ltb,
}
use neuroweb.Storage.{get, insert}
use neuroweb.XcAssets.{Pallet}
use neuroweb.XcAssets.Invariant.{IsConsistent}
use neuroweb.XcAssets.Migration.{
  Upgrade, OnChain, convert_values, convert_keys, accrue_entries, on_runtime_upgrade,
}
use neuroweb.XcAssets.Upgrades.{
  IsConvertible, on_runtime_upgrade-IsConsistent, on_runtime_upgrade-lookups,
}
use neuroweb.XcAssets.UpgradeChecks.{
  passed, panicked, pre_upgrade, check_entries, post_upgrade, post_upgrade_iff,
}
use neuroweb.XcAssets.Tests.{Versioned, v2, v3, versioned_eq, versioned_eq_iff, versioned_instance}

abbrev to_version_3 : Versioned → Option Versioned
to_version_3 (v2 a) = if ltb a 100 then some (v3 a) else none
to_version_3 (v3 a) = some (v3 a)

-- A pallet whose locations are all of version 2.
abbrev legacy : Pallet Versioned ℕ (List ℕ)
legacy = record {
  asset_id_to_location = (7, v2 1) ∷ (8, v2 2) ∷ [];
  asset_location_to_id = (v2 1, 7) ∷ (v2 2, 8) ∷ [];
  asset_location_units_per_second = (v2 1, 50) ∷ [];
  events = [];
  world = [];
}

abbrev on_chain : OnChain Versioned ℕ (List ℕ)
on_chain = record { version = 1; pallet = legacy }

-- A weight is a number.
abbrev upgrade : Upgrade Versioned ℕ
upgrade = record {
  into_version_3 = to_version_3;
  zero_weight = 0;
  saturating_accrue = λ a b. a + b;
  reads_writes = λ r w. r + w;
}

legacy-IsConsistent : IsConsistent legacy
unfolding get
legacy-IsConsistent = record {
  forward = λ i v h. ground (arith, versioned_eq_iff v (v2 1), versioned_eq_iff v (v2 2));
  backward = λ i v h. ground (arith, versioned_eq_iff v (v2 1), versioned_eq_iff v (v2 2));
  priced = λ v h. ground (arith, versioned_eq_iff v (v2 1));
}

legacy-IsConvertible : IsConvertible upgrade legacy
unfolding get
legacy-IsConvertible = record {
  ids_distinct = (refl, (refl, tt));
  locations_distinct = (refl, (refl, tt));
  prices_distinct = (refl, tt);
  converts = λ l i h. elim (Bool-cases (versioned_eq l (v2 1))) [
    | inl first ↦ (v3 1, ground (arith, versioned_eq_iff l (v2 1)))
    | inr other ↦ (v3 2, ground (arith, versioned_eq_iff l (v2 2)))
  ];
  separates = λ k l x i j hk hl ck cl. ground (
    arith,
    versioned_eq_iff k (v2 1),
    versioned_eq_iff k (v2 2),
    versioned_eq_iff l (v2 1),
    versioned_eq_iff l (v2 2),
  );
}

abbrev upgraded : OnChain Versioned ℕ (List ℕ)
upgraded = record {
  version = 2;
  pallet = record {
    asset_id_to_location = (7, v3 1) ∷ (8, v3 2) ∷ [];
    asset_location_to_id = (v3 1, 7) ∷ (v3 2, 8) ∷ [];
    asset_location_units_per_second = (v3 1, 50) ∷ [];
    events = [];
    world = [];
  };
}

-- A run: the weights of two, two and one entries, and of the version.
upgrade_legacy : on_runtime_upgrade upgrade on_chain ≡ (upgraded, 14)
unfolding on_runtime_upgrade convert_values convert_keys accrue_entries insert
upgrade_legacy = refl

on_runtime_upgrade-IsConsistent_example :
    IsConsistent (on_runtime_upgrade upgrade on_chain).0.pallet
on_runtime_upgrade-IsConsistent_example =
    on_runtime_upgrade-IsConsistent upgrade on_chain legacy-IsConsistent legacy-IsConvertible

on_runtime_upgrade-lookups_example :
    (get 7 upgraded.pallet.asset_id_to_location ≡ some (v3 1))
    × (get (v3 1) upgraded.pallet.asset_location_to_id ≡ some 7)
    × (get (v3 1) upgraded.pallet.asset_location_units_per_second ≡ some 50)
unfolding get
on_runtime_upgrade-lookups_example =
    on_runtime_upgrade-lookups upgrade on_chain upgraded 14 7 (v2 1) (v3 1) 50 legacy-IsConsistent
      legacy-IsConvertible (omega arith) refl refl refl upgrade_legacy

-- Three numbers for each entry: the asset, the version and the location.
abbrev encode : List (ℕ × Versioned) → List ℕ
encode [] = []
encode ((i, v2 a) ∷ entries) = i ∷ 2 ∷ a ∷ encode entries
encode ((i, v3 a) ∷ entries) = i ∷ 3 ∷ a ∷ encode entries

abbrev versioned : ℕ → ℕ → Versioned
versioned version a = if nat_eq version 2 then v2 a else v3 a

abbrev more : ℕ × Versioned → Option (List (ℕ × Versioned)) → Option (List (ℕ × Versioned))
more entry none = none
more entry (some entries) = some (entry ∷ entries)

abbrev decode : List ℕ → Option (List (ℕ × Versioned))
decode [] = some []
decode (i ∷ []) = none
decode (i ∷ version ∷ []) = none
decode (i ∷ version ∷ a ∷ state) = more (i, versioned version a) (decode state)

decode-encode : (entries : List (ℕ × Versioned)) → decode (encode entries) ≡ some entries
decode-encode [] = refl
decode-encode ((i, v2 a) ∷ entries) = rw (decode-encode entries) refl
decode-encode ((i, v3 a) ∷ entries) = rw (decode-encode entries) refl

-- A run: the asset 8 has no price.
post_upgrade_legacy :
    post_upgrade decode (encode legacy.asset_id_to_location) (on_runtime_upgrade upgrade on_chain).0
    ≡ panicked
unfolding post_upgrade check_entries on_runtime_upgrade convert_values convert_keys insert get
post_upgrade_legacy = refl

post_upgrade_iff_example :
    (post_upgrade decode
        (encode legacy.asset_id_to_location)
        (on_runtime_upgrade upgrade on_chain).0
      ≡ passed)
    ↔ ((i : ℕ) (l : Versioned)
        → get i legacy.asset_id_to_location ≡ some l
        → (p : ℕ) × (get l legacy.asset_location_units_per_second ≡ some p))
unfolding pre_upgrade
post_upgrade_iff_example =
    post_upgrade_iff upgrade encode decode (encode legacy.asset_id_to_location) on_chain
      decode-encode legacy-IsConsistent legacy-IsConvertible refl
