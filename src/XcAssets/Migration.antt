-- ===== src/XcAssets/Migration.antt =====
-- The migration of the three maps to version 3 of `xcm`: pallets/xc-asset-config/src/migrations.rs.
use neuroweb.Prelude.{ℕ, Option, none, some, List, [], ◌∷◌, Eq, leb, if◌then◌else◌}
use neuroweb.Storage.{StorageMap, insert}
use neuroweb.XcAssets.{Pallet}

-- The conversion `into_version(3)` and the weights of storage accesses.
pub record Upgrade (Versioned Weight : Type 0) : Type 0 where
  pub into_version_3 : Versioned → Option Versioned
  pub zero_weight : Weight
  pub saturating_accrue : Weight → Weight → Weight
  pub reads_writes : ℕ → ℕ → Weight

-- The pallet with its `StorageVersion`.
pub record OnChain (Versioned AssetId World : Type 0) : Type 0 where
  pub version : ℕ
  pub pallet : Pallet Versioned AssetId World

module _ {V A X : Type 0} ⦃ea : Eq A⦄ (up : Upgrade V X) where
  -- The loop over the first map: each entry is overwritten by its conversion.
  unfoldable pub convert_values : List (A × V) → StorageMap A V → StorageMap A V
  convert_values [] m = m
  convert_values ((asset_id, legacy) ∷ entries) m =
      convert_values entries (elim (up.into_version_3 legacy) [
        | some new_location ↦ insert asset_id new_location m
        | none ↦ m
      ])

module _ {V X : Type 0} ⦃ev : Eq V⦄ (up : Upgrade V X) where
  -- The loops over the two other maps, which `drain` has emptied.
  unfoldable pub convert_keys {κ} : {B : Type κ} → List (V × B) → StorageMap V B → StorageMap V B
  convert_keys [] m = m
  convert_keys ((legacy, b) ∷ entries) m =
      convert_keys entries
        (elim (up.into_version_3 legacy) [ some new_location ↦ insert new_location b m | none ↦ m ])

module _ {V X : Type 0} (up : Upgrade V X) where
  -- One accrual for each entry.
  unfoldable pub accrue_entries {κ} : {E : Type κ} → X → List E → X → X
  accrue_entries cost [] consumed = consumed
  accrue_entries cost (e ∷ entries) consumed =
      accrue_entries cost entries (up.saturating_accrue consumed cost)

module _ {V A W X : Type 0} ⦃ev : Eq V⦄ ⦃ea : Eq A⦄ (up : Upgrade V X) where
  -- The storage after the upgrade and the consumed weight.
  unfoldable pub on_runtime_upgrade : OnChain V A W → OnChain V A W × X
  on_runtime_upgrade s =
      let ids = s.pallet.asset_id_to_location in
      let locations = s.pallet.asset_location_to_id in
      let prices = s.pallet.asset_location_units_per_second in
      if leb 2 s.version then (s, up.zero_weight) else (
        record {
          version = 2;
          pallet = record (s.pallet) {
            asset_id_to_location = convert_values up ids ids;
            asset_location_to_id = convert_keys up locations [];
            asset_location_units_per_second = convert_keys up prices [];
          };
        },
        up.saturating_accrue
            (accrue_entries up (up.reads_writes 1 2) prices (
              accrue_entries up (up.reads_writes 1 2) locations
                (accrue_entries up (up.reads_writes 1 1) ids up.zero_weight)))
            (up.reads_writes 1 0),
      )
