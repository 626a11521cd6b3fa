-- ===== src/XcAssets.antt =====
-- The pallet of pallets/xc-asset-config/src/lib.rs: the maps between asset ids and cross-chain
-- locations, and the price of execution in an asset. The types and conversions of the `xcm` crate, the
-- callback, and the origin check are parameters.
pub mod Invariant
pub mod Calls
pub mod Lookups
pub mod Migration
pub mod Conversions
pub mod Upgrades
pub mod Registry
pub mod Histories
pub mod Events
pub mod UpgradeChecks
mod Tests
use neuroweb.Prelude.{ℕ, Bool, true, false, not, Option, none, some, List, [], ◌∷◌, ◌++◌, ◌≡◌, Eq}
use neuroweb.Storage.{StorageMap, get, insert, remove, contains_key}
use neuroweb.Dispatch.{Outcome, ok, err, ◌>>=◌, ◌>>◌, ensure, ensure_origin, ok_or, committed}

-- `trait Config`, with what the pallet uses of `xcm`: `MultiLocation::try_from` and
-- `VersionedMultiLocation::V3`.
pub record Config (Versioned Location AssetId Origin World : Type 0) : Type 0 where
  pub try_from : Versioned → Option Location
  pub v3 : Location → Versioned
  pub xc_asset_registered : AssetId → World → World
  pub xc_asset_unregistered : AssetId → World → World
  pub is_manager : Origin → Bool

pub data Error : Type 0 where
  asset_already_registered asset_does_not_exist multi_location_not_supported : Error

pub data Event (Versioned AssetId : Type 0) : Type 0 where
  asset_registered : Versioned → AssetId → Event Versioned AssetId
  units_per_second_changed : Versioned → ℕ → Event Versioned AssetId
  asset_location_changed : Versioned → AssetId → Versioned → Event Versioned AssetId
  supported_asset_removed : Versioned → Event Versioned AssetId
  asset_removed : Versioned → AssetId → Event Versioned AssetId

-- The three maps, the events deposited so far, and what the callback changes outside the pallet.
pub record Pallet (Versioned AssetId World : Type 0) : Type 0 where
  pub asset_id_to_location : StorageMap AssetId Versioned
  pub asset_location_to_id : StorageMap Versioned AssetId
  pub asset_location_units_per_second : StorageMap Versioned ℕ
  pub events : List (Event Versioned AssetId)
  pub world : World

-- `AssetLocationUnitsPerSecond::take` and, if there was a price, its insertion at the new location.
unfoldable pub move_units : {V : Type 0} ⦃ev : Eq V⦄ → V → V → StorageMap V ℕ → StorageMap V ℕ
move_units previous next m = elim (get previous m) [
  | none ↦ m
  | some units ↦ insert next units (remove previous m)
]

module _ {V L A O W : Type 0} ⦃ev : Eq V⦄ ⦃ea : Eq A⦄ (cfg : Config V L A O W) where
  -- What `register_asset_location` writes once its checks have passed.
  abbrev pub register_writes : V → A → Pallet V A W → Pallet V A W
  register_writes location asset_id s = record s {
    asset_id_to_location = insert asset_id location s.asset_id_to_location;
    asset_location_to_id = insert location asset_id s.asset_location_to_id;
    world = cfg.xc_asset_registered asset_id s.world;
    events = s.events ++ (asset_registered location asset_id ∷ []);
  }

  unfoldable pub register_asset_location : O → V → A → Pallet V A W → Outcome Error (Pallet V A W)
  register_asset_location origin asset_location asset_id s = do
    ensure_origin (cfg.is_manager origin)
    ensure (not (contains_key asset_id s.asset_id_to_location)) asset_already_registered
    v3_asset_loc ← ok_or (cfg.try_from asset_location) multi_location_not_supported
    ok (register_writes (cfg.v3 v3_asset_loc) asset_id s)

  unfoldable pub set_asset_units_per_second :
      O → V → ℕ → Pallet V A W → Outcome Error (Pallet V A W)
  set_asset_units_per_second origin asset_location units s = do
    ensure_origin (cfg.is_manager origin)
    v3_asset_loc ← ok_or (cfg.try_from asset_location) multi_location_not_supported
    let location = cfg.v3 v3_asset_loc
    ensure (contains_key location s.asset_location_to_id) asset_does_not_exist
    ok (record s {
      asset_location_units_per_second = insert location units s.asset_location_units_per_second;
      events = s.events ++ (units_per_second_changed location units ∷ []);
    })

  -- What `change_existing_asset_location` writes: the new location first, then the old one is removed.
  abbrev pub change_writes : V → V → A → Pallet V A W → Pallet V A W
  change_writes previous location asset_id s = record s {
    asset_id_to_location = insert asset_id location s.asset_id_to_location;
    asset_location_to_id = remove previous (insert location asset_id s.asset_location_to_id);
    asset_location_units_per_second =
        move_units previous location s.asset_location_units_per_second;
    events = s.events ++ (asset_location_changed previous asset_id location ∷ []);
  }

  unfoldable pub change_existing_asset_location :
      O → V → A → Pallet V A W → Outcome Error (Pallet V A W)
  change_existing_asset_location origin new_asset_location asset_id s = do
    ensure_origin (cfg.is_manager origin)
    v3_asset_loc ← ok_or (cfg.try_from new_asset_location) multi_location_not_supported
    previous ← ok_or (get asset_id s.asset_id_to_location) asset_does_not_exist
    ok (change_writes previous (cfg.v3 v3_asset_loc) asset_id s)

  unfoldable pub remove_payment_asset : O → V → Pallet V A W → Outcome Error (Pallet V A W)
  remove_payment_asset origin asset_location s = do
    ensure_origin (cfg.is_manager origin)
    v3_asset_loc ← ok_or (cfg.try_from asset_location) multi_location_not_supported
    let location = cfg.v3 v3_asset_loc
    ok (record s {
      asset_location_units_per_second = remove location s.asset_location_units_per_second;
      events = s.events ++ (supported_asset_removed location ∷ []);
    })

  unfoldable pub remove_asset : O → A → Pallet V A W → Outcome Error (Pallet V A W)
  remove_asset origin asset_id s = do
    ensure_origin (cfg.is_manager origin)
    location ← ok_or (get asset_id s.asset_id_to_location) asset_does_not_exist
    ok (record s {
      asset_id_to_location = remove asset_id s.asset_id_to_location;
      asset_location_to_id = remove location s.asset_location_to_id;
      asset_location_units_per_second = remove location s.asset_location_units_per_second;
      world = cfg.xc_asset_unregistered asset_id s.world;
      events = s.events ++ (asset_removed location asset_id ∷ []);
    })

  -- `XcAssetLocation` and `ExecutionPaymentRate`.
  unfoldable pub get_xc_asset_location : A → Pallet V A W → Option L
  get_xc_asset_location asset_id s = elim (get asset_id s.asset_id_to_location) [
    | none ↦ none
    | some x ↦ cfg.try_from x
  ]

  unfoldable pub get_asset_id : L → Pallet V A W → Option A
  get_asset_id location s = get (cfg.v3 location) s.asset_location_to_id

  unfoldable pub get_units_per_second : L → Pallet V A W → Option ℕ
  get_units_per_second location s = get (cfg.v3 location) s.asset_location_units_per_second

-- The dispatchables, as values.
pub data Call (Versioned AssetId : Type 0) : Type 0 where
  register : Versioned → AssetId → Call Versioned AssetId
  set_units : Versioned → ℕ → Call Versioned AssetId
  change : Versioned → AssetId → Call Versioned AssetId
  remove_payment : Versioned → Call Versioned AssetId
  unregister : AssetId → Call Versioned AssetId

module _ {V L A O W : Type 0} ⦃ev : Eq V⦄ ⦃ea : Eq A⦄ (cfg : Config V L A O W) where
  unfoldable pub dispatch : O → Call V A → Pallet V A W → Outcome Error (Pallet V A W)
  dispatch origin (register location asset_id) =
      register_asset_location cfg origin location asset_id
  dispatch origin (set_units location units) = set_asset_units_per_second cfg origin location units
  dispatch origin (change location asset_id) =
      change_existing_asset_location cfg origin location asset_id
  dispatch origin (remove_payment location) = remove_payment_asset cfg origin location
  dispatch origin (unregister asset_id) = remove_asset cfg origin asset_id
