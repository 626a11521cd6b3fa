-- ===== src/XcAssets/Tests.antt =====
-- Concrete runs of the pallet, with the parameters instantiated, and its theorems at concrete inputs.
mod Histories
mod Upgrades
use neuroweb.Prelude.{
  ◌+◌, Bool-cases, inl, inr, ℕ, Bool, true, false, Option, none, some, List, [], ◌∷◌, ◌≡◌, ◌↔◌,
  refl, Eq, nat_eq, nat_instance, arith, if◌then◌else◌, ltb,
}
use neuroweb.Storage.{get, insert, remove}
use neuroweb.Dispatch.{ok}
use neuroweb.XcAssets.{
  Config, Pallet, Event, register, change, dispatch, get_xc_asset_location, get_asset_id,
  get_units_per_second, register_asset_location, change_existing_asset_location, remove_asset,
  move_units, register_writes, change_writes,
}
use neuroweb.XcAssets.Invariant.{IsConsistent}
use neuroweb.XcAssets.Migration.{
  Upgrade, OnChain, convert_values, convert_keys, accrue_entries, on_runtime_upgrade,
}
use neuroweb.XcAssets.Upgrades.{
  IsConvertible, on_runtime_upgrade-IsConsistent, on_runtime_upgrade-lookups,
}
use neuroweb.XcAssets.Calls.{dispatch-IsConsistent}
use neuroweb.XcAssets.Lookups.{
  register_iff, register_lookups, change_lookups, remove_lookups, change_same_location,
  register_taken_location,
}

-- Locations are numbers; those of version 2 convert below 100.
pub data Versioned : Type 0 where
  v2 v3 : ℕ → Versioned

abbrev pub versioned_eq : Versioned → Versioned → Bool
versioned_eq (v2 a) (v2 b) = nat_eq a b
versioned_eq (v2 a) (v3 b) = false
versioned_eq (v3 a) (v2 b) = false
versioned_eq (v3 a) (v3 b) = nat_eq a b

pub versioned_eq_iff : (a b : Versioned) → (versioned_eq a b ≡ true) ↔ (a ≡ b)
versioned_eq_iff (v2 a) (v2 b) = ground arith
versioned_eq_iff (v2 a) (v3 b) = ground arith
versioned_eq_iff (v3 a) (v2 b) = ground arith
versioned_eq_iff (v3 a) (v3 b) = ground arith

instance abbrev pub versioned_instance : Eq Versioned
versioned_instance = record { beq = versioned_eq; beq_iff = versioned_eq_iff }

abbrev to_latest : Versioned → Option ℕ
to_latest (v2 a) = if ltb a 100 then some a else none
to_latest (v3 a) = some a

-- The callback keeps the list of the registered ids; the origin 0 is root.
abbrev pub config : Config Versioned ℕ ℕ ℕ (List ℕ)
config = record {
  try_from = to_latest;
  v3 = v3;
  xc_asset_registered = λ i w. i ∷ w;
  xc_asset_unregistered = λ i w. w;
  is_manager = λ o. nat_eq o 0;
}

abbrev pub pallet : Pallet Versioned ℕ (List ℕ)
pallet = record {
  asset_id_to_location = (7, v3 1) ∷ [];
  asset_location_to_id = (v3 1, 7) ∷ [];
  asset_location_units_per_second = (v3 1, 50) ∷ [];
  events = [];
  world = [];
}

pub pallet-IsConsistent : IsConsistent pallet
unfolding get
pallet-IsConsistent = record {
  forward = λ i v h. ground (arith, versioned_eq_iff v (v3 1));
  backward = λ i v h. ground (arith, versioned_eq_iff v (v3 1));
  priced = λ v h. ground arith;
}

-- A run: the price goes with the location.
move_price :
    dispatch config 0 (change (v2 2) 7) pallet
    ≡ ok (record {
      asset_id_to_location = (7, v3 2) ∷ [];
      asset_location_to_id = (v3 2, 7) ∷ [];
      asset_location_units_per_second = (v3 2, 50) ∷ [];
      events = Event.asset_location_changed (v3 1) 7 (v3 2) ∷ [];
      world = [];
    })
unfolding dispatch change_existing_asset_location get insert remove move_units
move_price = refl

abbrev registered : Pallet Versioned ℕ (List ℕ)
registered = register_writes config (v3 2) 8 pallet

abbrev pub changed : Pallet Versioned ℕ (List ℕ)
changed = change_writes config (v3 1) (v3 2) 7 pallet

dispatch-IsConsistent_example : IsConsistent registered
unfolding dispatch register_asset_location get
dispatch-IsConsistent_example =
    dispatch-IsConsistent config 0 (register (v2 2) 8) pallet registered pallet-IsConsistent
      (λ l e. ground arith) refl

change_lookups_example :
    (get_xc_asset_location config 7 changed ≡ some 2)
    × (get_asset_id config 1 changed ≡ none)
    × (get_units_per_second config 1 changed ≡ none)
unfolding change_existing_asset_location get_asset_id get
change_lookups_example =
    change_lookups config (λ l. refl) 0 2 1 7 7 1 pallet changed pallet-IsConsistent refl refl refl

abbrev emptied : Pallet Versioned ℕ (List ℕ)
emptied = record {
  asset_id_to_location = [];
  asset_location_to_id = [];
  asset_location_units_per_second = [];
  events = Event.asset_removed (v3 1) 7 ∷ [];
  world = [];
}

change_same_location_example :
    (t : Pallet Versioned ℕ (List ℕ)) × (change_existing_asset_location config 0 (v3 1) 7 pallet
      ≡ ok t)
    × (get_xc_asset_location config 7 t ≡ some 1)
    × (get_asset_id config 1 t ≡ none)
unfolding get
change_same_location_example = change_same_location config (λ l. refl) 0 1 7 pallet refl refl

register_taken_location_example :
    (t : Pallet Versioned ℕ (List ℕ)) × (register_asset_location config 0 (v3 1) 8 pallet ≡ ok t)
    × (get_xc_asset_location config 7 t ≡ some 1)
    × (get_asset_id config 1 t ≡ some 8)
unfolding get
register_taken_location_example =
    register_taken_location config (λ l. refl) 0 1 7 8 pallet refl (omega arith) refl refl
