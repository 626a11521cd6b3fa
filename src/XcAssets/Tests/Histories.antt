-- ===== src/XcAssets/Tests/Histories.antt =====
-- A short history of the pallet of pallets/xc-asset-config/src/lib.rs, and the theorems on histories at it.
use neuroweb.Prelude.{nat_instance, ℕ, List, none, some, [], ◌≡◌, refl, arith}
use neuroweb.Storage.{get, insert}
use neuroweb.Dispatch.{ok}
use neuroweb.XcAssets.{
  Pallet, register, change, unregister, dispatch, get_asset_id, register_asset_location,
  change_existing_asset_location, register_writes,
}
use neuroweb.XcAssets.Registry.{registry, Follows, dispatch-Follows}
use neuroweb.XcAssets.Histories.{genesis, Step, Reach, start, later, called, Reach-can_reassign}
use neuroweb.XcAssets.Events.{empty_registry, replay, Reach-replay}
use neuroweb.XcAssets.Tests.{
  versioned_instance, Versioned, v3, v2, config, pallet, pallet-IsConsistent, changed,
}

-- Asset 7 is registered at location 1.
abbrev first : Pallet Versioned ℕ (List ℕ)
first = register_writes config (v3 1) 7 (genesis [])

first_step : Step config (genesis []) first
unfolding dispatch register_asset_location get
first_step = called 0 (register (v3 1) 7) (λ l e. ground arith) refl

reached : Reach config first
reached = later (start []) first_step

dispatch-Follows_example : Follows config (change (v2 2) 7) pallet changed
unfolding dispatch change_existing_asset_location get
dispatch-Follows_example =
    dispatch-Follows config 0 (change (v2 2) 7) pallet changed pallet-IsConsistent
      (λ l e. ground arith) refl

-- Asset 8 is registered at location 2.
abbrev both : Pallet Versioned ℕ (List ℕ)
both = register_writes config (v3 2) 8 first

second_step : Step config first both
unfolding dispatch register_asset_location get insert
second_step = called 0 (register (v2 2) 8) (λ l e. ground arith) refl

reached_both : Reach config both
reached_both = later reached second_step

Reach-replay_example : registry both 8 ≡ replay both.events empty_registry 8
Reach-replay_example = Reach-replay config both 8 reached_both

Reach-can_reassign_example :
    (t : Pallet Versioned ℕ (List ℕ)) × (u : Pallet Versioned ℕ (List ℕ)) × (dispatch config 0
        (unregister 7)
        first
      ≡ ok t)
    × (dispatch config 0 (register (v3 1) 8) t ≡ ok u)
    × Reach config u
    × (registry u 8 ≡ some (v3 1, none))
    × (get_asset_id config 1 u ≡ some 8)
unfolding get insert
Reach-can_reassign_example =
    Reach-can_reassign config (λ l. refl) 0 7 8 1 first reached refl refl refl
