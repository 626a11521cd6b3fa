-- ===== src/Precompiles/Tests.antt =====
-- The theorems on the routes and on the addresses of assets at concrete inputs.
use neuroweb.Prelude.{ℕ, ◌≡◌, refl, some, List, [], ◌∷◌, ◌++◌, replicate, arith}
use neuroweb.Prelude.Words.{to_be_bytes, from_be_bytes}
use neuroweb.Abi.Failure.{EvmResult, err, revert, and_then}
use neuroweb.AssetIds.{
  address_to_asset_id, asset_id_to_address, asset_id_to_address-address_to_asset_id,
}
use neuroweb.Erc20.Execute.{execute_asset, modifier_of}
use neuroweb.Erc20.Requests.{encode_request, prepay, effect}
use neuroweb.Erc20.Tests.{
  Machine, machine_handle, machine_runtime, solidity_selector, contract, with_input, request,
  requested, machine-KeepsInput, selector-injective,
}
use neuroweb.Precompiles.{Native, hash, execute}
use neuroweb.Precompiles.Requests.{execute-asset_request}
use neuroweb.Precompiles.Assets.{with_assets, execute-delegated_asset}

-- A contract calls the asset on its own behalf.
abbrev delegated : ℕ → Machine
delegated supply = record (with_input (encode_request solidity_selector request) supply) {
  context = contract;
}

abbrev no_native : Native → Machine → EvmResult (List ℕ × Machine)
no_native n m = err (revert "")

execute-delegated_asset_example :
    execute machine_handle (with_assets machine_handle machine_runtime no_native) (delegated 0)
    ≡ some (execute_asset machine_handle machine_runtime 7 (delegated 0))
unfolding asset_id_to_address to_be_bytes
execute-delegated_asset_example =
    execute-delegated_asset machine_handle machine_runtime no_native 7 0 (delegated 0) (omega arith)
      (λ a. refl) refl (λ e. cc) refl

execute-asset_request_example :
    execute machine_handle (with_assets machine_handle machine_runtime no_native) requested
    ≡ some (
        and_then
          (prepay machine_handle machine_runtime request requested)
          (effect machine_handle machine_runtime request 7))
unfolding modifier_of asset_id_to_address to_be_bytes
execute-asset_request_example =
    execute-asset_request machine_handle machine_runtime no_native request 7 90 requested
      machine-KeepsInput selector-injective (omega arith) (refl, omega arith) refl (omega arith)
      (λ a. refl) refl refl refl refl refl

-- The address of the identity precompile.
abbrev at_identity : Machine
at_identity = record (with_input [] 90) { code = hash 4 }

abbrev asset_42 : List ℕ
asset_42 = replicate 4 255 ++ (replicate 15 0 ++ (42 ∷ []))

asset_id_to_address-address_to_asset_id_example : asset_id_to_address 42 ≡ asset_42
unfolding address_to_asset_id from_be_bytes
asset_id_to_address-address_to_asset_id_example =
    asset_id_to_address-address_to_asset_id asset_42 42 refl (omega arith) refl
