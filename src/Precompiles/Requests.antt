-- ===== src/Precompiles/Requests.antt =====
-- A Solidity call of an asset through the precompiles of runtime/src/precompiles.rs.
use neuroweb.Prelude.{ℕ, ◌<◌, ◌^◌, ◌≡◌, ◌∙◌, ap, false, not, ◌&&◌, some, List, bytes_eq_iff, arith}
use neuroweb.Abi.Failure.{EvmResult, and_then}
use neuroweb.Evm.{PrecompileHandle, is_view}
use neuroweb.AssetIds.{
  address_to_asset_id, asset_id_to_address, address_to_asset_id-asset_id_to_address,
}
use neuroweb.Erc20.{Action, Assets}
use neuroweb.Erc20.Execute.{modifier_of, execute_asset}
use neuroweb.Erc20.Requests.{
  Request, action_of, encode_request, RequestOk, prepay, effect, KeepsInput,
}
use neuroweb.Erc20.Guards.{execute-request}
use neuroweb.Precompiles.{Native, execute}
use neuroweb.Precompiles.Assets.{with_assets, route-asset}

module _ {H AccountId : Type 0} (handle : PrecompileHandle H) (runtime : Assets H AccountId)
    (run_native : Native → H → EvmResult (List ℕ × H)) where
  execute-own_asset :
      (id n : ℕ) (h : H)
      → id < 2 ^ 128
      → ((a : List ℕ) → runtime.address_to_asset_id a ≡ address_to_asset_id a)
      → handle.code_address h ≡ asset_id_to_address id
      → handle.context_address h ≡ asset_id_to_address id
      → runtime.maybe_total_supply id h ≡ some n
      → execute handle (with_assets handle runtime run_native) h
        ≡ neuroweb.Erc20.Execute.execute handle runtime h
  unfolding execute neuroweb.Erc20.Execute.execute
  execute-own_asset id n h small ids here own hs =
      let ha = ids (asset_id_to_address id) ∙ address_to_asset_id-asset_id_to_address id small in
      let routed = route-asset handle runtime run_native id n h here ha hs in
      ground (arith, routed, ha, bytes_eq_iff (handle.context_address h) (asset_id_to_address id))

  -- A call to the address of an existing asset of 128 bits, of the asset itself, that encodes a
  -- request with arguments in range, without value, and not static if it changes the asset, charges
  -- its cost and then has the effect that it names, if selectors are distinct and have 32 bits, and
  -- charging gas leaves the input alone.
  pub execute-asset_request :
      (r : Request) (id supply : ℕ) (h : H)
      → KeepsInput handle runtime
      → ((a b : Action) → runtime.selector_of a ≡ runtime.selector_of b → a ≡ b)
      → runtime.selector_of (action_of r) < 2 ^ 32
      → RequestOk r
      → handle.input h ≡ encode_request runtime.selector_of r
      → id < 2 ^ 128
      → ((a : List ℕ) → runtime.address_to_asset_id a ≡ address_to_asset_id a)
      → handle.code_address h ≡ asset_id_to_address id
      → handle.context_address h ≡ asset_id_to_address id
      → runtime.maybe_total_supply id h ≡ some supply
      → (handle.is_static h && not (is_view (modifier_of (action_of r)))) ≡ false
      → handle.apparent_value h ≡ 0
      → execute handle (with_assets handle runtime run_native) h
        ≡ some (and_then (prepay handle runtime r h) (effect handle runtime r id))
  execute-asset_request r id supply h keeps injective bits valid e small ids here own hs static
        value =
      let ha = ids (asset_id_to_address id) ∙ address_to_asset_id-asset_id_to_address id small in
      execute-own_asset id supply h small ids here own hs
      ∙ execute-request handle runtime r id supply h keeps injective bits valid e
          (ap runtime.address_to_asset_id here ∙ ha) hs static value
