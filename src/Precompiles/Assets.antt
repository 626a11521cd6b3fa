-- ===== src/Precompiles/Assets.antt =====
-- The asset precompiles (precompiles/assets-erc20/src/lib.rs) behind the routes of
-- runtime/src/precompiles.rs.
use neuroweb.Prelude.{
  ℕ, ◌<◌, ◌^◌, ◌≡◌, ◌≢◌, refl, ◌∙◌, true, false, not, none, some, List, ◌∷◌, ltb, nat_eq, lt→ltb,
  take, bytes_eq, bytes_eq_iff, if◌then◌else◌, arith,
}
use neuroweb.Prelude.Words.{to_be_bytes, from_be_bytes, from_be_bytes-ge}
use neuroweb.Abi.Failure.{EvmResult, err, revert}
use neuroweb.Evm.{PrecompileHandle}
use neuroweb.AssetIds.{
  asset_precompile_address_prefix, address_to_asset_id, asset_id_to_address,
  address_to_asset_id-asset_id_to_address,
}
use neuroweb.Erc20.{Assets}
use neuroweb.Erc20.Execute.{execute_asset}
use neuroweb.Precompiles.{
  Native, native_at, used_addresses, is_used, Contracts, is_precompile, route, execute,
}

-- `Erc20AssetsPrecompileSet` as the set of asset precompiles.
abbrev pub with_assets :
    {H AccountId : Type 0}
    → PrecompileHandle H
    → Assets H AccountId
    → (Native → H → EvmResult (List ℕ × H))
    → Contracts H
with_assets handle runtime run_native = record {
  run_native = run_native;
  assets_execute = neuroweb.Erc20.Execute.execute handle runtime;
  assets_is_precompile = neuroweb.Erc20.Execute.is_precompile handle runtime;
}

asset_address-unused : (id : ℕ) → is_used used_addresses (asset_id_to_address id) ≡ false
unfolding is_used asset_id_to_address
asset_address-unused id = refl

asset_address-native_at : (id : ℕ) → native_at (asset_id_to_address id) ≡ none
unfolding native_at asset_id_to_address to_be_bytes
asset_address-native_at id = refl

asset_address-prefix :
    (id : ℕ) → bytes_eq (take 4 (asset_id_to_address id)) asset_precompile_address_prefix ≡ true
unfolding asset_id_to_address
asset_address-prefix id = refl

asset_address-high : (id : ℕ) → ltb 9 (from_be_bytes (asset_id_to_address id)) ≡ true
unfolding asset_id_to_address
asset_address-high id =
    lt→ltb 9 _ (omega (arith, from_be_bytes-ge 255 (255 ∷ 255 ∷ 255 ∷ to_be_bytes 16 id)))

module _ {H AccountId : Type 0} (handle : PrecompileHandle H) (runtime : Assets H AccountId)
    (run_native : Native → H → EvmResult (List ℕ × H)) where
  pub is_precompile-asset :
      (id n : ℕ) (h : H)
      → runtime.address_to_asset_id (asset_id_to_address id) ≡ some id
      → runtime.maybe_total_supply id h ≡ some n
      → is_precompile handle (with_assets handle runtime run_native) (asset_id_to_address id) h
        ≡ not (nat_eq n 0)
  unfolding is_precompile neuroweb.Erc20.Execute.is_precompile
  is_precompile-asset id n h ha hs = ground (arith, asset_address-unused id)

  pub route-asset :
      (id n : ℕ) (h : H)
      → handle.code_address h ≡ asset_id_to_address id
      → runtime.address_to_asset_id (asset_id_to_address id) ≡ some id
      → runtime.maybe_total_supply id h ≡ some n
      → route handle (with_assets handle runtime run_native) (asset_id_to_address id) h
        ≡ some (execute_asset handle runtime id h)
  unfolding route neuroweb.Erc20.Execute.execute
  route-asset id n h here ha hs =
      ground (arith, asset_address-native_at id, asset_address-prefix id)

  -- An existing asset of 128 bits that is called on behalf of another contract refuses if it has
  -- supply; one without supply runs.
  pub execute-delegated_asset :
      (id n : ℕ) (h : H)
      → id < 2 ^ 128
      → ((a : List ℕ) → runtime.address_to_asset_id a ≡ address_to_asset_id a)
      → handle.code_address h ≡ asset_id_to_address id
      → handle.context_address h ≢ asset_id_to_address id
      → runtime.maybe_total_supply id h ≡ some n
      → execute handle (with_assets handle runtime run_native) h ≡ (
          if nat_eq n 0
          then some (execute_asset handle runtime id h)
          else some (err (revert "cannot be called with DELEGATECALL or CALLCODE")))
  unfolding execute
  execute-delegated_asset id n h small ids here other hs =
      let ha = ids (asset_id_to_address id) ∙ address_to_asset_id-asset_id_to_address id small in
      rw
        (
          here,
          is_precompile-asset id n h ha hs,
          asset_address-high id,
          route-asset id n h here ha hs,
        )
        (ground (arith, bytes_eq_iff (handle.context_address h) (asset_id_to_address id)))
