-- ===== src/Precompiles.antt =====
-- `FrontierPrecompiles` of runtime/src/precompiles.rs: which code answers at which address. The Ethereum
-- precompiles and the set of asset precompiles are parameters.
pub mod Routing
pub mod Assets
pub mod Requests
mod Tests
use Prim.Native.String.{String}
use neuroweb.Prelude.{
  ℕ, Bool, true, false, not, ◌&&◌, ◌||◌, Option, none, some, List, [], ◌∷◌, ◌++◌, ltb, take,
  replicate, bytes_eq, if◌then◌else◌,
}
use neuroweb.Prelude.Words.{to_be_bytes, from_be_bytes}
use neuroweb.Abi.Failure.{EvmResult, err, revert}
use neuroweb.Evm.{PrecompileHandle}
use neuroweb.AssetIds.{asset_precompile_address_prefix}

pub data Native : Type 0 where
  ec_recover sha256 ripemd160 identity modexp sha3_fips256 ec_recover_public_key : Native

-- `H160::from_low_u64_be`
abbrev pub hash : ℕ → List ℕ
hash a = replicate 12 0 ++ to_be_bytes 8 a

-- `used_addresses`
abbrev pub used_addresses : List (List ℕ)
used_addresses = hash 1 ∷ hash 2 ∷ hash 3 ∷ hash 4 ∷ hash 5 ∷ hash 1024 ∷ hash 1025 ∷ []

-- `any(|x| x == address)`
unfoldable pub is_used : List (List ℕ) → List ℕ → Bool
is_used [] address = false
is_used (x ∷ rest) address = bytes_eq x address || is_used rest address

-- The precompiles that are not in this file.
pub record Contracts (H : Type 0) : Type 0 where
  pub run_native : Native → H → EvmResult (List ℕ × H)
  pub assets_execute : H → Option (EvmResult (List ℕ × H))
  pub assets_is_precompile : List ℕ → H → Bool

-- The arms of the `match` before the asset prefix.
unfoldable pub native_at : List ℕ → Option Native
native_at address =
    if bytes_eq address (hash 1)
    then some ec_recover
    else if bytes_eq address (hash 2)
    then some sha256
    else if bytes_eq address (hash 3)
    then some ripemd160
    else if bytes_eq address (hash 4)
    then some identity
    else if bytes_eq address (hash 5)
    then some modexp
    else if bytes_eq address (hash 1024)
    then some sha3_fips256
    else if bytes_eq address (hash 1025)
    then some ec_recover_public_key
    else none

module _ {H : Type 0} (handle : PrecompileHandle H) (contracts : Contracts H) where
  unfoldable pub is_precompile : List ℕ → H → Bool
  is_precompile address h =
      contracts.assets_is_precompile address h || is_used used_addresses address

  -- The `match` on the address.
  unfoldable pub route : List ℕ → H → Option (EvmResult (List ℕ × H))
  route address h = elim (native_at address) [
    | some native ↦ some (contracts.run_native native h)
    | none ↦
        if bytes_eq (take 4 address) asset_precompile_address_prefix
        then contracts.assets_execute h
        else none
  ]

  -- `H160` is ordered as a big-endian number.
  unfoldable pub execute : H → Option (EvmResult (List ℕ × H))
  execute h =
      let address = handle.code_address h in
      if is_precompile address h
        && ltb 9 (from_be_bytes address)
        && not (bytes_eq (handle.context_address h) address)
      then some (err (revert "cannot be called with DELEGATECALL or CALLCODE"))
      else route address h
