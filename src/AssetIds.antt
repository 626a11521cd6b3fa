-- ===== src/AssetIds.antt =====
-- `AddressToAssetId` of runtime/src/lib.rs: the asset precompiles' addresses are the prefix and the 16
-- bytes of the asset's id.
use neuroweb.Prelude.{
  ℕ, zero, suc, ◌<◌, ◌^◌, ◌≡◌, sym, ap, ◌∙◌, Option, none, some, List, [], ◌∷◌, ◌++◌, arith, length,
  take, drop, replicate, take_append_drop, length-drop, take-all, bytes_eq, bytes_eq_iff,
  if◌then◌else◌, All,
}
use neuroweb.Prelude.Words.{
  IsByte, to_be_bytes, from_be_bytes, length-to_be_bytes, from_be_bytes-to_be_bytes,
  to_be_bytes-from_be_bytes,
}

-- `ASSET_PRECOMPILE_ADDRESS_PREFIX`
abbrev pub asset_precompile_address_prefix : List ℕ
asset_precompile_address_prefix = replicate 4 255

unfoldable pub address_to_asset_id : List ℕ → Option ℕ
address_to_asset_id address =
    if bytes_eq asset_precompile_address_prefix (take 4 address)
    then some (from_be_bytes (take 16 (drop 4 address)))
    else none

unfoldable pub asset_id_to_address : ℕ → List ℕ
asset_id_to_address asset_id = asset_precompile_address_prefix ++ to_be_bytes 16 asset_id

-- The address of an asset of 128 bits leads back to the asset.
pub address_to_asset_id-asset_id_to_address :
    (id : ℕ) → id < 2 ^ 128 → address_to_asset_id (asset_id_to_address id) ≡ some id
unfolding address_to_asset_id asset_id_to_address
address_to_asset_id-asset_id_to_address id small =
    let whole : take 16 (to_be_bytes 16 id) ≡ to_be_bytes 16 id =
      take-all 16 _ (omega (arith, length-to_be_bytes 16 id)) in
    rw whole (ap some (from_be_bytes-to_be_bytes 16 id small))

All-drop : (n : ℕ) (xs : List ℕ) → All IsByte xs → All IsByte (drop n xs)
All-drop zero xs h = h
All-drop (suc n) [] h = tt
All-drop (suc n) (x ∷ xs) (hx, h) = All-drop n xs h

-- An address of 20 bytes that leads to an asset is the asset's own address: no two addresses share
-- an asset.
pub asset_id_to_address-address_to_asset_id :
    (address : List ℕ) (id : ℕ)
    → length address ≡ 20
    → All IsByte address
    → address_to_asset_id address ≡ some id
    → asset_id_to_address id ≡ address
unfolding address_to_asset_id asset_id_to_address
asset_id_to_address-address_to_asset_id address id size bytes h =
    let rest = drop 4 address in
    let sixteen : length rest ≡ 16 = omega (arith, length-drop 4 address) in
    let whole : take 16 rest ≡ rest = take-all 16 rest (omega arith) in
    let shape : (asset_precompile_address_prefix ≡ take 4 address) × (from_be_bytes rest ≡ id) =
      ground (arith, bytes_eq_iff asset_precompile_address_prefix (take 4 address)) in
    let back : to_be_bytes 16 (from_be_bytes rest) ≡ rest =
      sym (ap (λ n. to_be_bytes n (from_be_bytes rest)) sixteen)
      ∙ to_be_bytes-from_be_bytes rest (All-drop 4 address bytes) in
    cc (shape.0, shape.1, back, take_append_drop 4 address)
