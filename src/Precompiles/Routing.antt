-- ===== src/Precompiles/Routing.antt =====
-- Which addresses runtime/src/precompiles.rs answers, and what it refuses.
use neuroweb.Prelude.{
  ℕ, ◌<◌, ◌≡◌, ◌≢◌, ◌⊎◌, inl, inr, refl, ◌∙◌, Bool, true, false, not, ◌&&◌, ◌||◌, Bool-cases,
  Option, none, some, List, ltb, take, bytes_eq, bytes_eq_iff, if◌then◌else◌, arith,
}
use neuroweb.Prelude.Words.{from_be_bytes}
use neuroweb.Abi.Failure.{EvmResult, err, revert}
use neuroweb.Evm.{PrecompileHandle}
use neuroweb.AssetIds.{asset_precompile_address_prefix}
use neuroweb.Precompiles.{
  Native, native_at, used_addresses, is_used, hash, Contracts, is_precompile, route, execute,
}

unfoldable Agrees : Bool → Option Native → Type 0
Agrees listed found =
    ((listed ≡ true) × ((n : Native) × (found ≡ some n))) ⊎ ((listed ≡ false) × (found ≡ none))

arm-Agrees :
    (address x : List ℕ) (n : Native) (listed : Bool) (found : Option Native)
    → Agrees listed found
    → Agrees (bytes_eq x address || listed) (if bytes_eq address x then some n else found)
unfolding Agrees
arm-Agrees address x n listed found (inl (used, (m, e))) = elim (Bool-cases (bytes_eq address x)) [
  | inl same ↦
      inl (ground (arith, bytes_eq_iff address x, bytes_eq_iff x address), (n, ground arith))
  | inr distinct ↦
      inl (ground (arith, bytes_eq_iff address x, bytes_eq_iff x address), (m, ground arith))
]
arm-Agrees address x n listed found (inr (unused, e)) = elim (Bool-cases (bytes_eq address x)) [
  | inl same ↦
      inl (ground (arith, bytes_eq_iff address x, bytes_eq_iff x address), (n, ground arith))
  | inr distinct ↦
      inr (ground (arith, bytes_eq_iff address x, bytes_eq_iff x address), ground arith)
]

-- A native precompile stands exactly at the addresses that `used_addresses` lists.
native_at-Agrees : (address : List ℕ) → Agrees (is_used used_addresses address) (native_at address)
unfolding native_at is_used Agrees
native_at-Agrees address = arm-Agrees address (hash 1) _ _ _ (
    arm-Agrees address (hash 2) _ _ _ (
      arm-Agrees address (hash 3) _ _ _ (
        arm-Agrees address (hash 4) _ _ _ (
          arm-Agrees address (hash 5) _ _ _ (
            arm-Agrees address (hash 1024) _ _ _
              (arm-Agrees address (hash 1025) _ false none (inr (refl, refl))))))))

module _ {H : Type 0} (handle : PrecompileHandle H) (contracts : Contracts H) where
  is_precompile-is_used :
      (address : List ℕ) (h : H)
      → contracts.assets_is_precompile address h ≡ false
      → is_precompile handle contracts address h ≡ is_used used_addresses address
  unfolding is_precompile
  is_precompile-is_used address h other = rw other

  route-native :
      (address : List ℕ) (h : H) (n : Native)
      → native_at address ≡ some n
      → route handle contracts address h ≡ some (contracts.run_native n h)
  unfolding route
  route-native address h n found = ground arith

  route-plain :
      (address : List ℕ) (h : H)
      → native_at address ≡ none
      → bytes_eq (take 4 address) asset_precompile_address_prefix ≡ false
      → route handle contracts address h ≡ none
  unfolding route
  route-plain address h found plain = ground arith

  -- What the guard lets through is answered by the route.
  execute-refused :
      (h : H) (out : EvmResult (List ℕ × H))
      → route handle contracts (handle.code_address h) h ≡ some out
      → (out : EvmResult (List ℕ × H)) × (execute handle contracts h ≡ some out)
  unfolding execute
  execute-refused h out e =
      elim (Bool-cases (
        is_precompile handle contracts (handle.code_address h) h
        && ltb 9 (from_be_bytes (handle.code_address h))
        && not (bytes_eq (handle.context_address h) (handle.code_address h)))) [
          | inl refused ↦
              (err (revert "cannot be called with DELEGATECALL or CALLCODE"), rw refused)
          | inr allowed ↦ (out, rw allowed e)
        ]

  -- Outside the asset prefix, and where the asset precompiles deny an address, the address is
  -- answered exactly if it says that it is a precompile.
  pub execute-native :
      (h : H)
      → bytes_eq (take 4 (handle.code_address h)) asset_precompile_address_prefix ≡ false
      → contracts.assets_is_precompile (handle.code_address h) h ≡ false
      → ((is_precompile handle contracts (handle.code_address h) h ≡ true)
          × ((out : EvmResult (List ℕ × H)) × (execute handle contracts h ≡ some out)))
        ⊎ ((is_precompile handle contracts (handle.code_address h) h ≡ false)
            × (execute handle contracts h ≡ none))
  unfolding execute Agrees
  execute-native h plain other =
      let a = handle.code_address h in
      let same = is_precompile-is_used a h other in
      elim (native_at-Agrees a) [
        | inl (used, (n, found)) ↦
            inl
              (same ∙ used, execute-refused h (contracts.run_native n h) (route-native a h n found))
        | inr (unused, found) ↦
            inr (same ∙ unused, rw (same ∙ unused) (route-plain a h found plain))
      ]

  -- A precompile beyond the Ethereum ones refuses to run on behalf of another contract.
  pub execute-delegated :
      (h : H)
      → is_precompile handle contracts (handle.code_address h) h ≡ true
      → 9 < from_be_bytes (handle.code_address h)
      → handle.context_address h ≢ handle.code_address h
      → execute handle contracts h
        ≡ some (err (revert "cannot be called with DELEGATECALL or CALLCODE"))
  unfolding execute
  execute-delegated h answers high other =
      ground (arith, bytes_eq_iff (handle.context_address h) (handle.code_address h))
