-- ===== src/EvmAccounts/Claims.antt =====
-- The two ways of claiming an address in pallets/evm-accounts/src/lib.rs.
use neuroweb.Prelude.{
  bytes_eq, ℕ, true, Bool-cases, Option-cases, ◌⊎◌, none, some, inl, inr, ◌≡◌, ◌↔◌, sym, subst,
  List, bytes_eq_iff, bytes_instance, arith, if◌then◌else◌,
}
use neuroweb.Storage.{get, contains_key, get-insert}
use neuroweb.Dispatch.{ok, err, Outcome-cases, module_error}
use neuroweb.EvmAccounts.{
  AccountId, EvmAddress, Config, account_id_has_mapped, eth_address_has_mapped, Pallet, map_account,
  get_account_id, get_evm_address, account_to_default_evm_address, get_or_create_evm_address,
  claim_account_call, claim_default_account, do_claim_default_evm_address, merge_padded,
  underlying_address, is_linked, verify_eip712_signature, kill_accounts,
}
use neuroweb.EvmAccounts.Mapping.{
  IsInverse, map_account-IsInverse, kill_accounts-IsInverse, kill_accounts-free,
  kill_accounts-unmapped,
}

module _ {W : Type 0} (cfg : Config W) where
  -- What the merge leaves is the old state, or that with the mappings of killed accounts removed.
  merge_padded-cases :
      (a : EvmAddress) (who : AccountId) (s m : Pallet W)
      → merge_padded cfg a who s ≡ ok m
      → (m ≡ s)
        ⊎ ((world : W) × (killed : List AccountId) × (m
              ≡ kill_accounts killed (record s { world = world })))
  unfolding merge_padded
  merge_padded-cases a who s m h =
      elim (Bool-cases (cfg.account_exists (get_account_id a s) s.world)) [
        | inl exists ↦ elim (Outcome-cases (cfg.merge_account (get_account_id a s) who s.world)) [
          | inl (e, failed) ↦ ground arith
          | inr ((world, killed), merged) ↦ inr (world, killed, ground arith)
        ]
        | inr absent ↦ inl (ground arith)
      ]

  merge_padded-keeps :
      (a : EvmAddress) (who : AccountId) (s m : Pallet W)
      → merge_padded cfg a who s ≡ ok m
      → IsInverse s
      → get a s.accounts ≡ none
      → get who s.evm_addresses ≡ none
      → IsInverse m × (get a m.accounts ≡ none) × (get who m.evm_addresses ≡ none)
  merge_padded-keeps a who s m h c ha hw = elim (merge_padded-cases a who s m h) [
    | inl same ↦
        subst (λ m. IsInverse m × (get a m.accounts ≡ none) × (get who m.evm_addresses ≡ none))
          (sym same) (c, ha, hw)
    | inr (world, killed, e) ↦
        let s' = record s { world = world } in
        let c' : IsInverse s' = record { forward = c.forward; backward = c.backward } in
        subst (λ m. IsInverse m × (get a m.accounts ≡ none) × (get who m.evm_addresses ≡ none))
          (sym e)
          (
            kill_accounts-IsInverse killed s' c',
            kill_accounts-free killed a s' ha,
            kill_accounts-unmapped killed who s' hw,
          )
  ]

  -- What a successful claim has checked, and what it leaves.
  pub claim_account-inversion :
      (who : AccountId) (a : EvmAddress) (sig : List ℕ) (s t : Pallet W)
      → claim_account_call cfg (some who) a sig s ≡ ok t
      → (get who s.evm_addresses ≡ none)
        × (get a s.accounts ≡ none)
        × (verify_eip712_signature cfg who sig ≡ some a)
        × ((m : Pallet W) × (merge_padded cfg a who s ≡ ok m) × (t ≡ map_account a who m))
  unfolding claim_account_call
  claim_account-inversion who a sig s t h =
      elim (Option-cases (verify_eip712_signature cfg who sig)) [
        | inl bad ↦ ground arith
        | inr (b, signed) ↦ elim (Outcome-cases (merge_padded cfg a who s)) [
          | inl (e, failed) ↦ ground arith
          | inr (m, merged) ↦ (
            ground arith,
            ground arith,
            ground (arith, bytes_eq_iff a b),
            (m, merged, ground arith),
          )
        ]
      ]

  -- A claim that succeeds keeps the two maps inverse to one another, whatever accounts the merge
  -- kills.
  pub claim_account-IsInverse :
      (who : AccountId) (a : EvmAddress) (sig : List ℕ) (s t : Pallet W)
      → IsInverse s
      → claim_account_call cfg (some who) a sig s ≡ ok t
      → IsInverse t
  claim_account-IsInverse who a sig s t c h =
      let (hw, ha, signed, (m, merged, e)) = claim_account-inversion who a sig s t h in
      let (cm, fa, fw) = merge_padded-keeps a who s m merged c ha hw in
      subst (λ t. IsInverse t) (sym e) (map_account-IsInverse a who m cm fa fw)

  -- A claim succeeds exactly if neither the account nor the address is mapped, the address has
  -- signed the account's message, and the merge of the padded account goes through.
  pub claim_account_iff :
      (who : AccountId) (a : EvmAddress) (sig : List ℕ) (s : Pallet W)
      → ((t : Pallet W) × (claim_account_call cfg (some who) a sig s ≡ ok t)) ↔ (
          (get who s.evm_addresses ≡ none)
          × (get a s.accounts ≡ none)
          × (verify_eip712_signature cfg who sig ≡ some a)
          × ((m : Pallet W) × (merge_padded cfg a who s ≡ ok m)))
  unfolding claim_account_call
  claim_account_iff who a sig s = (
    λ (t, h).
        let (hw, ha, signed, (m, merged, e)) = claim_account-inversion who a sig s t h in
        (hw, ha, signed, (m, merged)),
    λ (hw, ha, signed, (m, merged)). (map_account a who m, ground (arith, bytes_eq_iff a a)),
  )

  -- After a claim that succeeds the address belongs to the account and the account has the
  -- address.
  pub claim_account-lookups :
      (who : AccountId) (a : EvmAddress) (sig : List ℕ) (s t : Pallet W)
      → claim_account_call cfg (some who) a sig s ≡ ok t
      → (get_account_id a t ≡ who) × (get_evm_address who t ≡ some a)
  unfolding get_account_id get_evm_address
  claim_account-lookups who a sig s t h =
      let (hw, ha, signed, (m, merged, e)) = claim_account-inversion who a sig s t h in
      (
        ground (arith, get-insert a a who m.accounts, bytes_eq_iff a a),
        ground (arith, get-insert who who a m.evm_addresses, bytes_eq_iff who who),
      )

  -- After a claim that succeeds the account cannot claim again, in either way, and no account can
  -- claim the address with a signature.
  pub claim_account-final :
      (who w : AccountId) (a b : EvmAddress) (sig sig' : List ℕ) (s t : Pallet W)
      → claim_account_call cfg (some who) a sig s ≡ ok t
      → (claim_account_call cfg (some who) b sig' t ≡ err (module_error account_id_has_mapped))
        × (claim_default_account cfg (some who) t ≡ err (module_error account_id_has_mapped))
        × (claim_account_call cfg (some w) a sig' t
            ≡ err (
                module_error (
                  if contains_key w t.evm_addresses
                  then account_id_has_mapped
                  else eth_address_has_mapped)))
  unfolding claim_account_call claim_default_account do_claim_default_evm_address
  claim_account-final who w a b sig sig' s t h =
      let (hw, ha, signed, (m, merged, e)) = claim_account-inversion who a sig s t h in
      let mapped : get who t.evm_addresses ≡ some a =
        ground (arith, get-insert who who a m.evm_addresses, bytes_eq_iff who who) in
      let taken : get a t.accounts ≡ some who =
        ground (arith, get-insert a a who m.accounts, bytes_eq_iff a a) in
      (ground arith, ground arith, ground arith)

  -- What a successful default claim has checked, and what it leaves.
  pub default_claim-inversion :
      (who : AccountId) (a : EvmAddress) (s t : Pallet W)
      → do_claim_default_evm_address cfg who s ≡ ok (a, t)
      → (get who s.evm_addresses ≡ none)
        × (((underlying_address who ≡ some a) × (t ≡ s))
            ⊎ ((underlying_address who ≡ none)
                × (a ≡ account_to_default_evm_address cfg who)
                × (t ≡ map_account a who s)))
  unfolding do_claim_default_evm_address get_or_create_evm_address get_evm_address
  default_claim-inversion who a s t h = elim (Option-cases (underlying_address who)) [
    | inl plain ↦ ground arith
    | inr (b, padded) ↦ ground arith
  ]

  -- A default claim that succeeds keeps the two maps inverse to one another, if no account holds
  -- the default address.
  pub default_claim-IsInverse :
      (who : AccountId) (a : EvmAddress) (s t : Pallet W)
      → IsInverse s
      → get (account_to_default_evm_address cfg who) s.accounts ≡ none
      → do_claim_default_evm_address cfg who s ≡ ok (a, t)
      → IsInverse t
  default_claim-IsInverse who a s t c free h =
      let (hw, shape) = default_claim-inversion who a s t h in
      elim shape [
        | inl (padded, e) ↦ subst (λ t. IsInverse t) (sym e) c
        | inr (plain, ea, e) ↦
            subst (λ t. IsInverse t) (sym e) (map_account-IsInverse a who s c (cc free) hw)
      ]

  -- A default claim that succeeds answers the address that the account has afterwards, and is
  -- linked to.
  pub default_claim-lookups :
      (who : AccountId) (a : EvmAddress) (s t : Pallet W)
      → do_claim_default_evm_address cfg who s ≡ ok (a, t)
      → (get_evm_address who t ≡ some a) × (is_linked cfg who a t ≡ true)
  unfolding get_evm_address is_linked
  default_claim-lookups who a s t h =
      let (hw, shape) = default_claim-inversion who a s t h in
      elim shape [
        | inl (padded, e) ↦ ground (arith, bytes_eq_iff a a)
        | inr (plain, ea, e) ↦
            ground
              (arith, get-insert who who a s.evm_addresses, bytes_eq_iff who who, bytes_eq_iff a a)
      ]

  -- A default claim by an account that has no address, neither mapped nor underlying, succeeds even
  -- if its default address is mapped to another account: the address then leads to the claiming
  -- account, and the other account, if it is another, still has whatever address it had.
  pub default_claim-taken_address :
      (who w : AccountId) (s : Pallet W)
      → get (account_to_default_evm_address cfg who) s.accounts ≡ some w
      → get who s.evm_addresses ≡ none
      → underlying_address who ≡ none
      → (t : Pallet W) × (claim_default_account cfg (some who) s ≡ ok t)
        × (get_account_id (account_to_default_evm_address cfg who) t ≡ who)
        × (get_evm_address who t ≡ some (account_to_default_evm_address cfg who))
        × (get w t.evm_addresses ≡ (
            if bytes_eq w who
            then some (account_to_default_evm_address cfg who)
            else get w s.evm_addresses))
  unfolding claim_default_account do_claim_default_evm_address get_or_create_evm_address
      get_account_id get_evm_address
  default_claim-taken_address who w s taken free plain =
      let a = account_to_default_evm_address cfg who in
      (
        map_account a who s,
        ground arith,
        ground (arith, get-insert a a who s.accounts, bytes_eq_iff a a),
        ground (arith, get-insert who who a s.evm_addresses, bytes_eq_iff who who),
        ground (arith, get-insert w who a s.evm_addresses),
      )
