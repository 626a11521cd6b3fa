-- ===== src/EvmAccounts/Mapping.antt =====
-- The two maps of pallets/evm-accounts/src/lib.rs stay inverse to one another.
use neuroweb.Prelude.{
  Option-cases, none, some, inl, inr, ◌≡◌, sym, subst, List, [], ◌∷◌, bytes_eq_iff, bytes_instance,
  arith, if◌then◌else◌, ◌==◌,
}
use neuroweb.Storage.{get, remove, get-insert, get-remove}
use neuroweb.EvmAccounts.{
  AccountId, EvmAddress, Pallet, map_account, on_killed_account, kill_accounts,
}

module _ {W : Type 0} where
  -- An address is mapped to an account exactly if the account is mapped to the address.
  pub record IsInverse (s : Pallet W) : Type 0 where
    pub forward :
        (a : EvmAddress) (who : AccountId)
        → get a s.accounts ≡ some who
        → get who s.evm_addresses ≡ some a
    pub backward :
        (a : EvmAddress) (who : AccountId)
        → get who s.evm_addresses ≡ some a
        → get a s.accounts ≡ some who

  pub map_account-IsInverse :
      (a : EvmAddress) (who : AccountId) (s : Pallet W)
      → IsInverse s
      → get a s.accounts ≡ none
      → get who s.evm_addresses ≡ none
      → IsInverse (map_account a who s)
  map_account-IsInverse a who s c ha hw = record {
    forward = λ b w h. ground (
      arith,
      get-insert b a who s.accounts,
      get-insert w who a s.evm_addresses,
      bytes_eq_iff b a,
      bytes_eq_iff w who,
      c.forward b w,
    );
    backward = λ b w h. ground (
      arith,
      get-insert b a who s.accounts,
      get-insert w who a s.evm_addresses,
      bytes_eq_iff b a,
      bytes_eq_iff w who,
      c.backward b w,
    );
  }

  unmap-IsInverse :
      (a : EvmAddress) (who : AccountId) (s t : Pallet W)
      → IsInverse s
      → get who s.evm_addresses ≡ some a
      → t.accounts ≡ remove a s.accounts
      → t.evm_addresses ≡ remove who s.evm_addresses
      → IsInverse t
  unmap-IsInverse a who s t c hw e1 e2 = record {
    forward = λ b w h. ground (
      arith,
      get-remove b a s.accounts,
      get-remove w who s.evm_addresses,
      bytes_eq_iff b a,
      bytes_eq_iff w who,
      c.forward b w,
      c.backward a who,
    );
    backward = λ b w h. ground (
      arith,
      get-remove b a s.accounts,
      get-remove w who s.evm_addresses,
      bytes_eq_iff b a,
      bytes_eq_iff w who,
      c.backward b w,
      c.backward a who,
    );
  }

  on_killed_account-unmapped :
      (who : AccountId) (s : Pallet W)
      → get who s.evm_addresses ≡ none
      → on_killed_account who s ≡ s
  unfolding on_killed_account
  on_killed_account-unmapped who s h = rw (h, on_killed_account)

  pub on_killed_account-mapped :
      (who : AccountId) (a : EvmAddress) (s : Pallet W)
      → get who s.evm_addresses ≡ some a
      → ((on_killed_account who s).accounts ≡ remove a s.accounts)
        × ((on_killed_account who s).evm_addresses ≡ remove who s.evm_addresses)
  unfolding on_killed_account
  on_killed_account-mapped who a s h = ground arith

  -- The callback of a killed account keeps the two maps inverse to one another.
  pub on_killed_account-IsInverse :
      (who : AccountId) (s : Pallet W) → IsInverse s → IsInverse (on_killed_account who s)
  on_killed_account-IsInverse who s c = elim (Option-cases (get who s.evm_addresses)) [
    | inl unmapped ↦ subst (λ t. IsInverse t) (sym (on_killed_account-unmapped who s unmapped)) c
    | inr (a, mapped) ↦
        let (e1, e2) = on_killed_account-mapped who a s mapped in
        unmap-IsInverse a who s (on_killed_account who s) c mapped e1 e2
  ]

  -- A killed account is in neither map afterwards; the mappings of all others are as before.
  pub on_killed_account-lookups :
      (who w : AccountId) (s : Pallet W)
      → get w (on_killed_account who s).evm_addresses
        ≡ (if w == who then none else get w s.evm_addresses)
  unfolding on_killed_account
  on_killed_account-lookups who w s = elim (Option-cases (get who s.evm_addresses)) [
    | inl unmapped ↦ ground (arith, bytes_eq_iff w who)
    | inr (a, mapped) ↦ ground (arith, get-remove w who s.evm_addresses)
  ]

  -- A free address stays free.
  on_killed_account-free :
      (who : AccountId) (a : EvmAddress) (s : Pallet W)
      → get a s.accounts ≡ none
      → get a (on_killed_account who s).accounts ≡ none
  unfolding on_killed_account
  on_killed_account-free who a s free = elim (Option-cases (get who s.evm_addresses)) [
    | inl unmapped ↦ ground arith
    | inr (b, mapped) ↦ ground (arith, get-remove a b s.accounts)
  ]

  pub kill_accounts-IsInverse :
      (killed : List AccountId) (s : Pallet W) → IsInverse s → IsInverse (kill_accounts killed s)
  unfolding kill_accounts
  kill_accounts-IsInverse [] s c = c
  kill_accounts-IsInverse (who ∷ killed) s c =
      kill_accounts-IsInverse killed (on_killed_account who s) (on_killed_account-IsInverse who s c)

  pub kill_accounts-free :
      (killed : List AccountId) (a : EvmAddress) (s : Pallet W)
      → get a s.accounts ≡ none
      → get a (kill_accounts killed s).accounts ≡ none
  unfolding kill_accounts
  kill_accounts-free [] a s free = free
  kill_accounts-free (who ∷ killed) a s free =
      kill_accounts-free killed a (on_killed_account who s) (on_killed_account-free who a s free)

  pub kill_accounts-unmapped :
      (killed : List AccountId) (w : AccountId) (s : Pallet W)
      → get w s.evm_addresses ≡ none
      → get w (kill_accounts killed s).evm_addresses ≡ none
  unfolding kill_accounts
  kill_accounts-unmapped [] w s free = free
  kill_accounts-unmapped (who ∷ killed) w s free =
      kill_accounts-unmapped killed w (on_killed_account who s)
        (ground (arith, on_killed_account-lookups who w s))
