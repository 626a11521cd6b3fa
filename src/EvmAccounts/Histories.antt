-- ===== src/EvmAccounts/Histories.antt =====
-- All that can happen to the storage of pallets/evm-accounts/src/lib.rs, step by step.
use neuroweb.Prelude.{ℕ, none, some, ◌≡◌, List, [], bytes_instance, arith}
use neuroweb.Storage.{get}
use neuroweb.Dispatch.{ok}
use neuroweb.EvmAccounts.{
  AccountId, EvmAddress, Config, Pallet, on_killed_account, account_to_default_evm_address,
  claim_account_call, do_claim_default_evm_address,
}
use neuroweb.EvmAccounts.Mapping.{IsInverse, on_killed_account-IsInverse}
use neuroweb.EvmAccounts.Claims.{claim_account-IsInverse, default_claim-IsInverse}

abbrev pub genesis : {W : Type 0} → W → Pallet W
genesis w = record { accounts = []; evm_addresses = []; events = []; world = w }

-- A claim or a default claim that succeeds, the death of an account, or a change outside the pallet. No
-- account has claimed the default address of another.
pub data Step {W : Type 0} (cfg : Config W) (s : Pallet W) : Pallet W → Type 0 where
  claimed :
      (who : AccountId) (a : EvmAddress) (sig : List ℕ) {t : Pallet W}
      → claim_account_call cfg (some who) a sig s ≡ ok t
      → Step cfg s t
  defaulted :
      (who : AccountId) (a : EvmAddress) {t : Pallet W}
      → get (account_to_default_evm_address cfg who) s.accounts ≡ none
      → do_claim_default_evm_address cfg who s ≡ ok (a, t)
      → Step cfg s t
  killed : (who : AccountId) → Step cfg s (on_killed_account who s)
  elsewhere : (w : W) → Step cfg s (record s { world = w })

pub data Reach {W : Type 0} (cfg : Config W) : Pallet W → Type 0 where
  start : (w : W) → Reach cfg (genesis w)
  later : {s t : Pallet W} → Reach cfg s → Step cfg s t → Reach cfg t

module _ {W : Type 0} (cfg : Config W) where
  Step-IsInverse : (s t : Pallet W) → IsInverse s → Step cfg s t → IsInverse t
  Step-IsInverse s t c (claimed who a sig h) = claim_account-IsInverse cfg who a sig s t c h
  Step-IsInverse s t c (defaulted who a free h) = default_claim-IsInverse cfg who a s t c free h
  Step-IsInverse s t c (killed who) = on_killed_account-IsInverse who s c
  Step-IsInverse s t c (elsewhere w) = record { forward = c.forward; backward = c.backward }

  genesis-IsInverse : (w : W) → IsInverse (genesis w)
  unfolding get
  genesis-IsInverse w = record {
    forward = λ a who h. ground arith;
    backward = λ a who h. ground arith;
  }

  -- In every state that claims, default claims to free addresses and deaths of accounts lead to
  -- from an empty storage, the two maps are inverse to one another.
  pub Reach-IsInverse : (s : Pallet W) → Reach cfg s → IsInverse s
  Reach-IsInverse s (start w) = genesis-IsInverse w
  Reach-IsInverse t (later {s} r step) = Step-IsInverse s t (Reach-IsInverse s r) step
