-- ===== src/EvmAccounts/Tests.antt =====
-- Concrete runs of the pallet, with the parameters instantiated, and its theorems at concrete inputs.
use neuroweb.Prelude.{
  ℕ, Bool, true, false, ◌⊎◌, none, some, ◌≡◌, ◌↔◌, refl, List, [], ◌∷◌, ◌++◌, bytes_eq_iff,
  bytes_instance, arith, take, replicate, length, length-take, length-append,
}
use neuroweb.Storage.{get, insert}
use neuroweb.Dispatch.{ok, err, module_error}
use neuroweb.EvmAccounts.{
  eip712_signable_message, evm_account_domain_separator, AccountId, EvmAddress, Config,
  account_id_has_mapped, eth_address_has_mapped, Pallet, claim_account, map_account, get_account_id,
  get_evm_address, on_killed_account, account_to_default_evm_address, get_or_create_evm_address,
  claim_account_call, claim_default_account, do_claim_default_evm_address, merge_padded,
  verify_eip712_signature, recover_signer, kill_accounts,
}
use neuroweb.EvmAccounts.Mapping.{IsInverse}
use neuroweb.EvmAccounts.Histories.{genesis, Step, Reach, Reach-IsInverse}
use neuroweb.EvmAccounts.Claims.{
  claim_account-IsInverse, claim_account_iff, claim_account-final, default_claim-taken_address,
}
use neuroweb.EvmAccounts.Addresses.{
  get_evm_address-get_account_id, eip712_signable_message-injective, payload, Collides,
}

-- The hash is the first 32 bytes; a signature is the public key; the rest of the storage says whether the
-- padded account exists, which a merge kills.
abbrev first_32 : List ℕ → List ℕ
first_32 m = take 32 (m ++ replicate 32 0)

abbrev config : Config Bool
config = record {
  keccak_256 = first_32;
  blake2_256 = λ m. replicate 32 9;
  encode = λ who. who;
  secp256k1_ecdsa_recover = λ sig hash. some sig;
  chain_id = 2043;
  genesis_hash = replicate 32 7;
  transaction_type = b'T' ∷ [];
  domain_type = b'E' ∷ [];
  claim_name = b'O' ∷ [];
  claim_version = b'1' ∷ [];
  account_exists = λ who w. w;
  merge_account = λ source dest w. ok (false, source ∷ []);
}

abbrev alice : AccountId
alice = replicate 32 1

abbrev alice_address : EvmAddress
alice_address = replicate 20 1

abbrev bob : AccountId
bob = replicate 32 2

abbrev bob_address : EvmAddress
bob_address = replicate 20 2

abbrev bob_signature : List ℕ
bob_signature = replicate 12 0 ++ bob_address

-- Alice has claimed her address.
abbrev pallet : Pallet Bool
pallet = record {
  accounts = (alice_address, alice) ∷ [];
  evm_addresses = (alice, alice_address) ∷ [];
  events = [];
  world = true;
}

pallet-IsInverse : IsInverse pallet
unfolding get
pallet-IsInverse = record {
  forward = λ a who h. ground (arith, bytes_eq_iff a alice_address);
  backward = λ a who h. ground (arith, bytes_eq_iff who alice);
}

abbrev claimed : Pallet Bool
claimed = record {
  accounts = (alice_address, alice) ∷ (bob_address, bob) ∷ [];
  evm_addresses = (alice, alice_address) ∷ (bob, bob_address) ∷ [];
  events = claim_account bob bob_address ∷ [];
  world = false;
}

-- A run: the merge kills the padded account, which has no mapping.
claim_bob : claim_account_call config (some bob) bob_address bob_signature pallet ≡ ok claimed
unfolding claim_account_call verify_eip712_signature recover_signer merge_padded get_account_id
    kill_accounts on_killed_account get insert
claim_bob = refl

claim_account-IsInverse_example : IsInverse claimed
claim_account-IsInverse_example =
    claim_account-IsInverse config bob bob_address bob_signature pallet claimed pallet-IsInverse
      claim_bob

claim_account_iff_example :
    ((t : Pallet Bool) × (claim_account_call config (some bob) bob_address bob_signature pallet
        ≡ ok t))
    ↔ ((get bob pallet.evm_addresses ≡ none)
        × (get bob_address pallet.accounts ≡ none)
        × (verify_eip712_signature config bob bob_signature ≡ some bob_address)
        × ((m : Pallet Bool) × (merge_padded config bob_address bob pallet ≡ ok m)))
claim_account_iff_example = claim_account_iff config bob bob_address bob_signature pallet

claim_account-final_example :
    (claim_account_call config (some bob) alice_address bob_signature claimed
      ≡ err (module_error account_id_has_mapped))
    × (claim_default_account config (some bob) claimed ≡ err (module_error account_id_has_mapped))
    × (claim_account_call config (some (replicate 32 3)) bob_address bob_signature claimed
        ≡ err (module_error eth_address_has_mapped))
unfolding get
claim_account-final_example =
    claim_account-final config bob (replicate 32 3) bob_address alice_address bob_signature
      bob_signature pallet claimed claim_bob

abbrev defaulted : Pallet Bool
defaulted = map_account (replicate 20 9) bob pallet

default_bob : do_claim_default_evm_address config bob pallet ≡ ok (replicate 20 9, defaulted)
unfolding do_claim_default_evm_address get_or_create_evm_address get_evm_address
    account_to_default_evm_address get
default_bob = refl

get_evm_address-get_account_id_example :
    get_evm_address (get_account_id bob_address pallet) pallet ≡ some bob_address
unfolding get
get_evm_address-get_account_id_example =
    get_evm_address-get_account_id bob_address pallet pallet-IsInverse refl refl

length-first_32 : (m : List ℕ) → length (first_32 m) ≡ 32
length-first_32 m =
    omega (arith, length-take 32 (m ++ replicate 32 0), length-append m (replicate 32 0))

-- The messages of Alice and Bob have the same first 32 bytes: this hash collides.
eip712_signable_message-injective_example :
    (alice ≡ bob)
    ⊎ (Collides config length-first_32
          (eip712_signable_message config alice)
          (eip712_signable_message config bob)
        ⊎ (Collides config length-first_32 (payload config alice) (payload config bob)
            ⊎ Collides config length-first_32 alice bob))
unfolding eip712_signable_message evm_account_domain_separator
eip712_signable_message-injective_example =
    eip712_signable_message-injective config length-first_32 alice bob (λ e. e) refl

-- Alice's claim from an empty storage.
abbrev after_alice : Pallet Bool
after_alice = record {
  accounts = (alice_address, alice) ∷ [];
  evm_addresses = (alice, alice_address) ∷ [];
  events = claim_account alice alice_address ∷ [];
  world = false;
}

claim_alice :
    claim_account_call config
      (some alice)
      alice_address
      (replicate 12 0 ++ alice_address)
      (genesis true)
    ≡ ok after_alice
unfolding claim_account_call verify_eip712_signature recover_signer merge_padded get_account_id
    kill_accounts on_killed_account get insert
claim_alice = refl

Reach-IsInverse_example : IsInverse after_alice
Reach-IsInverse_example = Reach-IsInverse config after_alice (
    Reach.later (Reach.start true)
      (Step.claimed alice alice_address (replicate 12 0 ++ alice_address) claim_alice))

-- Carol claims the default address of Bob with a signature, and Bob then takes it by a default claim.
abbrev carol : AccountId
carol = replicate 32 3

abbrev carols : Pallet Bool
carols = record {
  accounts = (replicate 20 9, carol) ∷ [];
  evm_addresses = (carol, replicate 20 9) ∷ [];
  events = claim_account carol (replicate 20 9) ∷ [];
  world = false;
}

claim_carol :
    claim_account_call config
      (some carol)
      (replicate 20 9)
      (replicate 12 0 ++ replicate 20 9)
      (genesis true)
    ≡ ok carols
unfolding claim_account_call verify_eip712_signature recover_signer merge_padded get_account_id
    kill_accounts on_killed_account get insert
claim_carol = refl

default_claim-taken_address_example :
    (t : Pallet Bool) × (claim_default_account config (some bob) carols ≡ ok t)
    × (get_account_id (replicate 20 9) t ≡ bob)
    × (get_evm_address bob t ≡ some (replicate 20 9))
    × (get carol t.evm_addresses ≡ some (replicate 20 9))
unfolding get account_to_default_evm_address
default_claim-taken_address_example =
    default_claim-taken_address config bob carol carols refl refl refl
