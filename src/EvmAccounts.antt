-- ===== src/EvmAccounts.antt =====
-- The pallet of pallets/evm-accounts/src/lib.rs: the two-way mapping between substrate accounts and EVM
-- addresses. An account is its 32 bytes, an address its 20. Hashes, signature recovery, the accounts of
-- `frame_system` and the merging of balances are parameters.
pub mod Mapping
pub mod Claims
pub mod Addresses
pub mod Histories
mod Tests
use neuroweb.Prelude.{
  ℕ, Bool, true, false, not, ◌||◌, Option, none, some, List, [], ◌∷◌, ◌++◌, ◌≡◌, Eq, ◌==◌,
  bytes_instance, take, drop, replicate, bytes_eq, if◌then◌else◌,
}
use neuroweb.Prelude.Words.{to_be_bytes}
use neuroweb.Storage.{StorageMap, get, insert, remove, contains_key}
use neuroweb.Dispatch.{Outcome, ok, err, bad_origin, ◌>>=◌, ◌>>◌, ensure, ensure_origin, ok_or}

abbrev pub AccountId : Type 0
AccountId = List ℕ

abbrev pub EvmAddress : Type 0
EvmAddress = List ℕ

pub data Error : Type 0 where
  account_id_has_mapped eth_address_has_mapped bad_signature invalid_signature non_zero_ref_count :
      Error

-- `trait Config`, and what the pallet calls of `sp_io`, `frame_system` and `codec`. An `Origin` is the
-- signer, if there is one.
-- `merge_account` fails, or leaves the rest of the storage and the accounts that the merge has killed.
pub record Config (World : Type 0) : Type 0 where
  pub keccak_256 : List ℕ → List ℕ
  pub blake2_256 : List ℕ → List ℕ
  pub encode : AccountId → List ℕ
  pub secp256k1_ecdsa_recover : List ℕ → List ℕ → Option (List ℕ)
  pub chain_id : ℕ
  pub genesis_hash : List ℕ
  pub transaction_type : List ℕ
  pub domain_type : List ℕ
  pub claim_name : List ℕ
  pub claim_version : List ℕ
  pub account_exists : AccountId → World → Bool
  pub merge_account : AccountId → AccountId → World → Outcome Error (World × List AccountId)

pub data Event : Type 0 where
  claim_account : AccountId → EvmAddress → Event

pub record Pallet (World : Type 0) : Type 0 where
  pub accounts : StorageMap EvmAddress AccountId
  pub evm_addresses : StorageMap AccountId EvmAddress
  pub events : List Event
  pub world : World

-- b"evm:"
abbrev pub evm_prefix : List ℕ
evm_prefix = b'e' ∷ b'v' ∷ b'm' ∷ b':' ∷ []

-- The account of an address that no one has claimed: the prefix, the address, zeros.
abbrev pub padded_account : EvmAddress → AccountId
padded_account address = evm_prefix ++ (take 20 address ++ replicate 8 0)

-- `data.starts_with(b"evm:")`
abbrev pub starts_with_prefix : AccountId → Bool
starts_with_prefix account = bytes_eq (take 4 account) evm_prefix

-- The address inside a padded account.
abbrev pub underlying_address : AccountId → Option EvmAddress
underlying_address account =
    if starts_with_prefix account then some (take 20 (drop 4 account)) else none

module _ {W : Type 0} where
  unfoldable pub get_account_id : EvmAddress → Pallet W → AccountId
  get_account_id address s = elim (get address s.accounts) [
    | some acc ↦ acc
    | none ↦ padded_account address
  ]

  unfoldable pub get_evm_address : AccountId → Pallet W → Option EvmAddress
  get_evm_address account_id s = elim (get account_id s.evm_addresses) [
    | some address ↦ some address
    | none ↦ underlying_address account_id
  ]

  -- `EvmPalletAddressMappingTrait`, which the EVM pallet and the precompiles use.
  unfoldable pub into_account_id : EvmAddress → Pallet W → AccountId
  into_account_id address s = elim (get address s.accounts) [
    | some acc ↦ acc
    | none ↦ padded_account address
  ]

  -- The two insertions and the event of a claim.
  abbrev pub map_account : EvmAddress → AccountId → Pallet W → Pallet W
  map_account address who s = record s {
    accounts = insert address who s.accounts;
    evm_addresses = insert who address s.evm_addresses;
    events = s.events ++ (claim_account who address ∷ []);
  }

  unfoldable pub on_killed_account : AccountId → Pallet W → Pallet W
  on_killed_account who s = elim (get who s.evm_addresses) [
    | some evm_addr ↦ record s {
      accounts = remove evm_addr s.accounts;
      evm_addresses = remove who s.evm_addresses;
    }
    | none ↦ s
  ]

  -- The callbacks of the accounts that `frame_system` kills, one after another.
  unfoldable pub kill_accounts : List AccountId → Pallet W → Pallet W
  kill_accounts [] s = s
  kill_accounts (who ∷ killed) s = kill_accounts killed (on_killed_account who s)

  -- The rest of the storage is what the merge leaves, and the killed accounts lose their mappings.
  abbrev pub after_merge : W × List AccountId → Pallet W → Pallet W
  after_merge (world, killed) s = kill_accounts killed (record s { world = world })

module _ {W : Type 0} (cfg : Config W) where
  unfoldable pub account_to_default_evm_address : AccountId → EvmAddress
  account_to_default_evm_address account_id =
      take 20 (cfg.blake2_256 (evm_prefix ++ cfg.encode account_id))

  unfoldable pub get_default_evm_address : AccountId → EvmAddress
  get_default_evm_address account_id = account_to_default_evm_address account_id

  -- The address, and the storage with the mapping that was created if there was no address.
  unfoldable pub get_or_create_evm_address : AccountId → Pallet W → EvmAddress × Pallet W
  get_or_create_evm_address account_id s = elim (get_evm_address account_id s) [
    | some address ↦ (address, s)
    | none ↦
        let addr = account_to_default_evm_address account_id in
        (addr, map_account addr account_id s)
  ]

  unfoldable pub is_linked : AccountId → EvmAddress → Pallet W → Bool
  is_linked account_id evm s =
      elim (get_evm_address account_id s) [ none ↦ false | some address ↦ address == evm ]
      || (account_to_default_evm_address account_id == evm)

  unfoldable pub evm_account_domain_separator : List ℕ
  evm_account_domain_separator = cfg.keccak_256 (
      cfg.keccak_256 cfg.domain_type
      ++ (cfg.keccak_256 cfg.claim_name
          ++ (cfg.keccak_256 cfg.claim_version
              ++ (to_be_bytes 32 cfg.chain_id ++ cfg.genesis_hash))))

  unfoldable pub evm_account_payload_hash : AccountId → List ℕ
  evm_account_payload_hash who =
      cfg.keccak_256 (cfg.keccak_256 cfg.transaction_type ++ cfg.keccak_256 (cfg.encode who))

  unfoldable pub eip712_signable_message : AccountId → List ℕ
  eip712_signable_message who =
      (0x19 ∷ 0x01 ∷ []) ++ (evm_account_domain_separator ++ evm_account_payload_hash who)

  -- `H160::from(H256)` keeps the last 20 of the 32 bytes.
  unfoldable pub recover_signer : List ℕ → List ℕ → Option EvmAddress
  recover_signer sig msg_hash = elim (cfg.secp256k1_ecdsa_recover sig msg_hash) [
    | some pubkey ↦ some (drop 12 (cfg.keccak_256 pubkey))
    | none ↦ none
  ]

  unfoldable pub verify_eip712_signature : AccountId → List ℕ → Option EvmAddress
  verify_eip712_signature who sig =
      recover_signer sig (cfg.keccak_256 (eip712_signable_message who))

  -- The merge of the padded account into the claiming one, if the padded account exists.
  unfoldable pub merge_padded : EvmAddress → AccountId → Pallet W → Outcome Error (Pallet W)
  merge_padded eth_address who s =
      let account_id = get_account_id eth_address s in
      if cfg.account_exists account_id s.world
      then (cfg.merge_account account_id who s.world >>= (λ r. ok (after_merge r s)))
      else ok s

  unfoldable pub claim_account_call :
      Option AccountId → EvmAddress → List ℕ → Pallet W → Outcome Error (Pallet W)
  claim_account_call none eth_address eth_signature s = err bad_origin
  claim_account_call (some who) eth_address eth_signature s = do
    ensure (not (contains_key who s.evm_addresses)) account_id_has_mapped
    ensure (not (contains_key eth_address s.accounts)) eth_address_has_mapped
    address ← ok_or (verify_eip712_signature who eth_signature) bad_signature
    ensure (eth_address == address) invalid_signature
    merged ← merge_padded eth_address who s
    ok (map_account eth_address who merged)

  unfoldable pub do_claim_default_evm_address :
      AccountId → Pallet W → Outcome Error (EvmAddress × Pallet W)
  do_claim_default_evm_address who s = do
    ensure (not (contains_key who s.evm_addresses)) account_id_has_mapped
    ok (get_or_create_evm_address who s)

  -- `EVMAccountsManager`
  unfoldable pub claim_default_evm_address :
      AccountId → Pallet W → Outcome Error (EvmAddress × Pallet W)
  claim_default_evm_address account_id s = do_claim_default_evm_address account_id s

  unfoldable pub claim_default_account : Option AccountId → Pallet W → Outcome Error (Pallet W)
  claim_default_account none s = err bad_origin
  claim_default_account (some who) s = do (_, s') ← do_claim_default_evm_address who s; ok s'

-- `StaticLookup`: the forms of `MultiAddress`.
pub data MultiAddress : Type 0 where
  id : AccountId → MultiAddress
  index : ℕ → MultiAddress
  raw : List ℕ → MultiAddress
  address32 : List ℕ → MultiAddress
  address20 : List ℕ → MultiAddress

module _ {W : Type 0} where
  unfoldable pub lookup : MultiAddress → Pallet W → Option AccountId
  lookup (address20 i) s = some (get_account_id i s)
  lookup _ s = none

unfoldable pub unlookup : AccountId → MultiAddress
unlookup a = id a

-- A part of the state that a merge moves: it fails, or leaves the storage and the accounts it has killed.
abbrev pub Merge : Type 0 → Type 0
Merge W = AccountId → AccountId → W → Outcome Error (W × List AccountId)

-- `impl MergeAccount for Tuple`: one merge after another, each in the storage that the last has left; the
-- storage layer of `with_transaction_result` is rolled back if one fails.
unfoldable pub merge_all : {W : Type 0} → List (Merge W) → Merge W
merge_all [] source dest w = ok (w, [])
merge_all (merge ∷ rest) source dest w = do
  (w', killed) ← merge source dest w
  (w'', more) ← merge_all rest source dest w'
  ok (w'', killed ++ more)
