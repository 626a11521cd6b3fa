-- ===== src/Node.antt =====
-- The chain specifications of node/src/chain_spec.rs. Keys derived from seeds, the code of the
-- runtime and the default XCM version are parameters; a genesis configuration has the fields that
-- are set.
mod Tests
use Prim.Native.String.{String}
use neuroweb.Prelude.{ℕ, ◌*◌, ◌^◌, ◌-◌, Option, none, some, List, [], ◌∷◌}
use neuroweb.Runtime.Weights.{existential_deposit}

-- `GenericChainSpec`: what the two configurations set.
pub data ChainType : Type 0 where
  development local : ChainType

pub record Extensions : Type 0 where
  pub relay_chain : String
  pub para_id : ℕ

-- `tokenSymbol`, `tokenDecimals`, `ss58Format`
pub record Properties : Type 0 where
  pub token_symbol : String
  pub token_decimals : ℕ
  pub ss58_format : ℕ

pub record GenesisAccount : Type 0 where
  pub address : ℕ
  pub balance : ℕ

pub record GenesisConfig (AccountId AuraId : Type 0) : Type 0 where
  pub code : List ℕ
  pub balances : List (AccountId × ℕ)
  pub parachain_id : ℕ
  pub invulnerables : List AccountId
  pub candidacy_bond : ℕ
  pub keys : List (AccountId × AccountId × AuraId)
  pub safe_xcm_version : Option ℕ
  pub evm_accounts : List GenesisAccount

pub record ChainSpec (AccountId AuraId : Type 0) : Type 0 where
  pub name : String
  pub id : String
  pub chain_type : ChainType
  pub genesis : GenesisConfig AccountId AuraId
  pub protocol_id : Option String
  pub properties : Option Properties
  pub extensions : Extensions

abbrev pub endowed : {A : Type 0} → List A → List (A × ℕ)
endowed [] = []
endowed (k ∷ accounts) = (k, 2 ^ 60) ∷ endowed accounts

abbrev pub extensions : Extensions
extensions = record { relay_chain = "rococo-local"; para_id = 2000 }

abbrev pub otp_properties : Properties
otp_properties = record { token_symbol = "OTP"; token_decimals = 12; ss58_format = 101 }

-- `get_account_id_from_seed`, `get_collator_keys_from_seed`
module _ {A K : Type 0} (account_of : String → A) (collator_of : String → K) where
  abbrev pub collators : List (A × K)
  collators = (account_of "Alice", collator_of "Alice") ∷ (account_of "Bob", collator_of "Bob") ∷ []

module _ {A : Type 0} (account_of : String → A) where
  abbrev pub test_accounts : List A
  test_accounts =
      account_of "Alice"
      ∷ account_of "Bob"
      ∷ account_of "Charlie"
      ∷ account_of "Dave"
      ∷ account_of "Eve"
      ∷ account_of "Ferdie"
      ∷ account_of "Alice//stash"
      ∷ account_of "Bob//stash"
      ∷ account_of "Charlie//stash"
      ∷ account_of "Dave//stash"
      ∷ account_of "Eve//stash"
      ∷ account_of "Ferdie//stash"
      ∷ []

module _ {A K : Type 0} where
  abbrev pub accounts_of : List (A × K) → List A
  accounts_of [] = []
  accounts_of ((acc, aura) ∷ rest) = acc ∷ accounts_of rest

  abbrev pub session_keys : List (A × K) → List (A × A × K)
  session_keys [] = []
  session_keys ((acc, aura) ∷ rest) = (acc, acc, aura) ∷ session_keys rest

  module _ (wasm_binary : List ℕ) (safe_xcm_version : ℕ) where
    -- `testnet_genesis`; an EVM account has no code and no storage.
    unfoldable pub testnet_genesis : List (A × K) → List A → ℕ → GenesisConfig A K
    testnet_genesis invulnerables endowed_accounts id = record {
      code = wasm_binary;
      balances = endowed endowed_accounts;
      parachain_id = id;
      invulnerables = accounts_of invulnerables;
      candidacy_bond = existential_deposit * 16;
      keys = session_keys invulnerables;
      safe_xcm_version = some safe_xcm_version;
      evm_accounts =
          record { address = 0xd43593c715fdd31c61141abd04a99fd6822c8558; balance = 2 ^ 128 - 1 }
          ∷ record { address = 0x6be02d1d3665660d22ff9624b7be0551ee1ac91b; balance = 2 ^ 128 - 1 }
          ∷ [];
    }

    module _ (account_of : String → A) (collator_of : String → K) where
      -- The properties are built and not used.
      unfoldable pub development_config : ChainSpec A K
      development_config = record {
        name = "Development";
        id = "dev";
        chain_type = development;
        genesis =
            testnet_genesis (collators account_of collator_of) (test_accounts account_of) 2000;
        protocol_id = none;
        properties = none;
        extensions = extensions;
      }

      unfoldable pub local_testnet_config : ChainSpec A K
      local_testnet_config = record {
        name = "OriginTrail Parachain Testnet";
        id = "origintrail_parachain_testnet";
        chain_type = local;
        genesis =
            testnet_genesis (collators account_of collator_of) (test_accounts account_of) 2000;
        protocol_id = some "origintrail-parachain";
        properties = some otp_properties;
        extensions = extensions;
      }
