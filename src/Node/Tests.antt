-- ===== src/Node/Tests.antt =====
-- The genesis of the local test network of node/src/chain_spec.rs; an account and a key are their seed.
use Prim.Native.String.{String}
use neuroweb.Prelude.{◌≡◌, refl, []}
use neuroweb.Node.{
  GenesisConfig, testnet_genesis, collators, test_accounts, local_testnet_config,
  development_config,
}

abbrev seed : String → String
seed s = s

abbrev genesis : GenesisConfig String String
genesis = testnet_genesis [] 3 (collators seed seed) (test_accounts seed) 2000

local_genesis : (local_testnet_config [] 3 seed seed).genesis ≡ genesis
unfolding local_testnet_config
local_genesis = refl

development_genesis : (development_config [] 3 seed seed).genesis ≡ genesis
unfolding development_config
development_genesis = refl
