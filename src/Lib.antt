-- ===== src/Lib.antt =====
-- NeuroWeb: the pallets, the precompiles and the parts of the runtime that carry the chain's own logic.
--
-- Parts and files
-- - Abi: the Solidity ABI codec, precompiles/utils/src/data.rs. `EvmDataReader` and `EvmDataWriter` are
--   Abi.Reader and Abi.Writer; the trait `EvmData` and its implementations are Abi.Types, a record of a
--   read, a write and the flag for static size. A tuple is a value of `EvmFields`, built by `field` and
--   `last` as `impl_for_tuples` writes it out. Abi.Layout says what the deferred offsets become;
--   Abi.Words, Abi.Lawful, Abi.Fields, Abi.Scalars, Abi.Pointers, Abi.Arrays, Abi.Tuples and Abi.Calls are
--   about reading back what was written. Abi.Failure has the failures.
-- - Evm: precompiles/utils/src/lib.rs. `PrecompileHandle` is a record of operations on an abstract handle,
--   `Dispatcher` what `RuntimeHelper` uses of the runtime. Evm.Guards is about the costs and the checks.
-- - Evm.Mock, Evm.Tester: the mock handle and the tester of precompiles/utils/src/testing.rs; `none` is a
--   panic. Evm.Metering is about their gas and logs, and about what a test accepts.
-- - Selectors: the macros of precompiles/utils/macro/src/lib.rs and pallets/evm-utility (its macro and its
--   crate), as functions of the variants of an enumeration.
-- - Erc20: precompiles/assets-erc20/src/lib.rs. Erc20 has the interface to `pallet_assets` (`Assets`) and
--   the actions that read, Erc20.Changes the others, Erc20.Execute the choice among them. Erc20.Requests
--   is the view of a caller: a call with its arguments and what it means. Erc20.Decoding,
--   Erc20.Selectors, Erc20.Refinement, Erc20.Guards, Erc20.Truncation and Erc20.Amounts relate the two. Erc20.Ledger
--   states how the calls of `pallet_assets` move allowances and what a caller expects of them;
--   Erc20.Spending relates these two. Erc20.Custody states from whom they take units, Erc20.Losses from whom
--   a call of the precompile does. Erc20.Issuance and Erc20.Issuance.Supply do the same for the
--   supply. Erc20.Static is about static contexts.
-- - AssetIds: the trait `AddressToAssetId` as runtime/src/lib.rs implements it.
-- - Precompiles: runtime/src/precompiles.rs, with the asset precompiles of Erc20 behind its routes
--   (Precompiles.Routing, Precompiles.Assets, Precompiles.Requests).
-- - XcAssets: pallets/xc-asset-config/src/lib.rs. The storage is the record `Pallet`, a dispatchable a
--   function into `Outcome`, `dispatch` the choice by `Call`. XcAssets.Invariant, XcAssets.Calls and
--   XcAssets.Lookups are about the two maps and the prices; XcAssets.Registry is the view that forgets how
--   they are stored, and XcAssets.Histories has all states that calls lead to, XcAssets.Events
--   what their events tell.
-- - XcAssets.Migration, XcAssets.Conversions and XcAssets.Upgrades: the storage migration,
--   pallets/xc-asset-config/src/migrations.rs; XcAssets.UpgradeChecks has the checks of `try-runtime`.
-- - Runtime: `DealWithFees` (Runtime.Fees, with Runtime.Fees.Shares), `EvmRevertCodeHandler` (Runtime.Codes) and `ProxyType`
--   (Runtime.Filters) of runtime/src/lib.rs, and `SafeCallFilter` of runtime/src/xcm_config.rs. Also of
--   runtime/src/lib.rs: `MergeAccountEvm` (Runtime.Merge), `WeightToFee`, the limits of a block and the
--   deposits (Runtime.Weights), the origins of democracy (Runtime.Governance), and self-contained calls,
--   Ethereum transactions and `FindAuthorTruncated` (Runtime.Ethereum).
-- - Node: the chain specifications of node/src/chain_spec.rs.
-- - Template: pallets/template/src/lib.rs.
-- - EvmAccounts: pallets/evm-accounts/src/lib.rs. EvmAccounts.Mapping, EvmAccounts.Claims,
--   EvmAccounts.Addresses and EvmAccounts.Histories are about the two maps, the two claims, the derived
--   addresses, and all states that steps of the pallet lead to.
-- - Storage and Dispatch: storage maps, and the result of a dispatchable; Prelude: names, lists, equality
--   tests and big-endian words that all parts share.
--
-- How the parts interact: the asset pallet (XcAssets) tells the runtime of registrations by a callback,
-- which puts code at the asset's address (Runtime.Codes). The runtime routes a call of the EVM by its
-- address (Precompiles) to an asset (AssetIds), whose precompile (Erc20) decodes the input by the codec
-- (Abi), charges gas and dispatches by the helpers (Evm), and maps addresses to accounts (EvmAccounts, as
-- `into_account_id`).
--
-- Representation and bounds
-- - Numbers are natural numbers. `usize` has 32 bits, since the runtime is WebAssembly: `usize_max` is
--   2 ^ 32 - 1, and what wraps around in the source is a remainder here. `U256` and `u128` are bounded
--   where a value enters. Bytes, hashes, addresses and accounts are lists of numbers.
-- - A dispatchable that fails leaves the storage as it was, and a precompile that fails leaves no state:
--   the framework rolls both back. The gas left after a failure is not modelled.
-- - No function runs on fuel: all loops are over lists or a given number of items.
-- - Parameters: the conversion of locations, hashes, signature recovery, the accounts and balances of the
--   system, the `PrecompileHandle`, `pallet_assets`, `pallet_balances`, `pallet_ethereum`, the Ethereum
--   precompiles, the rounding of `Perbill` and the sum of the terms of a fee, the configuration of the
--   EVM, and keys derived from seeds. What they are
--   documented to do is a record of laws or a named predicate where a theorem needs it.
--
-- Not modelled: the rest of the node, whose code starts and connects the framework; weights and benchmarks,
-- which are generated; the mock runtimes of the tests; the configuration of pallets in runtime/src/lib.rs
-- and runtime/src/xcm_config.rs, which is types, and the APIs that forward to them; what `keccak256!` and
-- the `Debug` of a log print.
pub mod Prelude
pub mod Storage
pub mod Dispatch
pub mod Abi
pub mod XcAssets
pub mod AssetIds
pub mod Erc20
pub mod Evm
pub mod EvmAccounts
pub mod Node
pub mod Precompiles
pub mod Runtime
pub mod Selectors
pub mod Template
