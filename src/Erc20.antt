-- ===== src/Erc20.antt =====
-- The precompile set of precompiles/assets-erc20/src/lib.rs: an ERC-20 interface to the assets of
-- `pallet_assets`. This file has what all actions share, and the actions that read. The pallet, the
-- mapping of addresses and the selectors are parameters.
pub mod Changes
pub mod Execute
pub mod Decoding
pub mod Requests
pub mod Selectors
pub mod Refinement
pub mod Guards
pub mod Truncation
pub mod Amounts
pub mod Ledger
pub mod Spending
pub mod Custody
pub mod Losses
pub mod Issuance
pub mod Static
pub mod Tests
use neuroweb.Prelude.{
  ℕ, ◌+◌, ◌-◌, ◌^◌, Bool, true, false, not, Option, none, some, List, [], ◌∷◌, ltb, leb, min,
  nat_eq, bytes_eq, if◌then◌else◌,
}
use neuroweb.Abi.Failure.{EvmResult, ok, err, revert, and_then}
use neuroweb.Abi.Reader.{read_selector}
use neuroweb.Abi.Writer.{empty, build}
use neuroweb.Abi.Types.{EvmData, address, u256, u128, u8, bool, bytes, pad_address, field, last}
use neuroweb.Evm.{
  Log, LogsBuilder, log3, PrecompileHandle, FunctionModifier, view, non_payable,
  record_log_costs_manual, check_function_modifier, read_arguments, Dispatcher, db_read_gas_cost,
  try_dispatch,
}

pub data Action : Type 0 where
  total_supply balance_of allowance transfer approve transfer_from name symbol decimals : Action
  minimum_balance mint burn increase_allowance decrease_allowance : Action

-- The variants in the order of the source.
abbrev pub actions : List Action
actions =
    total_supply ∷ balance_of ∷ allowance ∷ transfer ∷ approve ∷ transfer_from ∷ name ∷ symbol
    ∷ decimals ∷ minimum_balance ∷ mint ∷ burn ∷ increase_allowance ∷ decrease_allowance ∷ []

-- The conversion that `num_enum` derives.
abbrev pub action_in : (Action → ℕ) → List Action → ℕ → Option Action
action_in selector [] n = none
action_in selector (a ∷ rest) n =
    if nat_eq n (selector a) then some a else action_in selector rest n

-- The calls of `pallet_assets` that the precompile dispatches; accounts stand for `Lookup::unlookup` of
-- them.
pub data AssetsCall (AccountId : Type 0) : Type 0 where
  cancel_approval_call : (id : ℕ) (delegate : AccountId) → AssetsCall AccountId
  approve_transfer_call : (id : ℕ) (delegate : AccountId) (amount : ℕ) → AssetsCall AccountId
  transfer_call : (id : ℕ) (target : AccountId) (amount : ℕ) → AssetsCall AccountId
  transfer_approved_call :
      (id : ℕ) (owner destination : AccountId) (amount : ℕ) → AssetsCall AccountId
  mint_call : (id : ℕ) (beneficiary : AccountId) (amount : ℕ) → AssetsCall AccountId
  burn_call : (id : ℕ) (who : AccountId) (amount : ℕ) → AssetsCall AccountId

-- What the precompile reads of the runtime, at the storage of the handle; `account_eq` is `==`.
pub record Assets (H AccountId : Type 0) : Type 0 where
  pub dispatcher : Dispatcher H AccountId (AssetsCall AccountId)
  pub address_to_asset_id : List ℕ → Option ℕ
  pub into_account_id : List ℕ → H → AccountId
  pub account_eq : AccountId → AccountId → Bool
  pub selector_of : Action → ℕ
  pub selector_log_transfer : List ℕ
  pub selector_log_approval : List ℕ
  pub maybe_total_supply : ℕ → H → Option ℕ
  pub asset_balance : ℕ → AccountId → H → ℕ
  pub asset_allowance : ℕ → AccountId → AccountId → H → ℕ
  pub asset_name : ℕ → H → List ℕ
  pub asset_symbol : ℕ → H → List ℕ
  pub asset_decimals : ℕ → H → ℕ
  pub asset_minimum_balance : ℕ → H → ℕ

-- `Balance::max_value()`
abbrev pub max_balance : ℕ
max_balance = 2 ^ 128 - 1

-- `amount.try_into().unwrap_or_else(|_| Bounded::max_value())`
abbrev pub saturate : ℕ → ℕ
saturate amount = if leb amount max_balance then amount else max_balance

-- `U256::saturating_add`
abbrev pub saturating_add : ℕ → ℕ → ℕ
saturating_add a b = if ltb (a + b) (2 ^ 256) then a + b else 2 ^ 256 - 1

-- `succeed(EvmDataWriter::new().write(value).build())`
abbrev pub encoded {ℓ} : {A : Type ℓ} → EvmData A → A → List ℕ
encoded d value = build (d.write empty value)

abbrev pub supply_of : Option ℕ → ℕ
supply_of none = 0
supply_of (some n) = n

-- The output of a precompile and the handle that it leaves.
abbrev pub Output : Type 0 → Type 0
Output H = EvmResult (List ℕ × H)

module _ {H AccountId : Type 0} (handle : PrecompileHandle H) (runtime : Assets H AccountId) where
  abbrev pub caller_account : H → AccountId
  caller_account h = runtime.into_account_id (handle.caller h) h

  abbrev pub record_db_read : H → EvmResult H
  record_db_read h = handle.record_cost (db_read_gas_cost handle runtime.dispatcher) h

  abbrev pub dispatch : AccountId → AssetsCall AccountId → H → EvmResult H
  dispatch origin call h = try_dispatch handle runtime.dispatcher origin call h

  -- `total_supply` and `total_issuance` answer 0 for an asset that does not exist.
  unfoldable pub total_supply_output : ℕ → H → Output H
  total_supply_output id h =
      and_then (record_db_read h)
        λ h. ok (encoded u256 (supply_of (runtime.maybe_total_supply id h)), h)

  unfoldable pub balance_of_output : ℕ → H → Output H
  balance_of_output id h = and_then (record_db_read h) λ h.
      and_then (read_arguments handle 1 (last address) h)
        λ owner. ok (encoded u256 (runtime.asset_balance id (runtime.into_account_id owner h) h), h)

  unfoldable pub allowance_output : ℕ → H → Output H
  allowance_output id h = and_then (record_db_read h) λ h.
      and_then (read_arguments handle 2 (field address (last address)) h) λ (owner, spender). ok (
        encoded u256 (
            runtime.asset_allowance id (runtime.into_account_id owner h)
              (runtime.into_account_id spender h) h),
        h,
      )

  unfoldable pub name_output : ℕ → H → Output H
  name_output id h =
      and_then (record_db_read h) λ h. ok (encoded bytes (runtime.asset_name id h), h)

  unfoldable pub symbol_output : ℕ → H → Output H
  symbol_output id h =
      and_then (record_db_read h) λ h. ok (encoded bytes (runtime.asset_symbol id h), h)

  unfoldable pub decimals_output : ℕ → H → Output H
  decimals_output id h =
      and_then (record_db_read h) λ h. ok (encoded u8 (runtime.asset_decimals id h), h)

  unfoldable pub minimum_balance_output : ℕ → H → Output H
  minimum_balance_output id h =
      and_then (record_db_read h) λ h. ok (encoded u256 (runtime.asset_minimum_balance id h), h)
