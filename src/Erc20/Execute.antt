-- ===== src/Erc20/Execute.antt =====
-- `execute` and `is_precompile` of precompiles/assets-erc20/src/lib.rs: the choice of the action
-- and its guards.
use neuroweb.Prelude.{ℕ, Bool, false, not, Option, none, some, List, nat_eq}
use neuroweb.Abi.Failure.{and_then}
use neuroweb.Abi.Reader.{read_selector}
use neuroweb.Evm.{PrecompileHandle, FunctionModifier, view, non_payable, check_function_modifier}
use neuroweb.Erc20.{
  Action, Assets, total_supply, balance_of, allowance, transfer, approve, transfer_from, name,
  symbol, decimals, minimum_balance, mint, burn, increase_allowance, decrease_allowance, actions,
  action_in, supply_of, Output, total_supply_output, balance_of_output, allowance_output,
  name_output, symbol_output, decimals_output, minimum_balance_output,
}
use neuroweb.Erc20.Changes.{
  approve_output, increase_allowance_output, decrease_allowance_output, transfer_output,
  transfer_from_output, mint_output, burn_output,
}

-- The modifier that `execute` demands of an action.
unfoldable pub modifier_of : Action → FunctionModifier
modifier_of total_supply = view
modifier_of balance_of = view
modifier_of allowance = view
modifier_of transfer = non_payable
modifier_of approve = non_payable
modifier_of transfer_from = non_payable
modifier_of name = view
modifier_of symbol = view
modifier_of decimals = view
modifier_of minimum_balance = view
modifier_of mint = non_payable
modifier_of burn = non_payable
modifier_of increase_allowance = non_payable
modifier_of decrease_allowance = non_payable

module _ {H AccountId : Type 0} (handle : PrecompileHandle H) (runtime : Assets H AccountId) where
  unfoldable pub run_action : Action → ℕ → H → Output H
  run_action total_supply = total_supply_output handle runtime
  run_action balance_of = balance_of_output handle runtime
  run_action allowance = allowance_output handle runtime
  run_action transfer = transfer_output handle runtime
  run_action approve = approve_output handle runtime
  run_action transfer_from = transfer_from_output handle runtime
  run_action name = name_output handle runtime
  run_action symbol = symbol_output handle runtime
  run_action decimals = decimals_output handle runtime
  run_action minimum_balance = minimum_balance_output handle runtime
  run_action mint = mint_output handle runtime
  run_action burn = burn_output handle runtime
  run_action increase_allowance = increase_allowance_output handle runtime
  run_action decrease_allowance = decrease_allowance_output handle runtime

  -- `execute` for an asset that exists.
  unfoldable pub execute_asset : ℕ → H → Output H
  execute_asset id h =
      and_then (read_selector (action_in runtime.selector_of actions) (handle.input h)) λ selector.
        and_then (check_function_modifier handle (modifier_of selector) h)
          λ _. run_action selector id h

  unfoldable pub execute : H → Option (Output H)
  execute h = elim (runtime.address_to_asset_id (handle.code_address h)) [
    | none ↦ none
    | some id ↦ elim (runtime.maybe_total_supply id h) [
      | none ↦ none
      | some _ ↦ some (execute_asset id h)
    ]
  ]

  unfoldable pub is_precompile : List ℕ → H → Bool
  is_precompile code h = elim (runtime.address_to_asset_id code) [
    | none ↦ false
    | some id ↦ not (nat_eq (supply_of (runtime.maybe_total_supply id h)) 0)
  ]
