-- ===== src/Erc20/Requests.antt =====
-- What the precompile of precompiles/assets-erc20/src/lib.rs promises to a Solidity caller: each encoded
-- call runs the action that it names on the arguments that it carries.
use neuroweb.Prelude.{ℕ, ◌-◌, ◌<◌, ◌^◌, ◌≡◌, true, List, length}
use neuroweb.Abi.Failure.{EvmResult, ok, and_then}
use neuroweb.Abi.Types.{address, last, u256, bool}
use neuroweb.Evm.{PrecompileHandle, record_log_costs_manual}
use neuroweb.Erc20.{
  Action, balance_of, allowance, transfer, approve, transfer_from, mint, burn, increase_allowance,
  decrease_allowance, Assets, transfer_call, mint_call, burn_call, encoded, saturating_add, Output,
  caller_account, record_db_read, dispatch,
}
use neuroweb.Erc20.Changes.{approve_spender, current_allowance, transferred, transfer_from_call}
use neuroweb.Erc20.Decoding.{calldata, addresses, address_u256, address_u128, address_address_u128}

-- A call with arguments, as the Solidity interface has it.
pub data Request : Type 0 where
  get_balance : (owner : List ℕ) → Request
  get_allowance : (owner spender : List ℕ) → Request
  transfer_to : (to : List ℕ) (amount : ℕ) → Request
  approve_for : (spender : List ℕ) (amount : ℕ) → Request
  transfer_between : (from to : List ℕ) (amount : ℕ) → Request
  mint_for : (beneficiary : List ℕ) (amount : ℕ) → Request
  burn_from : (who : List ℕ) (amount : ℕ) → Request
  increase_by : (spender : List ℕ) (added_value : ℕ) → Request
  decrease_by : (spender : List ℕ) (subtracted_value : ℕ) → Request

abbrev pub action_of : Request → Action
action_of (get_balance owner) = balance_of
action_of (get_allowance owner spender) = allowance
action_of (transfer_to to amount) = transfer
action_of (approve_for spender amount) = approve
action_of (transfer_between from to amount) = transfer_from
action_of (mint_for beneficiary amount) = mint
action_of (burn_from who amount) = burn
action_of (increase_by spender added_value) = increase_allowance
action_of (decrease_by spender subtracted_value) = decrease_allowance

-- The bytes of the call.
abbrev pub encode_request : (Action → ℕ) → Request → List ℕ
encode_request selector (get_balance owner) = calldata (last address) (selector balance_of) owner
encode_request selector (get_allowance owner spender) =
    calldata addresses (selector allowance) (owner, spender)
encode_request selector (transfer_to to amount) =
    calldata address_u128 (selector transfer) (to, amount)
encode_request selector (approve_for spender amount) =
    calldata address_u256 (selector approve) (spender, amount)
encode_request selector (transfer_between from to amount) =
    calldata address_address_u128 (selector transfer_from) (from, (to, amount))
encode_request selector (mint_for beneficiary amount) =
    calldata address_u128 (selector mint) (beneficiary, amount)
encode_request selector (burn_from who amount) = calldata address_u128 (selector burn) (who, amount)
encode_request selector (increase_by spender added_value) =
    calldata address_u256 (selector increase_allowance) (spender, added_value)
encode_request selector (decrease_by spender subtracted_value) =
    calldata address_u256 (selector decrease_allowance) (spender, subtracted_value)

-- Addresses of 20 bytes; amounts that the type of the action holds.
abbrev pub RequestOk : Request → Type 0
RequestOk (get_balance owner) = length owner ≡ 20
RequestOk (get_allowance owner spender) = (length owner ≡ 20) × (length spender ≡ 20)
RequestOk (transfer_to to amount) = (length to ≡ 20) × (amount < 2 ^ 128)
RequestOk (approve_for spender amount) = (length spender ≡ 20) × (amount < 2 ^ 256)
RequestOk (transfer_between from to amount) =
    (length from ≡ 20) × (length to ≡ 20) × (amount < 2 ^ 128)
RequestOk (mint_for beneficiary amount) = (length beneficiary ≡ 20) × (amount < 2 ^ 128)
RequestOk (burn_from who amount) = (length who ≡ 20) × (amount < 2 ^ 128)
RequestOk (increase_by spender added_value) = (length spender ≡ 20) × (added_value < 2 ^ 256)
RequestOk (decrease_by spender subtracted_value) =
    (length spender ≡ 20) × (subtracted_value < 2 ^ 256)

module _ {H AccountId : Type 0} (handle : PrecompileHandle H) (runtime : Assets H AccountId) where
  -- The cost that an action charges before it reads its arguments.
  abbrev pub prepay : Request → H → EvmResult H
  prepay (get_balance owner) h = record_db_read handle runtime h
  prepay (get_allowance owner spender) h = record_db_read handle runtime h
  prepay (transfer_to to amount) h = record_log_costs_manual handle 3 32 h
  prepay (approve_for spender amount) h = record_log_costs_manual handle 3 32 h
  prepay (transfer_between from to amount) h = record_log_costs_manual handle 3 32 h
  prepay (mint_for beneficiary amount) h = ok h
  prepay (burn_from who amount) h = ok h
  prepay (increase_by spender added_value) h = record_db_read handle runtime h
  prepay (decrease_by spender subtracted_value) h = record_db_read handle runtime h

  -- What the call means, in terms of accounts: an answer, or a dispatched call and its log.
  abbrev pub effect : Request → ℕ → H → Output H
  effect (get_balance owner) id h =
      ok (encoded u256 (runtime.asset_balance id (runtime.into_account_id owner h) h), h)
  effect (get_allowance owner spender) id h = ok (
    encoded u256 (
        runtime.asset_allowance id (runtime.into_account_id owner h)
          (runtime.into_account_id spender h) h),
    h,
  )
  effect (transfer_to to amount) id h =
      and_then
        (dispatch handle runtime (caller_account handle runtime h)
          (transfer_call id (runtime.into_account_id to h) amount) h)
        (λ h'. transferred handle runtime (handle.caller h') to amount h')
  effect (approve_for spender amount) id h = approve_spender handle runtime id spender amount h
  effect (transfer_between from to amount) id h =
      and_then
        (dispatch handle runtime (caller_account handle runtime h)
          (transfer_from_call handle runtime id (caller_account handle runtime h)
            (runtime.into_account_id from h) (runtime.into_account_id to h) amount)
          h)
        (λ h'. transferred handle runtime from to amount h')
  effect (mint_for beneficiary amount) id h =
      and_then
        (dispatch handle runtime (caller_account handle runtime h)
          (mint_call id (runtime.into_account_id beneficiary h) amount) h)
        (λ h'. ok (encoded bool true, h'))
  effect (burn_from who amount) id h =
      and_then
        (dispatch handle runtime (caller_account handle runtime h)
          (burn_call id (runtime.into_account_id who h) amount) h)
        (λ h'. ok (encoded bool true, h'))
  effect (increase_by spender added_value) id h =
      approve_spender handle runtime id spender
        (saturating_add (current_allowance handle runtime id spender h) added_value) h
  effect (decrease_by spender subtracted_value) id h =
      approve_spender handle runtime id spender
        (current_allowance handle runtime id spender h - subtracted_value) h

  -- Charging gas leaves the input of the call alone.
  abbrev pub KeepsInput : Type 0
  KeepsInput =
      (n : ℕ) (h h' : H) → handle.record_cost n h ≡ ok h' → handle.input h' ≡ handle.input h
