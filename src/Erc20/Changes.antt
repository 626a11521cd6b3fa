-- ===== src/Erc20/Changes.antt =====
-- The actions of precompiles/assets-erc20/src/lib.rs that change the asset: each is a dispatched
-- call and a log.
use neuroweb.Prelude.{ℕ, ◌-◌, true, not, List, nat_eq, if◌then◌else◌}
use neuroweb.Abi.Failure.{EvmResult, ok, and_then}
use neuroweb.Abi.Types.{address, u256, u128, bool, pad_address, field, last}
use neuroweb.Evm.{log3, PrecompileHandle, record_log_costs_manual, read_arguments}
use neuroweb.Erc20.{
  AssetsCall, Assets, cancel_approval_call, approve_transfer_call, transfer_call,
  transfer_approved_call, mint_call, burn_call, saturate, saturating_add, encoded, Output,
  caller_account, record_db_read, dispatch,
}

module _ {H AccountId : Type 0} (handle : PrecompileHandle H) (runtime : Assets H AccountId) where
  -- A previous approval is cancelled first.
  unfoldable pub clear_approval : ℕ → AccountId → AccountId → H → EvmResult H
  clear_approval id origin spender h =
      if nat_eq (runtime.asset_allowance id origin spender h) 0
      then ok h
      else dispatch handle runtime origin (cancel_approval_call id spender) h

  -- `LogsBuilder::new(address).log3(..).record(handle)` with an amount as data.
  unfoldable pub record_log : List ℕ → List ℕ → List ℕ → List ℕ → H → EvmResult H
  record_log topic0 topic1 topic2 contents h =
      handle.log
        (log3 (record { emitter = handle.context_address h }) topic0 (pad_address topic1)
          (pad_address topic2) contents)
        h

  -- `_approve`
  unfoldable pub approve_spender : ℕ → List ℕ → ℕ → H → Output H
  approve_spender id spender amount h0 =
      let origin = caller_account handle runtime h0 in
      let delegate = runtime.into_account_id spender h0 in
      and_then (record_db_read handle runtime h0) λ h1.
        and_then (clear_approval id origin delegate h1) λ h2.
          and_then
            (dispatch handle runtime origin (approve_transfer_call id delegate (saturate amount))
              h2)
            λ h3.
              and_then
                (record_log runtime.selector_log_approval (handle.caller h3) spender
                  (encoded u256 amount) h3)
                λ h4. ok (encoded bool true, h4)

  unfoldable pub approve_output : ℕ → H → Output H
  approve_output id h = and_then (record_log_costs_manual handle 3 32 h) λ h.
      and_then (read_arguments handle 2 (field address (last u256)) h)
        λ (spender, amount). approve_spender id spender amount h

  -- The allowance that the two changes below start from.
  abbrev pub current_allowance : ℕ → List ℕ → H → ℕ
  current_allowance id spender h =
      runtime.asset_allowance id (caller_account handle runtime h)
        (runtime.into_account_id spender h) h

  unfoldable pub increase_allowance_output : ℕ → H → Output H
  increase_allowance_output id h = and_then (record_db_read handle runtime h) λ h.
      and_then (read_arguments handle 2 (field address (last u256)) h) λ (spender, added_value).
        approve_spender id spender (saturating_add (current_allowance id spender h) added_value) h

  unfoldable pub decrease_allowance_output : ℕ → H → Output H
  decrease_allowance_output id h = and_then (record_db_read handle runtime h) λ h.
      and_then (read_arguments handle 2 (field address (last u256)) h)
        λ (spender, subtracted_value).
          approve_spender id spender (current_allowance id spender h - subtracted_value) h

  -- The end of the two transfers: the log and the output.
  abbrev pub transferred : List ℕ → List ℕ → ℕ → H → Output H
  transferred from to amount h =
      and_then (record_log runtime.selector_log_transfer from to (encoded u128 amount) h)
        λ h. ok (encoded bool true, h)

  unfoldable pub transfer_output : ℕ → H → Output H
  transfer_output id h = and_then (record_log_costs_manual handle 3 32 h) λ h.
      and_then (read_arguments handle 2 (field address (last u128)) h) λ (to, amount).
        and_then
          (dispatch handle runtime (caller_account handle runtime h)
            (transfer_call id (runtime.into_account_id to h) amount) h)
          λ h'. transferred (handle.caller h') to amount h'

  -- The call of `transfer_from`: an account spends its own balance without an approval.
  unfoldable pub transfer_from_call :
      ℕ → AccountId → AccountId → AccountId → ℕ → AssetsCall AccountId
  transfer_from_call id caller from to amount =
      if not (runtime.account_eq caller from)
      then transfer_approved_call id from to amount
      else transfer_call id to amount

  unfoldable pub transfer_from_output : ℕ → H → Output H
  transfer_from_output id h = and_then (record_log_costs_manual handle 3 32 h) λ h.
      and_then (read_arguments handle 3 (field address (field address (last u128))) h)
        λ (from, (to, amount)).
          and_then
            (dispatch handle runtime (caller_account handle runtime h)
              (transfer_from_call id (caller_account handle runtime h)
                (runtime.into_account_id from h) (runtime.into_account_id to h) amount)
              h)
            λ h'. transferred from to amount h'

  unfoldable pub mint_output : ℕ → H → Output H
  mint_output id h =
      and_then (read_arguments handle 2 (field address (last u128)) h) λ (beneficiary, amount).
        and_then
          (dispatch handle runtime (caller_account handle runtime h)
            (mint_call id (runtime.into_account_id beneficiary h) amount) h)
          λ h'. ok (encoded bool true, h')

  unfoldable pub burn_output : ℕ → H → Output H
  burn_output id h =
      and_then (read_arguments handle 2 (field address (last u128)) h) λ (who, amount).
        and_then
          (dispatch handle runtime (caller_account handle runtime h)
            (burn_call id (runtime.into_account_id who h) amount) h)
          λ h'. ok (encoded bool true, h')
