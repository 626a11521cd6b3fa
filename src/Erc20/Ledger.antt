-- ===== src/Erc20/Ledger.antt =====
-- What precompiles/assets-erc20/src/lib.rs relies on of `pallet_assets`: how its calls move
-- allowances, which charging gas and logging leave alone. And what each Solidity call should leave
-- of them.
use neuroweb.Prelude.{
  ℕ, ◌+◌, ◌-◌, ◌≤◌, ◌<◌, ◌^◌, ◌≡◌, ◌↔◌, Bool, true, ◌&&◌, Option, inr, List, nat_eq, if◌then◌else◌,
}
use neuroweb.Abi.Failure.{ok}
use neuroweb.Evm.{Log, PrecompileHandle}
use neuroweb.Erc20.{
  Assets, AssetsCall, cancel_approval_call, approve_transfer_call, transfer_call,
  transfer_approved_call, mint_call, burn_call, saturate, saturating_add, caller_account,
}
use neuroweb.Erc20.Requests.{
  Request, get_balance, get_allowance, transfer_to, approve_for, transfer_between, mint_for,
  burn_from, increase_by, decrease_by,
}

module _ {H AccountId : Type 0} (handle : PrecompileHandle H) (runtime : Assets H AccountId) where
  -- Whether the allowance of `owner` for `spender` on `id` is the one of `o` for `d` on `j`.
  abbrev pub touches : ℕ → AccountId → AccountId → ℕ → AccountId → AccountId → Bool
  touches id owner spender j o d =
      nat_eq j id && (runtime.account_eq o owner && runtime.account_eq d spender)

  -- The allowances that a call of the pallet which succeeds leaves.
  abbrev pub moved : AccountId → AssetsCall AccountId → H → ℕ → AccountId → AccountId → ℕ
  moved origin (cancel_approval_call id delegate) h j o d =
      if touches id origin delegate j o d then 0 else runtime.asset_allowance j o d h
  moved origin (approve_transfer_call id delegate amount) h j o d =
      if touches id origin delegate j o d
      then runtime.asset_allowance j o d h + amount
      else runtime.asset_allowance j o d h
  moved origin (transfer_approved_call id owner destination amount) h j o d =
      if touches id owner origin j o d
      then runtime.asset_allowance j o d h - amount
      else runtime.asset_allowance j o d h
  moved origin (transfer_call id target amount) h j o d = runtime.asset_allowance j o d h
  moved origin (mint_call id beneficiary amount) h j o d = runtime.asset_allowance j o d h
  moved origin (burn_call id who amount) h j o d = runtime.asset_allowance j o d h

  -- The accounts of the call and the allowances are as before.
  pub record IsQuiet (h h' : H) : Type 0 where
    pub same_caller : handle.caller h' ≡ handle.caller h
    pub same_accounts : (a : List ℕ) → runtime.into_account_id a h' ≡ runtime.into_account_id a h
    pub same_allowances :
        (j : ℕ) (o d : AccountId)
        → runtime.asset_allowance j o d h' ≡ runtime.asset_allowance j o d h

  -- The documented behaviour of the pallet, of the gas meter and of the log. An allowance is a balance, of
  -- 128 bits; only what was approved before can be spent for another.
  pub record IsLedger : Type 0 where
    pub account_eq_iff : (a b : AccountId) → (runtime.account_eq a b ≡ true) ↔ (a ≡ b)
    pub charge : (n : ℕ) (h h' : H) → handle.record_cost n h ≡ ok h' → IsQuiet h h'
    pub logged : (l : Log) (h h' : H) → handle.log l h ≡ ok h' → IsQuiet h h'
    pub bounded : (j : ℕ) (o d : AccountId) (h : H) → runtime.asset_allowance j o d h < 2 ^ 128
    pub moves :
        (origin : AccountId) (call : AssetsCall AccountId) (h h' : H) (w : Option ℕ) (j : ℕ)
        (o d : AccountId)
        → runtime.dispatcher.dispatch origin call h ≡ inr (h', w)
        → runtime.asset_allowance j o d h' ≡ moved origin call h j o d
    pub covered :
        (origin owner destination : AccountId) (id amount : ℕ) (h h' : H) (w : Option ℕ)
        → runtime.dispatcher.dispatch origin (transfer_approved_call id owner destination amount) h
          ≡ inr (h', w)
        → amount ≤ runtime.asset_allowance id owner origin h

  -- The allowance that a Solidity call sets.
  abbrev pub granted : Request → ℕ → ℕ
  granted (approve_for spender amount) old = saturate amount
  granted (increase_by spender added_value) old = saturate (saturating_add old added_value)
  granted (decrease_by spender subtracted_value) old = old - subtracted_value
  granted (get_balance owner) old = old
  granted (get_allowance owner spender) old = old
  granted (transfer_to to amount) old = old
  granted (transfer_between from to amount) old = old
  granted (mint_for beneficiary amount) old = old
  granted (burn_from who amount) old = old

  -- The allowances that a Solidity call to the asset leaves.
  abbrev pub allowance_after : Request → ℕ → H → ℕ → AccountId → AccountId → ℕ
  allowance_after (approve_for spender amount) id h j o d =
      if touches id (caller_account handle runtime h) (runtime.into_account_id spender h) j o d
      then granted (approve_for spender amount) (runtime.asset_allowance j o d h)
      else runtime.asset_allowance j o d h
  allowance_after (increase_by spender added_value) id h j o d =
      if touches id (caller_account handle runtime h) (runtime.into_account_id spender h) j o d
      then granted (increase_by spender added_value) (runtime.asset_allowance j o d h)
      else runtime.asset_allowance j o d h
  allowance_after (decrease_by spender subtracted_value) id h j o d =
      if touches id (caller_account handle runtime h) (runtime.into_account_id spender h) j o d
      then granted (decrease_by spender subtracted_value) (runtime.asset_allowance j o d h)
      else runtime.asset_allowance j o d h
  allowance_after (transfer_between from to amount) id h j o d =
      if runtime.account_eq (caller_account handle runtime h) (runtime.into_account_id from h)
      then runtime.asset_allowance j o d h
      else if touches id (runtime.into_account_id from h) (caller_account handle runtime h) j o d
      then runtime.asset_allowance j o d h - amount
      else runtime.asset_allowance j o d h
  allowance_after (get_balance owner) id h j o d = runtime.asset_allowance j o d h
  allowance_after (get_allowance owner spender) id h j o d = runtime.asset_allowance j o d h
  allowance_after (transfer_to to amount) id h j o d = runtime.asset_allowance j o d h
  allowance_after (mint_for beneficiary amount) id h j o d = runtime.asset_allowance j o d h
  allowance_after (burn_from who amount) id h j o d = runtime.asset_allowance j o d h
