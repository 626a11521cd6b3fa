-- ===== src/Erc20/Custody.antt =====
-- What precompiles/assets-erc20/src/lib.rs relies on of `pallet_assets` for balances: which calls take
-- units from an account. And from whom each Solidity call may take them.
use neuroweb.Prelude.{ℕ, ◌+◌, ◌≤◌, ◌≡◌, ◌⊎◌, inr, Bool, true, false, ◌&&◌, Option, nat_eq}
use neuroweb.Abi.Failure.{ok}
use neuroweb.Evm.{Log, PrecompileHandle}
use neuroweb.Erc20.{
  Assets, AssetsCall, cancel_approval_call, approve_transfer_call, transfer_call,
  transfer_approved_call, mint_call, burn_call, caller_account,
}
use neuroweb.Erc20.Requests.{
  Request, get_balance, get_allowance, transfer_to, approve_for, transfer_between, mint_for,
  burn_from, increase_by, decrease_by,
}

-- A loss is of an amount, or of all that the account had.
abbrev pub IsLoss : ℕ → ℕ → ℕ → Type 0
IsLoss amount before after = (before ≤ after + amount) ⊎ (after ≡ 0)

module _ {H AccountId : Type 0} (handle : PrecompileHandle H) (runtime : Assets H AccountId) where
  -- The account from which a call of the pallet takes units of an asset.
  abbrev pub takes : AccountId → AssetsCall AccountId → ℕ → AccountId → Bool
  takes origin (cancel_approval_call id delegate) j o = false
  takes origin (approve_transfer_call id delegate amount) j o = false
  takes origin (transfer_call id target amount) j o = nat_eq j id && runtime.account_eq o origin
  takes origin (transfer_approved_call id owner destination amount) j o =
      nat_eq j id && runtime.account_eq o owner
  takes origin (mint_call id beneficiary amount) j o = false
  takes origin (burn_call id who amount) j o = nat_eq j id && runtime.account_eq o who

  abbrev pub amount_of : AssetsCall AccountId → ℕ
  amount_of (cancel_approval_call id delegate) = 0
  amount_of (approve_transfer_call id delegate amount) = amount
  amount_of (transfer_call id target amount) = amount
  amount_of (transfer_approved_call id owner destination amount) = amount
  amount_of (mint_call id beneficiary amount) = amount
  amount_of (burn_call id who amount) = amount

  -- The documented behaviour of the pallet, of the gas meter and of the log. An account that would be
  -- left with less than the minimum balance loses the rest too; only the admin burns.
  pub record IsCustody (is_admin : ℕ → AccountId → H → Bool) : Type 0 where
    pub charge_admin :
        (n : ℕ) (h h' : H) (j : ℕ) (o : AccountId)
        → handle.record_cost n h ≡ ok h'
        → is_admin j o h' ≡ is_admin j o h
    pub charge_balance :
        (n : ℕ) (h h' : H) (j : ℕ) (o : AccountId)
        → handle.record_cost n h ≡ ok h'
        → runtime.asset_balance j o h' ≡ runtime.asset_balance j o h
    pub log_balance :
        (l : Log) (h h' : H) (j : ℕ) (o : AccountId)
        → handle.log l h ≡ ok h'
        → runtime.asset_balance j o h' ≡ runtime.asset_balance j o h
    pub taken :
        (origin : AccountId) (call : AssetsCall AccountId) (h h' : H) (w : Option ℕ) (j : ℕ)
        (o : AccountId)
        → runtime.dispatcher.dispatch origin call h ≡ inr (h', w)
        → takes origin call j o ≡ false
        → runtime.asset_balance j o h ≤ runtime.asset_balance j o h'
    pub limited :
        (origin : AccountId) (call : AssetsCall AccountId) (h h' : H) (w : Option ℕ) (j : ℕ)
        (o : AccountId)
        → runtime.dispatcher.dispatch origin call h ≡ inr (h', w)
        → (runtime.asset_balance j o h ≤ runtime.asset_balance j o h' + amount_of call)
          ⊎ (runtime.asset_balance j o h' ≡ 0)
    pub burns :
        (origin who : AccountId) (id amount : ℕ) (h h' : H) (w : Option ℕ)
        → runtime.dispatcher.dispatch origin (burn_call id who amount) h ≡ inr (h', w)
        → is_admin id origin h ≡ true

  module _ (is_admin : ℕ → AccountId → H → Bool) where
    -- The losses that a Solidity call to the asset may cause: of the caller, by a transfer; of another
    -- account that approved the amount for the caller; and by the admin, of the account burned from.
    unfoldable pub MayLose : Request → ℕ → H → ℕ → AccountId → ℕ → Type 0
    MayLose (transfer_to to amount) id h j o after =
        (j ≡ id)
        × (o ≡ caller_account handle runtime h)
        × IsLoss amount (runtime.asset_balance j o h) after
    MayLose (transfer_between from to amount) id h j o after =
        (j ≡ id)
        × (o ≡ runtime.into_account_id from h)
        × ((o ≡ caller_account handle runtime h)
            ⊎ (amount ≤ runtime.asset_allowance id o (caller_account handle runtime h) h))
        × IsLoss amount (runtime.asset_balance j o h) after
    MayLose (burn_from who amount) id h j o after =
        (j ≡ id)
        × (o ≡ runtime.into_account_id who h)
        × (is_admin id (caller_account handle runtime h) h ≡ true)
        × IsLoss amount (runtime.asset_balance j o h) after
    MayLose (get_balance owner) id h j o after = true ≡ false
    MayLose (get_allowance owner spender) id h j o after = true ≡ false
    MayLose (approve_for spender amount) id h j o after = true ≡ false
    MayLose (mint_for beneficiary amount) id h j o after = true ≡ false
    MayLose (increase_by spender added_value) id h j o after = true ≡ false
    MayLose (decrease_by spender subtracted_value) id h j o after = true ≡ false
