-- ===== src/Erc20/Issuance.antt =====
-- What precompiles/assets-erc20/src/lib.rs relies on of `pallet_assets` for the supply of an asset, and
-- what each Solidity call issues and destroys.
pub mod Supply
use neuroweb.Prelude.{
  ℕ, ◌+◌, ◌-◌, ◌≡◌, ◌∙◌, ap, sym, refl, inl, inr, Bool, Bool-cases, Option, some, List, nat_eq,
  nat_eq_iff, if◌then◌else◌, arith,
}
use neuroweb.Abi.Failure.{ok, and_then_inversion}
use neuroweb.Evm.{Log, PrecompileHandle}
use neuroweb.Evm.Guards.{try_dispatch_iff}
use neuroweb.Erc20.{
  Assets, AssetsCall, cancel_approval_call, approve_transfer_call, transfer_call, burn_call,
  mint_call, transfer_approved_call, caller_account, record_db_read, dispatch, Action, supply_of,
}
use neuroweb.Erc20.Changes.{
  clear_approval, record_log, approve_spender, transferred, transfer_from_call,
}
use neuroweb.Erc20.Execute.{execute}
use neuroweb.Erc20.Requests.{
  Request, get_balance, get_allowance, transfer_to, approve_for, transfer_between, mint_for,
  burn_from, increase_by, decrease_by, prepay, effect, KeepsInput,
}
use neuroweb.Erc20.Ledger.{IsQuiet, IsLedger}
use neuroweb.Erc20.Spending.{IsCall, served}
use neuroweb.Erc20.Spending.Effects.{prepay-IsQuiet}
use neuroweb.Erc20.Custody.{IsCustody}
use neuroweb.Erc20.Losses.{prepay-charge, prepay-keeps}

module _ {H AccountId : Type 0} (handle : PrecompileHandle H) (runtime : Assets H AccountId) where
  abbrev pub supply : ℕ → H → ℕ
  supply j h = supply_of (runtime.maybe_total_supply j h)

  -- What the account loses between two states.
  abbrev pub lost : ℕ → AccountId → H → H → ℕ
  lost j o h h' = runtime.asset_balance j o h - runtime.asset_balance j o h'

  -- The units of an asset that a call of the pallet issues.
  abbrev pub issued : AssetsCall AccountId → ℕ → ℕ
  issued (mint_call id beneficiary amount) j = if nat_eq j id then amount else 0
  issued (cancel_approval_call id delegate) j = 0
  issued (approve_transfer_call id delegate amount) j = 0
  issued (transfer_call id target amount) j = 0
  issued (transfer_approved_call id owner destination amount) j = 0
  issued (burn_call id who amount) j = 0

  -- The units of an asset that a call of the pallet destroys.
  abbrev pub destroyed : AssetsCall AccountId → ℕ → H → H → ℕ
  destroyed (burn_call id who amount) j h h' = if nat_eq j id then lost j who h h' else 0
  destroyed (mint_call id beneficiary amount) j h h' = 0
  destroyed (cancel_approval_call id delegate) j h h' = 0
  destroyed (approve_transfer_call id delegate amount) j h h' = 0
  destroyed (transfer_call id target amount) j h h' = 0
  destroyed (transfer_approved_call id owner destination amount) j h h' = 0

  -- The documented behaviour of the pallet, of the gas meter and of the log. A burn takes up to the amount.
  pub record IsIssuance : Type 0 where
    pub charge_supply :
        (n : ℕ) (h h' : H) (j : ℕ) → handle.record_cost n h ≡ ok h' → supply j h' ≡ supply j h
    pub log_supply :
        (l : Log) (h h' : H) (j : ℕ) → handle.log l h ≡ ok h' → supply j h' ≡ supply j h
    pub moves_supply :
        (origin : AccountId) (call : AssetsCall AccountId) (h h' : H) (w : Option ℕ) (j : ℕ)
        → runtime.dispatcher.dispatch origin call h ≡ inr (h', w)
        → supply j h' + destroyed call j h h' ≡ supply j h + issued call j

  -- What a Solidity call to the asset issues and destroys.
  abbrev pub minted : Request → ℕ → ℕ → ℕ
  minted (mint_for beneficiary amount) id j = if nat_eq j id then amount else 0
  minted (get_balance owner) id j = 0
  minted (get_allowance owner spender) id j = 0
  minted (transfer_to to amount) id j = 0
  minted (approve_for spender amount) id j = 0
  minted (transfer_between from to amount) id j = 0
  minted (burn_from who amount) id j = 0
  minted (increase_by spender added_value) id j = 0
  minted (decrease_by spender subtracted_value) id j = 0

  abbrev pub burned : Request → ℕ → ℕ → H → H → ℕ
  burned (burn_from who amount) id j h h' =
      if nat_eq j id then lost j (runtime.into_account_id who h) h h' else 0
  burned (get_balance owner) id j h h' = 0
  burned (get_allowance owner spender) id j h h' = 0
  burned (transfer_to to amount) id j h h' = 0
  burned (approve_for spender amount) id j h h' = 0
  burned (transfer_between from to amount) id j h h' = 0
  burned (mint_for beneficiary amount) id j h h' = 0
  burned (increase_by spender added_value) id j h h' = 0
  burned (decrease_by spender subtracted_value) id j h h' = 0
