-- ===== src/Erc20/Spending.antt =====
-- The allowances after each call to precompiles/assets-erc20/src/lib.rs that succeeds.
pub mod Effects
use neuroweb.Prelude.{
  ℕ, ◌≢◌, ◌≤◌, ◌<◌, ◌^◌, ◌≡◌, ap, subst, ◌∙◌, inl, inr, false, Bool-cases, ◌&&◌, not, some, List,
  nat_eq, nat_eq_iff, if◌then◌else◌, arith,
}
use neuroweb.Abi.Failure.{ok, and_then, and_then_inversion}
use neuroweb.Evm.{PrecompileHandle, record_log_costs_manual, log_costs, is_view}
use neuroweb.Evm.Guards.{try_dispatch_iff}
use neuroweb.Erc20.{
  Assets, AssetsCall, cancel_approval_call, transfer_approved_call, caller_account, record_db_read,
  dispatch, saturate, Action,
}
use neuroweb.Erc20.Changes.{
  clear_approval, record_log, approve_spender, transferred, transfer_from_call,
}
use neuroweb.Erc20.Execute.{modifier_of, execute}
use neuroweb.Erc20.Requests.{
  Request, get_balance, get_allowance, transfer_to, approve_for, transfer_between, mint_for,
  burn_from, increase_by, decrease_by, action_of, encode_request, RequestOk, prepay, effect,
  KeepsInput,
}
use neuroweb.Erc20.Guards.{execute-request}
use neuroweb.Erc20.Ledger.{touches, moved, IsQuiet, IsLedger, allowance_after}
use neuroweb.Erc20.Spending.Effects.{effect-allowance, prepay-IsQuiet, allowance_after_quiet}

module _ {H AccountId : Type 0} (handle : PrecompileHandle H) (runtime : Assets H AccountId)
    (law : IsLedger handle runtime) where
  -- A call that encodes a request with arguments in range, to an existing asset, without value, and
  -- not static if it changes the asset.
  pub record IsCall (r : Request) (id : ℕ) (h : H) : Type 0 where
    pub small : runtime.selector_of (action_of r) < 2 ^ 32
    pub valid : RequestOk r
    pub input : handle.input h ≡ encode_request runtime.selector_of r
    pub asset : runtime.address_to_asset_id (handle.code_address h) ≡ some id
    pub supply : ℕ
    pub exists : runtime.maybe_total_supply id h ≡ some supply
    pub not_static : (handle.is_static h && not (is_view (modifier_of (action_of r)))) ≡ false
    pub no_value : handle.apparent_value h ≡ 0

  module _ (keeps : KeepsInput handle runtime)
      (injective : (a b : Action) → runtime.selector_of a ≡ runtime.selector_of b → a ≡ b) where
    -- What a call that succeeds has done.
    pub served :
        (r : Request) (id : ℕ) (h h' : H) (out : List ℕ)
        → IsCall r id h
        → execute handle runtime h ≡ some (ok (out, h'))
        → (h1 : H) × (prepay handle runtime r h ≡ ok h1)
          × (effect handle runtime r id h1 ≡ ok (out, h'))
    served r id h h' out c returned =
        let known =
          execute-request handle runtime r id c.supply h keeps injective c.small c.valid c.input
            c.asset c.exists c.not_static c.no_value in
        let chain : and_then (prepay handle runtime r h) (effect handle runtime r id)
            ≡ ok (out, h') =
          ground arith in
        and_then_inversion _ _ _ chain

    -- A call that succeeds leaves every allowance as it should: an approval, an increase and a
    -- decrease set that of the caller for the spender, to the amount, the sum or the difference,
    -- capped; a transfer on behalf of another account takes the amount from that of the caller;
    -- nothing else changes an allowance. This is if the pallet, the gas meter and the log behave as
    -- documented, selectors are distinct, and charging gas leaves the input alone.
    pub execute-allowances :
        (r : Request) (id : ℕ) (h h' : H) (out : List ℕ) (j : ℕ) (o d : AccountId)
        → IsCall r id h
        → execute handle runtime h ≡ some (ok (out, h'))
        → runtime.asset_allowance j o d h' ≡ allowance_after handle runtime r id h j o d
    execute-allowances r id h h' out j o d c returned =
        let (h1, paid, done) = served r id h h' out c returned in
        effect-allowance handle runtime law r id h1 h' out j o d done
        ∙ allowance_after_quiet handle runtime law r id h h1 j o d
            (prepay-IsQuiet handle runtime law r h h1 paid)
