-- ===== src/Erc20/Losses.antt =====
-- Who loses units of an asset by a call to precompiles/assets-erc20/src/lib.rs that succeeds.
mod Effects
use neuroweb.Prelude.{
  ℕ, ◌≡◌, ◌≤◌, ◌<◌, ◌⊎◌, ◌&&◌, refl, ◌≢◌, ◌∙◌, ap, sym, subst, inl, inr, Bool, true, false,
  Bool-cases, Option, some, List, nat_eq, nat_eq_iff, arith,
}
use neuroweb.Abi.Failure.{ok, and_then_inversion}
use neuroweb.Evm.{PrecompileHandle, record_log_costs_manual, log_costs}
use neuroweb.Evm.Guards.{try_dispatch_iff}
use neuroweb.Erc20.{
  Assets, AssetsCall, cancel_approval_call, approve_transfer_call, transfer_call, burn_call,
  mint_call, transfer_approved_call, caller_account, record_db_read, dispatch, saturate, Action,
}
use neuroweb.Erc20.Changes.{
  clear_approval, record_log, approve_spender, transferred, transfer_from_call,
}
use neuroweb.Erc20.Execute.{execute}
use neuroweb.Erc20.Requests.{
  Request, get_balance, get_allowance, transfer_to, approve_for, transfer_between, mint_for,
  burn_from, increase_by, decrease_by, prepay, effect, KeepsInput,
}
use neuroweb.Erc20.Ledger.{IsQuiet, IsLedger}
use neuroweb.Erc20.Spending.{IsCall, served}
use neuroweb.Erc20.Spending.Effects.{prepay-IsQuiet, caller_quiet, effect-covered}
use neuroweb.Erc20.Custody.{takes, amount_of, IsCustody, IsLoss, MayLose}
use neuroweb.Erc20.Losses.Effects.{effect-MayLose}

module _ {H AccountId : Type 0} (handle : PrecompileHandle H) (runtime : Assets H AccountId)
    (law : IsLedger handle runtime) (is_admin : ℕ → AccountId → H → Bool)
    (custody : IsCustody handle runtime is_admin) where
  pub prepay-charge :
      (r : Request) (h h' : H)
      → prepay handle runtime r h ≡ ok h'
      → ((n : ℕ) × (handle.record_cost n h ≡ ok h')) ⊎ (h' ≡ h)
  unfolding record_log_costs_manual log_costs
  prepay-charge (get_balance owner) h h' e = inl (_, e)
  prepay-charge (get_allowance owner spender) h h' e = inl (_, e)
  prepay-charge (transfer_to to amount) h h' e = inl (1756, e)
  prepay-charge (approve_for spender amount) h h' e = inl (1756, e)
  prepay-charge (transfer_between from to amount) h h' e = inl (1756, e)
  prepay-charge (mint_for beneficiary amount) h h' e = inr (ground arith)
  prepay-charge (burn_from who amount) h h' e = inr (ground arith)
  prepay-charge (increase_by spender added_value) h h' e = inl (_, e)
  prepay-charge (decrease_by spender subtracted_value) h h' e = inl (_, e)

  pub prepay-keeps :
      (r : Request) (h h' : H) (j : ℕ) (o : AccountId)
      → prepay handle runtime r h ≡ ok h'
      → (runtime.asset_balance j o h' ≡ runtime.asset_balance j o h)
        × (is_admin j o h' ≡ is_admin j o h)
  prepay-keeps r h h' j o e = elim (prepay-charge r h h' e) [
    | inl (n, paid) ↦ (custody.charge_balance n h h' j o paid, custody.charge_admin n h h' j o paid)
    | inr same ↦ (rw same refl, rw same refl)
  ]

  MayLose-before :
      (r : Request) (id : ℕ) (h h' : H) (j : ℕ) (o : AccountId) (after : ℕ)
      → IsQuiet handle runtime h h'
      → runtime.asset_balance j o h' ≡ runtime.asset_balance j o h
      → ((a : AccountId) → is_admin id a h' ≡ is_admin id a h)
      → MayLose handle runtime is_admin r id h' j o after
      → MayLose handle runtime is_admin r id h j o after
  unfolding MayLose
  MayLose-before (get_balance owner) id h h' j o after q same admin m = m
  MayLose-before (get_allowance owner spender) id h h' j o after q same admin m = m
  MayLose-before (transfer_to to amount) id h h' j o after q same admin (asset, account, loss) =
      let caller = caller_quiet handle runtime law h h' q in
      (asset, account ∙ caller, subst (λ n. IsLoss amount n after) same loss)
  MayLose-before (approve_for spender amount) id h h' j o after q same admin m = m
  MayLose-before (transfer_between from to amount) id h h' j o after q same admin m =
      let (asset, account, allowed, loss) = m in
      let caller = caller_quiet handle runtime law h h' q in
      (
        asset,
        account ∙ q.same_accounts from,
        elim allowed [
          | inl own ↦ inl (own ∙ caller)
          | inr covered ↦ inr (
              subst (λ n. amount ≤ n)
                (q.same_allowances id o (caller_account handle runtime h')
                  ∙ ap (λ a. runtime.asset_allowance id o a h) caller)
                covered)
        ],
        subst (λ n. IsLoss amount n after) same loss,
      )
  MayLose-before (mint_for beneficiary amount) id h h' j o after q same admin m = m
  MayLose-before (burn_from who amount) id h h' j o after q same admin m =
      let (asset, account, burns, loss) = m in
      let caller = caller_quiet handle runtime law h h' q in
      (
        asset,
        account ∙ q.same_accounts who,
        subst (λ a. is_admin id a h ≡ true) caller (sym (admin _) ∙ burns),
        subst (λ n. IsLoss amount n after) same loss,
      )
  MayLose-before (increase_by spender added_value) id h h' j o after q same admin m = m
  MayLose-before (decrease_by spender subtracted_value) id h h' j o after q same admin m = m

  -- A call that succeeds takes units only from the caller, by a transfer, from another account that
  -- had approved the amount for the caller, or, if the caller is the admin of the asset, from the
  -- account that it burns from; and no more than the amount, unless it is all that the account has.
  -- This is if the pallet, the gas meter and the log behave as documented, selectors are distinct,
  -- and charging gas leaves the input alone.
  pub execute-MayLose :
      (r : Request) (id : ℕ) (h h' : H) (out : List ℕ) (j : ℕ) (o : AccountId)
      → KeepsInput handle runtime
      → ((a b : Action) → runtime.selector_of a ≡ runtime.selector_of b → a ≡ b)
      → IsCall handle runtime law r id h
      → execute handle runtime h ≡ some (ok (out, h'))
      → runtime.asset_balance j o h' < runtime.asset_balance j o h
      → MayLose handle runtime is_admin r id h j o (runtime.asset_balance j o h')
  execute-MayLose r id h h' out j o keeps injective c returned less =
      let (h1, paid, done) = served handle runtime law keeps injective r id h h' out c returned in
      let same = (prepay-keeps r h h1 j o paid).0 in
      let lost =
        effect-MayLose handle runtime law is_admin custody r id h1 h' out j o done (ground arith) in
      MayLose-before r id h h1 j o (runtime.asset_balance j o h')
        (prepay-IsQuiet handle runtime law r h h1 paid) same
        (λ a. (prepay-keeps r h h1 id a paid).1) lost
