-- ===== src/Erc20/Losses/Effects.antt =====
-- Who loses units by the effects of the requests to precompiles/assets-erc20/src/lib.rs.
use neuroweb.Prelude.{
  ℕ, ◌≡◌, ◌≤◌, ◌<◌, ◌&&◌, ◌≢◌, ◌∙◌, sym, subst, inl, inr, Bool, true, Bool-cases, List, nat_eq,
  nat_eq_iff, arith,
}
use neuroweb.Abi.Failure.{ok, and_then_inversion}
use neuroweb.Evm.{PrecompileHandle}
use neuroweb.Evm.Guards.{try_dispatch_iff}
use neuroweb.Erc20.{
  Assets, AssetsCall, cancel_approval_call, burn_call, mint_call, caller_account, record_db_read,
  dispatch,
}
use neuroweb.Erc20.Changes.{
  clear_approval, record_log, approve_spender, transferred, transfer_from_call,
}
use neuroweb.Erc20.Requests.{
  Request, get_balance, get_allowance, transfer_to, approve_for, transfer_between, mint_for,
  burn_from, increase_by, decrease_by, effect,
}
use neuroweb.Erc20.Ledger.{IsLedger}
use neuroweb.Erc20.Spending.Effects.{effect-covered}
use neuroweb.Erc20.Custody.{takes, amount_of, IsCustody, IsLoss, MayLose}

module _ {H AccountId : Type 0} (handle : PrecompileHandle H) (runtime : Assets H AccountId)
    (law : IsLedger handle runtime) (is_admin : ℕ → AccountId → H → Bool)
    (custody : IsCustody handle runtime is_admin) where
  taken_from :
      (j id : ℕ) (o a : AccountId)
      → (nat_eq j id && runtime.account_eq o a) ≡ true
      → (j ≡ id) × (o ≡ a)
  taken_from j id o a e = (ground (arith, nat_eq_iff j id), ground (arith, law.account_eq_iff o a))

  dispatch-IsLoss :
      (origin : AccountId) (call : AssetsCall AccountId) (h h' : H) (j : ℕ) (o : AccountId)
      → dispatch handle runtime origin call h ≡ ok h'
      → runtime.asset_balance j o h' < runtime.asset_balance j o h
      → (takes handle runtime origin call j o ≡ true)
        × IsLoss
            (amount_of handle runtime call)
            (runtime.asset_balance j o h)
            (runtime.asset_balance j o h')
  dispatch-IsLoss origin call h h' j o e less =
      let (enough, (h1, actual, done, paid)) =
        (try_dispatch_iff handle runtime.dispatcher origin call h h').0 e in
      let same = custody.charge_balance _ h1 h' j o paid in
      let loss = custody.limited origin call h h1 actual j o done in
      (
        elim (Bool-cases (takes handle runtime origin call j o)) [
          | inl here ↦ here
          | inr elsewhere ↦ ground (arith, custody.taken origin call h h1 actual j o done elsewhere)
        ],
        subst (λ n. IsLoss (amount_of handle runtime call) (runtime.asset_balance j o h) n)
            (sym same) loss,
      )

  clear_approval-keeps :
      (id : ℕ) (origin delegate : AccountId) (h h' : H) (j : ℕ) (o : AccountId)
      → clear_approval handle runtime id origin delegate h ≡ ok h'
      → runtime.asset_balance j o h ≤ runtime.asset_balance j o h'
  unfolding clear_approval
  clear_approval-keeps id origin delegate h h' j o e =
      elim (Bool-cases (nat_eq (runtime.asset_allowance id origin delegate h) 0)) [
        | inl clear ↦ ground arith
        | inr used ↦
            let there : dispatch handle runtime origin (cancel_approval_call id delegate) h
                ≡ ok h' =
              ground arith in
            ground (arith, dispatch-IsLoss origin (cancel_approval_call id delegate) h h' j o there)
      ]

  approve_spender-keeps :
      (id : ℕ) (spender : List ℕ) (amount : ℕ) (h h' : H) (out : List ℕ) (j : ℕ) (o : AccountId)
      → approve_spender handle runtime id spender amount h ≡ ok (out, h')
      → runtime.asset_balance j o h ≤ runtime.asset_balance j o h'
  unfolding approve_spender record_log
  approve_spender-keeps id spender amount h h' out j o e =
      let (h1, paid, e1) = and_then_inversion (record_db_read handle runtime h) _ _ e in
      let (h2, cleared, e2) = and_then_inversion _ _ _ e1 in
      let (h3, approved, e3) = and_then_inversion _ _ _ e2 in
      let (h4, noted, e4) = and_then_inversion _ _ _ e3 in
      let first = custody.charge_balance _ h h1 j o paid in
      let second = clear_approval-keeps id _ _ h1 h2 j o cleared in
      let third = dispatch-IsLoss _ _ h2 h3 j o approved in
      let fourth = custody.log_balance _ h3 h4 j o noted in
      ground (arith, first, second, third, fourth)

  transferred-keeps :
      (from to : List ℕ) (amount : ℕ) (h h' : H) (out : List ℕ) (j : ℕ) (o : AccountId)
      → transferred handle runtime from to amount h ≡ ok (out, h')
      → runtime.asset_balance j o h' ≡ runtime.asset_balance j o h
  unfolding record_log
  transferred-keeps from to amount h h' out j o e =
      let (h1, noted, e1) = and_then_inversion _ _ _ e in
      let same = custody.log_balance _ h h1 j o noted in ground arith

  transfer_to-MayLose :
      (to : List ℕ) (amount id : ℕ) (h h' : H) (out : List ℕ) (j : ℕ) (o : AccountId)
      → effect handle runtime (transfer_to to amount) id h ≡ ok (out, h')
      → runtime.asset_balance j o h' < runtime.asset_balance j o h
      → MayLose handle runtime is_admin
          (transfer_to to amount)
          id
          h
          j
          o
          (runtime.asset_balance j o h')
  unfolding MayLose
  transfer_to-MayLose to amount id h h' out j o e less =
      let (h1, sent, e1) = and_then_inversion _ _ _ e in
      let kept = transferred-keeps _ to amount h1 h' out j o e1 in
      let (here, loss) = dispatch-IsLoss _ _ h h1 j o sent (ground arith) in
      let (asset, account) = taken_from j id o (caller_account handle runtime h) here in
      (asset, account, ground arith)

  burn_from-MayLose :
      (who : List ℕ) (amount id : ℕ) (h h' : H) (out : List ℕ) (j : ℕ) (o : AccountId)
      → effect handle runtime (burn_from who amount) id h ≡ ok (out, h')
      → runtime.asset_balance j o h' < runtime.asset_balance j o h
      → MayLose handle runtime is_admin
          (burn_from who amount)
          id
          h
          j
          o
          (runtime.asset_balance j o h')
  unfolding MayLose
  burn_from-MayLose who amount id h h' out j o e less =
      let caller = caller_account handle runtime h in
      let call = burn_call id (runtime.into_account_id who h) amount in
      let (h1, sent, e1) = and_then_inversion (dispatch handle runtime caller call h) _ _ e in
      let (here, loss) = dispatch-IsLoss _ _ h h1 j o sent (ground arith) in
      let (enough, (h2, actual, done, paid)) =
        (try_dispatch_iff handle runtime.dispatcher caller call h h1).0 sent in
      let (asset, account) = taken_from j id o (runtime.into_account_id who h) here in
      (asset, account, custody.burns caller _ id amount h h2 actual done, ground arith)

  transfer_between-MayLose :
      (from to : List ℕ) (amount id : ℕ) (h h' : H) (out : List ℕ) (j : ℕ) (o : AccountId)
      → effect handle runtime (transfer_between from to amount) id h ≡ ok (out, h')
      → runtime.asset_balance j o h' < runtime.asset_balance j o h
      → MayLose handle runtime is_admin
          (transfer_between from to amount)
          id
          h
          j
          o
          (runtime.asset_balance j o h')
  unfolding MayLose transfer_from_call
  transfer_between-MayLose from to amount id h h' out j o e less =
      let caller = caller_account handle runtime h in
      let owner = runtime.into_account_id from h in
      let target = runtime.into_account_id to h in
      let (h1, sent, e1) =
        and_then_inversion
          (dispatch handle runtime caller
            (transfer_from_call handle runtime id caller owner target amount) h)
          _ _ e in
      let kept = transferred-keeps from to amount h1 h' out j o e1 in
      let (here, loss) = dispatch-IsLoss caller _ h h1 j o sent (ground arith) in
      elim (Bool-cases (runtime.account_eq caller owner)) [
        | inl own ↦
            let same : caller ≡ owner = (law.account_eq_iff caller owner).0 own in
            let (asset, account) = taken_from j id o caller (ground arith) in
            (asset, account ∙ same, inl account, ground arith)
        | inr other ↦
            let (asset, account) = taken_from j id o owner (ground arith) in
            let differs : caller ≢ owner =
              λ same. ground (arith, law.account_eq_iff caller owner) in
            let covered = effect-covered handle runtime law from to amount id h h' out e differs in
            (
              asset,
              account,
              inr (
                  subst (λ a. amount ≤ runtime.asset_allowance id a caller h) (sym account)
                    covered),
              ground arith,
            )
      ]

  pub effect-MayLose :
      (r : Request) (id : ℕ) (h h' : H) (out : List ℕ) (j : ℕ) (o : AccountId)
      → effect handle runtime r id h ≡ ok (out, h')
      → runtime.asset_balance j o h' < runtime.asset_balance j o h
      → MayLose handle runtime is_admin r id h j o (runtime.asset_balance j o h')
  unfolding MayLose
  effect-MayLose (get_balance owner) id h h' out j o e less = ground arith
  effect-MayLose (get_allowance owner spender) id h h' out j o e less = ground arith
  effect-MayLose (transfer_to to amount) id h h' out j o e less =
      transfer_to-MayLose to amount id h h' out j o e less
  effect-MayLose (approve_for spender amount) id h h' out j o e less =
      ground (arith, approve_spender-keeps id spender amount h h' out j o e)
  effect-MayLose (transfer_between from to amount) id h h' out j o e less =
      transfer_between-MayLose from to amount id h h' out j o e less
  effect-MayLose (mint_for beneficiary amount) id h h' out j o e less =
      let caller = caller_account handle runtime h in
      let call = mint_call id (runtime.into_account_id beneficiary h) amount in
      let (h1, sent, e1) = and_then_inversion (dispatch handle runtime caller call h) _ _ e in
      ground (arith, dispatch-IsLoss caller call h h1 j o sent)
  effect-MayLose (burn_from who amount) id h h' out j o e less =
      burn_from-MayLose who amount id h h' out j o e less
  effect-MayLose (increase_by spender added_value) id h h' out j o e less =
      ground (arith, approve_spender-keeps id spender _ h h' out j o e)
  effect-MayLose (decrease_by spender subtracted_value) id h h' out j o e less =
      ground (arith, approve_spender-keeps id spender _ h h' out j o e)
