-- ===== src/Erc20/Spending/Effects.antt =====
-- The allowances after the effects of the requests to precompiles/assets-erc20/src/lib.rs.
use neuroweb.Prelude.{
  ℕ, ◌≢◌, ◌≤◌, ◌≡◌, ap, subst, ◌∙◌, inl, inr, Bool-cases, List, nat_eq, nat_eq_iff, if◌then◌else◌,
  arith,
}
use neuroweb.Abi.Failure.{ok, and_then_inversion}
use neuroweb.Evm.{PrecompileHandle, record_log_costs_manual, log_costs}
use neuroweb.Evm.Guards.{try_dispatch_iff}
use neuroweb.Erc20.{
  Assets, AssetsCall, cancel_approval_call, transfer_approved_call, caller_account, record_db_read,
  dispatch, saturate,
}
use neuroweb.Erc20.Changes.{
  clear_approval, record_log, approve_spender, transferred, transfer_from_call,
}
use neuroweb.Erc20.Requests.{
  Request, get_balance, get_allowance, transfer_to, approve_for, transfer_between, mint_for,
  burn_from, increase_by, decrease_by, prepay, effect,
}
use neuroweb.Erc20.Ledger.{touches, moved, IsQuiet, IsLedger, allowance_after}

module _ {H AccountId : Type 0} (handle : PrecompileHandle H) (runtime : Assets H AccountId)
    (law : IsLedger handle runtime) where
  dispatch-allowance :
      (origin : AccountId) (call : AssetsCall AccountId) (h h' : H) (j : ℕ) (o d : AccountId)
      → dispatch handle runtime origin call h ≡ ok h'
      → runtime.asset_allowance j o d h' ≡ moved handle runtime origin call h j o d
  dispatch-allowance origin call h h' j o d e =
      let (enough, (h1, actual, done, paid)) =
        (try_dispatch_iff handle runtime.dispatcher origin call h h').0 e in
      let quiet = law.charge _ h1 h' paid in
      cc (quiet.same_allowances j o d, law.moves origin call h h1 actual j o d done)

  clear_approval-allowance :
      (id : ℕ) (origin delegate : AccountId) (h h' : H) (j : ℕ) (o d : AccountId)
      → clear_approval handle runtime id origin delegate h ≡ ok h'
      → runtime.asset_allowance j o d h' ≡ (
          if touches handle runtime id origin delegate j o d
          then 0
          else runtime.asset_allowance j o d h)
  unfolding clear_approval
  clear_approval-allowance id origin delegate h h' j o d e =
      elim (Bool-cases (nat_eq (runtime.asset_allowance id origin delegate h) 0)) [
        | inl clear ↦
            ground
              (arith, nat_eq_iff j id, law.account_eq_iff o origin, law.account_eq_iff d delegate)
        | inr used ↦
            let there : dispatch handle runtime origin (cancel_approval_call id delegate) h
                ≡ ok h' =
              ground arith in
            dispatch-allowance origin (cancel_approval_call id delegate) h h' j o d there
      ]

  approve_spender-allowance :
      (id : ℕ) (spender : List ℕ) (amount : ℕ) (h h' : H) (out : List ℕ) (j : ℕ) (o d : AccountId)
      → approve_spender handle runtime id spender amount h ≡ ok (out, h')
      → runtime.asset_allowance j o d h' ≡ (
          if touches handle runtime id
            (caller_account handle runtime h)
            (runtime.into_account_id spender h)
            j
            o
            d
          then saturate amount
          else runtime.asset_allowance j o d h)
  unfolding approve_spender record_log
  approve_spender-allowance id spender amount h h' out j o d e =
      let (h1, paid, e1) = and_then_inversion (record_db_read handle runtime h) _ _ e in
      let (h2, cleared, e2) = and_then_inversion _ _ _ e1 in
      let (h3, approved, e3) = and_then_inversion _ _ _ e2 in
      let (h4, noted, e4) = and_then_inversion _ _ _ e3 in
      let first = (law.charge _ h h1 paid).same_allowances j o d in
      let second = clear_approval-allowance id _ _ h1 h2 j o d cleared in
      let third = dispatch-allowance _ _ h2 h3 j o d approved in
      let fourth = (law.logged _ h3 h4 noted).same_allowances j o d in
      ground (arith, first, second, third, fourth)

  transferred-allowance :
      (from to : List ℕ) (amount : ℕ) (h h' : H) (out : List ℕ) (j : ℕ) (o d : AccountId)
      → transferred handle runtime from to amount h ≡ ok (out, h')
      → runtime.asset_allowance j o d h' ≡ runtime.asset_allowance j o d h
  unfolding record_log
  transferred-allowance from to amount h h' out j o d e =
      let (h1, noted, e1) = and_then_inversion _ _ _ e in
      let same = (law.logged _ h h1 noted).same_allowances j o d in ground arith

  pub effect-allowance :
      (r : Request) (id : ℕ) (h h' : H) (out : List ℕ) (j : ℕ) (o d : AccountId)
      → effect handle runtime r id h ≡ ok (out, h')
      → runtime.asset_allowance j o d h' ≡ allowance_after handle runtime r id h j o d
  unfolding transfer_from_call
  effect-allowance (get_balance owner) id h h' out j o d e = ground arith
  effect-allowance (get_allowance owner spender) id h h' out j o d e = ground arith
  effect-allowance (transfer_to to amount) id h h' out j o d e =
      let (h1, sent, e1) = and_then_inversion _ _ _ e in
      let there = dispatch-allowance _ _ h h1 j o d sent in
      let kept = transferred-allowance _ to amount h1 h' out j o d e1 in ground arith
  effect-allowance (approve_for spender amount) id h h' out j o d e =
      approve_spender-allowance id spender amount h h' out j o d e
  effect-allowance (transfer_between from to amount) id h h' out j o d e =
      let (h1, sent, e1) = and_then_inversion _ _ _ e in
      let there = dispatch-allowance _ _ h h1 j o d sent in
      let kept = transferred-allowance _ to amount h1 h' out j o d e1 in ground arith
  effect-allowance (mint_for beneficiary amount) id h h' out j o d e =
      let (h1, sent, e1) = and_then_inversion _ _ _ e in
      let moved_there = dispatch-allowance _ _ h h1 j o d sent in ground arith
  effect-allowance (burn_from who amount) id h h' out j o d e =
      let (h1, sent, e1) = and_then_inversion _ _ _ e in
      let moved_there = dispatch-allowance _ _ h h1 j o d sent in ground arith
  effect-allowance (increase_by spender added_value) id h h' out j o d e =
      let set = approve_spender-allowance id spender _ h h' out j o d e in
      ground (
        arith,
        set,
        nat_eq_iff j id,
        law.account_eq_iff o (caller_account handle runtime h),
        law.account_eq_iff d (runtime.into_account_id spender h),
      )
  effect-allowance (decrease_by spender subtracted_value) id h h' out j o d e =
      let set = approve_spender-allowance id spender _ h h' out j o d e in
      ground (
        arith,
        set,
        nat_eq_iff j id,
        law.account_eq_iff o (caller_account handle runtime h),
        law.account_eq_iff d (runtime.into_account_id spender h),
        law.bounded j o d h,
      )

  still_quiet : (h h' : H) → ok h ≡ ok h' → IsQuiet handle runtime h h'
  still_quiet h h' e = record {
    same_caller = ground arith;
    same_accounts = λ a. ground arith;
    same_allowances = λ j o d. ground arith;
  }

  pub prepay-IsQuiet :
      (r : Request) (h h' : H) → prepay handle runtime r h ≡ ok h' → IsQuiet handle runtime h h'
  unfolding record_log_costs_manual log_costs
  prepay-IsQuiet (get_balance owner) h h' e = law.charge _ h h' e
  prepay-IsQuiet (get_allowance owner spender) h h' e = law.charge _ h h' e
  prepay-IsQuiet (transfer_to to amount) h h' e = law.charge 1756 h h' e
  prepay-IsQuiet (approve_for spender amount) h h' e = law.charge 1756 h h' e
  prepay-IsQuiet (transfer_between from to amount) h h' e = law.charge 1756 h h' e
  prepay-IsQuiet (mint_for beneficiary amount) h h' e = still_quiet h h' e
  prepay-IsQuiet (burn_from who amount) h h' e = still_quiet h h' e
  prepay-IsQuiet (increase_by spender added_value) h h' e = law.charge _ h h' e
  prepay-IsQuiet (decrease_by spender subtracted_value) h h' e = law.charge _ h h' e

  pub caller_quiet :
      (h h' : H)
      → IsQuiet handle runtime h h'
      → caller_account handle runtime h' ≡ caller_account handle runtime h
  caller_quiet h h' q =
      ap (λ a. runtime.into_account_id a h') q.same_caller ∙ q.same_accounts (handle.caller h)

  pub allowance_after_quiet :
      (r : Request) (id : ℕ) (h h' : H) (j : ℕ) (o d : AccountId)
      → IsQuiet handle runtime h h'
      → allowance_after handle runtime r id h' j o d ≡ allowance_after handle runtime r id h j o d
  allowance_after_quiet (get_balance owner) id h h' j o d q = q.same_allowances j o d
  allowance_after_quiet (get_allowance owner spender) id h h' j o d q = q.same_allowances j o d
  allowance_after_quiet (transfer_to to amount) id h h' j o d q = q.same_allowances j o d
  allowance_after_quiet (approve_for spender amount) id h h' j o d q =
      rw (caller_quiet h h' q, q.same_accounts spender, q.same_allowances j o d)
  allowance_after_quiet (transfer_between from to amount) id h h' j o d q =
      rw (caller_quiet h h' q, q.same_accounts from, q.same_allowances j o d)
  allowance_after_quiet (mint_for beneficiary amount) id h h' j o d q = q.same_allowances j o d
  allowance_after_quiet (burn_from who amount) id h h' j o d q = q.same_allowances j o d
  allowance_after_quiet (increase_by spender added_value) id h h' j o d q =
      rw (caller_quiet h h' q, q.same_accounts spender, q.same_allowances j o d)
  allowance_after_quiet (decrease_by spender subtracted_value) id h h' j o d q =
      rw (caller_quiet h h' q, q.same_accounts spender, q.same_allowances j o d)

  pub effect-covered :
      (from to : List ℕ) (amount id : ℕ) (h h' : H) (out : List ℕ)
      → effect handle runtime (transfer_between from to amount) id h ≡ ok (out, h')
      → caller_account handle runtime h ≢ runtime.into_account_id from h
      → amount
        ≤ runtime.asset_allowance id
            (runtime.into_account_id from h)
            (caller_account handle runtime h)
            h
  unfolding transfer_from_call
  effect-covered from to amount id h h' out e other =
      let caller = caller_account handle runtime h in
      let owner = runtime.into_account_id from h in
      let target = runtime.into_account_id to h in
      let call = transfer_approved_call id owner target amount in
      let spends : transfer_from_call handle runtime id caller owner target amount ≡ call =
        ground (arith, law.account_eq_iff caller owner) in
      let (h1, sent, e1) =
        and_then_inversion
          (dispatch handle runtime caller
            (transfer_from_call handle runtime id caller owner target amount) h)
          _ _ e in
      let sent_there : dispatch handle runtime caller call h ≡ ok h1 =
        subst (λ c. dispatch handle runtime caller c h ≡ ok h1) spends sent in
      let (enough, (h2, actual, done, paid)) =
        (try_dispatch_iff handle runtime.dispatcher caller call h h1).0 sent_there in
      law.covered caller owner target id amount h h2 actual done
