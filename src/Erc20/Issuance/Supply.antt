-- ===== src/Erc20/Issuance/Supply.antt =====
-- How calls to precompiles/assets-erc20/src/lib.rs that succeed change the supply of an asset.
use neuroweb.Prelude.{ℕ, ◌+◌, ◌≡◌, refl, inl, inr, Bool, Bool-cases, some, List, nat_eq, arith}
use neuroweb.Abi.Failure.{ok, and_then_inversion}
use neuroweb.Evm.{PrecompileHandle}
use neuroweb.Evm.Guards.{try_dispatch_iff}
use neuroweb.Erc20.{
  Assets, AssetsCall, cancel_approval_call, approve_transfer_call, transfer_call, burn_call,
  mint_call, transfer_approved_call, caller_account, record_db_read, dispatch, Action,
}
use neuroweb.Erc20.Changes.{
  clear_approval, record_log, approve_spender, transferred, transfer_from_call,
}
use neuroweb.Erc20.Execute.{execute}
use neuroweb.Erc20.Requests.{
  Request, get_balance, get_allowance, transfer_to, approve_for, transfer_between, mint_for,
  burn_from, increase_by, decrease_by, prepay, effect, KeepsInput,
}
use neuroweb.Erc20.Ledger.{IsQuiet, IsLedger}
use neuroweb.Erc20.Spending.{IsCall, served}
use neuroweb.Erc20.Spending.Effects.{prepay-IsQuiet}
use neuroweb.Erc20.Custody.{IsCustody}
use neuroweb.Erc20.Losses.{prepay-charge, prepay-keeps}
use neuroweb.Erc20.Issuance.{supply, issued, destroyed, IsIssuance, minted, burned}

module _ {H AccountId : Type 0} (handle : PrecompileHandle H) (runtime : Assets H AccountId)
    (law : IsLedger handle runtime) (is_admin : ℕ → AccountId → H → Bool)
    (custody : IsCustody handle runtime is_admin) (issuance : IsIssuance handle runtime) where
  destroyed_same :
      (call : AssetsCall AccountId) (j : ℕ) (h h1 h' : H)
      → ((o : AccountId) → runtime.asset_balance j o h' ≡ runtime.asset_balance j o h1)
      → destroyed handle runtime call j h h' ≡ destroyed handle runtime call j h h1
  destroyed_same (burn_call id who amount) j h h1 h' same = rw (same who) refl
  destroyed_same (mint_call id beneficiary amount) j h h1 h' same = refl
  destroyed_same (cancel_approval_call id delegate) j h h1 h' same = refl
  destroyed_same (approve_transfer_call id delegate amount) j h h1 h' same = refl
  destroyed_same (transfer_call id target amount) j h h1 h' same = refl
  destroyed_same (transfer_approved_call id owner destination amount) j h h1 h' same = refl

  dispatch_supply :
      (origin : AccountId) (call : AssetsCall AccountId) (h h' : H) (j : ℕ)
      → dispatch handle runtime origin call h ≡ ok h'
      → supply handle runtime j h' + destroyed handle runtime call j h h'
        ≡ supply handle runtime j h + issued handle runtime call j
  dispatch_supply origin call h h' j e =
      let (enough, (h1, actual, done, paid)) =
        (try_dispatch_iff handle runtime.dispatcher origin call h h').0 e in
      let same = destroyed_same call j h h1 h' (λ o. custody.charge_balance _ h1 h' j o paid) in
      rw (issuance.charge_supply _ h1 h' j paid, same)
        (issuance.moves_supply origin call h h1 actual j done)

  clear_approval_supply :
      (id : ℕ) (origin delegate : AccountId) (h h' : H) (j : ℕ)
      → clear_approval handle runtime id origin delegate h ≡ ok h'
      → supply handle runtime j h' ≡ supply handle runtime j h
  unfolding clear_approval
  clear_approval_supply id origin delegate h h' j e =
      elim (Bool-cases (nat_eq (runtime.asset_allowance id origin delegate h) 0)) [
        | inl clear ↦ ground arith
        | inr used ↦
            let there : dispatch handle runtime origin (cancel_approval_call id delegate) h
                ≡ ok h' =
              ground arith in
            ground (arith, dispatch_supply origin (cancel_approval_call id delegate) h h' j there)
      ]

  approve_spender_supply :
      (id : ℕ) (spender : List ℕ) (amount : ℕ) (h h' : H) (out : List ℕ) (j : ℕ)
      → approve_spender handle runtime id spender amount h ≡ ok (out, h')
      → supply handle runtime j h' ≡ supply handle runtime j h
  unfolding approve_spender record_log
  approve_spender_supply id spender amount h h' out j e =
      let (h1, paid, e1) = and_then_inversion (record_db_read handle runtime h) _ _ e in
      let (h2, cleared, e2) = and_then_inversion _ _ _ e1 in
      let (h3, approved, e3) = and_then_inversion _ _ _ e2 in
      let (h4, noted, e4) = and_then_inversion _ _ _ e3 in
      let first = issuance.charge_supply _ h h1 j paid in
      let second = clear_approval_supply id _ _ h1 h2 j cleared in
      let third = dispatch_supply _ _ h2 h3 j approved in
      let fourth = issuance.log_supply _ h3 h4 j noted in
      ground (arith, first, second, third, fourth)

  transferred_supply :
      (from to : List ℕ) (amount : ℕ) (h h' : H) (out : List ℕ) (j : ℕ)
      → transferred handle runtime from to amount h ≡ ok (out, h')
      → supply handle runtime j h' ≡ supply handle runtime j h
  unfolding record_log
  transferred_supply from to amount h h' out j e =
      let (h1, noted, e1) = and_then_inversion _ _ _ e in
      let same = issuance.log_supply _ h h1 j noted in ground arith

  effect_supply :
      (r : Request) (id : ℕ) (h h' : H) (out : List ℕ) (j : ℕ)
      → effect handle runtime r id h ≡ ok (out, h')
      → supply handle runtime j h' + burned handle runtime r id j h h'
        ≡ supply handle runtime j h + minted handle runtime r id j
  unfolding transfer_from_call
  effect_supply (get_balance owner) id h h' out j e = ground arith
  effect_supply (get_allowance owner spender) id h h' out j e = ground arith
  effect_supply (transfer_to to amount) id h h' out j e =
      let (h1, sent, e1) = and_then_inversion _ _ _ e in
      let there = dispatch_supply _ _ h h1 j sent in
      let kept = transferred_supply _ to amount h1 h' out j e1 in ground arith
  effect_supply (approve_for spender amount) id h h' out j e =
      ground (arith, approve_spender_supply id spender amount h h' out j e)
  effect_supply (transfer_between from to amount) id h h' out j e =
      let (h1, sent, e1) = and_then_inversion _ _ _ e in
      let there = dispatch_supply _ _ h h1 j sent in
      let kept = transferred_supply _ to amount h1 h' out j e1 in ground arith
  effect_supply (mint_for beneficiary amount) id h h' out j e =
      let caller = caller_account handle runtime h in
      let call = mint_call id (runtime.into_account_id beneficiary h) amount in
      let (h1, sent, e1) = and_then_inversion (dispatch handle runtime caller call h) _ _ e in
      ground (arith, dispatch_supply caller call h h1 j sent)
  effect_supply (burn_from who amount) id h h' out j e =
      let caller = caller_account handle runtime h in
      let call = burn_call id (runtime.into_account_id who h) amount in
      let (h1, sent, e1) = and_then_inversion (dispatch handle runtime caller call h) _ _ e in
      ground (arith, dispatch_supply caller call h h1 j sent)
  effect_supply (increase_by spender added_value) id h h' out j e =
      ground (arith, approve_spender_supply id spender _ h h' out j e)
  effect_supply (decrease_by spender subtracted_value) id h h' out j e =
      ground (arith, approve_spender_supply id spender _ h h' out j e)

  prepay_supply :
      (r : Request) (h h' : H) (j : ℕ)
      → prepay handle runtime r h ≡ ok h'
      → supply handle runtime j h' ≡ supply handle runtime j h
  prepay_supply r h h' j e = elim (prepay-charge handle runtime law is_admin custody r h h' e) [
    | inl (n, paid) ↦ issuance.charge_supply n h h' j paid
    | inr same ↦ rw same refl
  ]

  burned_before :
      (r : Request) (id : ℕ) (h h1 h' : H) (j : ℕ)
      → IsQuiet handle runtime h h1
      → ((o : AccountId) → runtime.asset_balance j o h1 ≡ runtime.asset_balance j o h)
      → burned handle runtime r id j h1 h' ≡ burned handle runtime r id j h h'
  burned_before (burn_from who amount) id h h1 h' j q same =
      rw (q.same_accounts who, same (runtime.into_account_id who h)) refl
  burned_before (get_balance owner) id h h1 h' j q same = refl
  burned_before (get_allowance owner spender) id h h1 h' j q same = refl
  burned_before (transfer_to to amount) id h h1 h' j q same = refl
  burned_before (approve_for spender amount) id h h1 h' j q same = refl
  burned_before (transfer_between from to amount) id h h1 h' j q same = refl
  burned_before (mint_for beneficiary amount) id h h1 h' j q same = refl
  burned_before (increase_by spender added_value) id h h1 h' j q same = refl
  burned_before (decrease_by spender subtracted_value) id h h1 h' j q same = refl

  -- A call that succeeds leaves the supply of every asset as it was, but that a mint adds its
  -- amount and a burn takes what the account loses, if the pallet, the gas meter and the log behave
  -- as documented, selectors are distinct, and charging gas leaves the input alone.
  pub execute_supply :
      (r : Request) (id : ℕ) (h h' : H) (out : List ℕ) (j : ℕ)
      → KeepsInput handle runtime
      → ((a b : Action) → runtime.selector_of a ≡ runtime.selector_of b → a ≡ b)
      → IsCall handle runtime law r id h
      → execute handle runtime h ≡ some (ok (out, h'))
      → supply handle runtime j h' + burned handle runtime r id j h h'
        ≡ supply handle runtime j h + minted handle runtime r id j
  execute_supply r id h h' out j keeps injective c returned =
      let (h1, paid, done) = served handle runtime law keeps injective r id h h' out c returned in
      let quiet = prepay-IsQuiet handle runtime law r h h1 paid in
      let same =
        burned_before r id h h1 h' j quiet
          (λ o. (prepay-keeps handle runtime law is_admin custody r h h1 j o paid).0) in
      ground (arith, effect_supply r id h1 h' out j done, prepay_supply r h h1 j paid, same)
