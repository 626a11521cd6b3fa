-- ===== src/Erc20/Static.antt =====
-- What calls to precompiles/assets-erc20/src/lib.rs in a static context, and with value, can do.
use neuroweb.Prelude.{
  ℕ, ◌≡◌, ap, ◌∙◌, ◌⊎◌, inl, inr, true, false, Bool-cases, Option-cases, some, List, arith,
}
use neuroweb.Abi.Failure.{ok, EvmResult, and_then_inversion}
use neuroweb.Abi.Reader.{read_selector}
use neuroweb.Abi.Types.{address, field, last}
use neuroweb.Evm.{read_arguments, PrecompileHandle, is_view, check_function_modifier}
use neuroweb.Erc20.{
  Action, total_supply, balance_of, allowance, transfer, approve, transfer_from, name, symbol,
  decimals, minimum_balance, mint, burn, increase_allowance, decrease_allowance, actions, action_in,
  Assets, record_db_read, total_supply_output, balance_of_output, allowance_output, name_output,
  symbol_output, decimals_output, minimum_balance_output,
}
use neuroweb.Erc20.Execute.{modifier_of, run_action, execute_asset, execute}
use neuroweb.Erc20.Guards.{not_payable}

module _ {H AccountId X : Type 0} (handle : PrecompileHandle H) (runtime : Assets H AccountId)
    (seen : H → X)
    (charge : (n : ℕ) (h h' : H) → handle.record_cost n h ≡ ok h' → seen h' ≡ seen h) where
  seen_after :
      (n : ℕ) (h h1 h' : H) (out out' : List ℕ)
      → handle.record_cost n h ≡ ok h1
      → Path (EvmResult (List ℕ × H)) (ok (out', h1)) (ok (out, h'))
      → seen h' ≡ seen h
  seen_after n h h1 h' out out' paid e =
      let same : h' ≡ h1 = ground arith in ap seen same ∙ charge n h h1 paid

  run_action-seen :
      (a : Action) (id : ℕ) (h h' : H) (out : List ℕ)
      → is_view (modifier_of a) ≡ true
      → run_action handle runtime a id h ≡ ok (out, h')
      → seen h' ≡ seen h
  unfolding modifier_of run_action total_supply_output balance_of_output allowance_output
      name_output symbol_output decimals_output minimum_balance_output
  run_action-seen total_supply id h h' out v e =
      let (h1, paid, e1) = and_then_inversion (record_db_read handle runtime h) _ _ e in
      seen_after _ h h1 h' out _ paid e1
  run_action-seen balance_of id h h' out v e =
      let (h1, paid, e1) = and_then_inversion (record_db_read handle runtime h) _ _ e in
      let (owner, decoded, e2) =
        and_then_inversion (read_arguments handle 1 (last address) h1) _ _ e1 in
      seen_after _ h h1 h' out _ paid e2
  run_action-seen allowance id h h' out v e =
      let (h1, paid, e1) = and_then_inversion (record_db_read handle runtime h) _ _ e in
      let (arguments, decoded, e2) =
        and_then_inversion (read_arguments handle 2 (field address (last address)) h1) _ _ e1 in
      seen_after _ h h1 h' out _ paid e2
  run_action-seen transfer id h h' out v e = ground arith
  run_action-seen approve id h h' out v e = ground arith
  run_action-seen transfer_from id h h' out v e = ground arith
  run_action-seen name id h h' out v e =
      let (h1, paid, e1) = and_then_inversion (record_db_read handle runtime h) _ _ e in
      seen_after _ h h1 h' out _ paid e1
  run_action-seen symbol id h h' out v e =
      let (h1, paid, e1) = and_then_inversion (record_db_read handle runtime h) _ _ e in
      seen_after _ h h1 h' out _ paid e1
  run_action-seen decimals id h h' out v e =
      let (h1, paid, e1) = and_then_inversion (record_db_read handle runtime h) _ _ e in
      seen_after _ h h1 h' out _ paid e1
  run_action-seen minimum_balance id h h' out v e =
      let (h1, paid, e1) = and_then_inversion (record_db_read handle runtime h) _ _ e in
      seen_after _ h h1 h' out _ paid e1
  run_action-seen mint id h h' out v e = ground arith
  run_action-seen burn id h h' out v e = ground arith
  run_action-seen increase_allowance id h h' out v e = ground arith
  run_action-seen decrease_allowance id h h' out v e = ground arith

  execute_asset-static :
      (id : ℕ) (h h' : H) (out : List ℕ)
      → execute_asset handle runtime id h ≡ ok (out, h')
      → (handle.apparent_value h ≡ 0) × ((handle.is_static h ≡ false) ⊎ (seen h' ≡ seen h))
  unfolding execute_asset check_function_modifier
  execute_asset-static id h h' out e =
      let (a, selected, e1) =
        and_then_inversion (read_selector (action_in runtime.selector_of actions) (handle.input h))
          _ _ e in
      let (u, allowed, e2) =
        and_then_inversion (check_function_modifier handle (modifier_of a) h) _ _ e1 in
      (
        ground (arith, not_payable a),
        elim (Bool-cases (handle.is_static h)) [
          | inl static ↦ inr (run_action-seen a id h h' out (ground arith) e2)
          | inr not_static ↦ inl not_static
        ],
      )

  -- A call that succeeds was sent no value, and, unless its context is not static, leaves alone all
  -- of the state that charging gas leaves alone.
  pub execute-static :
      (h h' : H) (out : List ℕ)
      → execute handle runtime h ≡ some (ok (out, h'))
      → (handle.apparent_value h ≡ 0) × ((handle.is_static h ≡ false) ⊎ (seen h' ≡ seen h))
  unfolding execute
  execute-static h h' out e =
      elim (Option-cases (runtime.address_to_asset_id (handle.code_address h))) [
        | inl no_id ↦ ground arith
        | inr (id, ha) ↦ elim (Option-cases (runtime.maybe_total_supply id h)) [
          | inl no_asset ↦ ground arith
          | inr (n, hs) ↦ execute_asset-static id h h' out (ground arith)
        ]
      ]
