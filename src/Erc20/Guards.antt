-- ===== src/Erc20/Guards.antt =====
-- When `execute` of precompiles/assets-erc20/src/lib.rs runs an action, and which one.
use neuroweb.Prelude.{
  ℕ, ◌<◌, ◌^◌, ◌≡◌, ◌↔◌, refl, inl, inr, false, Option-cases, some, arith, ltb, if◌then◌else◌, not,
  ◌&&◌,
}
use neuroweb.Abi.Failure.{ok, err, and_then, revert}
use neuroweb.Abi.Reader.{read_selector}
use neuroweb.Evm.{PrecompileHandle, is_view, is_payable, check_function_modifier}
use neuroweb.Erc20.{
  Action, total_supply, balance_of, allowance, transfer, approve, transfer_from, name, symbol,
  decimals, minimum_balance, mint, burn, increase_allowance, decrease_allowance, actions, action_in,
  Assets, Output,
}
use neuroweb.Erc20.Execute.{modifier_of, run_action, execute_asset, execute, is_precompile}
use neuroweb.Erc20.Requests.{
  Request, action_of, encode_request, RequestOk, prepay, effect, KeepsInput,
}
use neuroweb.Erc20.Selectors.{action_in_lem, listed}
use neuroweb.Erc20.Refinement.{Parses, Performs, run_action-request, read_selector-request}

pub not_payable : (a : Action) → is_payable (modifier_of a) ≡ false
unfolding modifier_of
not_payable total_supply = refl
not_payable balance_of = refl
not_payable allowance = refl
not_payable transfer = refl
not_payable approve = refl
not_payable transfer_from = refl
not_payable name = refl
not_payable symbol = refl
not_payable decimals = refl
not_payable minimum_balance = refl
not_payable mint = refl
not_payable burn = refl
not_payable increase_allowance = refl
not_payable decrease_allowance = refl

module _ {H AccountId : Type 0} (handle : PrecompileHandle H) (runtime : Assets H AccountId) where
  -- An action whose selector was read reverts in a static context if it changes the asset, and
  -- reverts if it is sent value; otherwise it runs.
  pub execute_asset-guards :
      (a : Action) (id : ℕ) (h : H)
      → read_selector (action_in runtime.selector_of actions) (handle.input h) ≡ ok a
      → execute_asset handle runtime id h ≡ (
          if handle.is_static h && not (is_view (modifier_of a))
          then err (revert "can't call non-static function in static context")
          else if ltb 0 (handle.apparent_value h)
          then err (revert "function is not payable")
          else run_action handle runtime a id h)
  unfolding execute_asset check_function_modifier
  execute_asset-guards a id h selected = ground (arith, not_payable a)

  -- The precompile answers exactly at the addresses of assets that exist.
  pub execute_iff :
      (h : H)
      → ((out : Output H) × (execute handle runtime h ≡ some out)) ↔ (
          (id : ℕ) × (runtime.address_to_asset_id (handle.code_address h) ≡ some id)
          × ((n : ℕ) × (runtime.maybe_total_supply id h ≡ some n)))
  unfolding execute
  execute_iff h = (
    λ (out, e). elim (Option-cases (runtime.address_to_asset_id (handle.code_address h))) [
      | inl none_here ↦ ground arith
      | inr (id, ha) ↦ elim (Option-cases (runtime.maybe_total_supply id h)) [
        | inl no_asset ↦ ground arith
        | inr (n, hs) ↦ (id, ha, (n, hs))
      ]
    ],
    λ (id, ha, (n, hs)). (execute_asset handle runtime id h, ground arith),
  )

  -- At an asset without supply the precompile runs although it denies to be one.
  pub execute-no_supply :
      (id : ℕ) (h : H)
      → runtime.address_to_asset_id (handle.code_address h) ≡ some id
      → runtime.maybe_total_supply id h ≡ some 0
      → (is_precompile handle runtime (handle.code_address h) h ≡ false)
        × (execute handle runtime h ≡ some (execute_asset handle runtime id h))
  unfolding execute is_precompile
  execute-no_supply id h ha hs = ground arith

  -- A call that encodes a request with arguments in range, to an existing asset, without value, and
  -- not static if it changes the asset, charges its cost and then has the effect that it names on
  -- the arguments that it carries, if selectors are distinct and have 32 bits, and if charging gas
  -- leaves the input alone.
  pub execute-request :
      (r : Request) (id supply : ℕ) (h : H)
      → KeepsInput handle runtime
      → ((a b : Action) → runtime.selector_of a ≡ runtime.selector_of b → a ≡ b)
      → runtime.selector_of (action_of r) < 2 ^ 32
      → RequestOk r
      → handle.input h ≡ encode_request runtime.selector_of r
      → runtime.address_to_asset_id (handle.code_address h) ≡ some id
      → runtime.maybe_total_supply id h ≡ some supply
      → (handle.is_static h && not (is_view (modifier_of (action_of r)))) ≡ false
      → handle.apparent_value h ≡ 0
      → execute handle runtime h
        ≡ some (and_then (prepay handle runtime r h) (effect handle runtime r id))
  unfolding execute Parses Performs
  execute-request r id supply h keeps injective small valid e ha hs static value =
      let a = action_of r in
      let p : Parses handle runtime keeps r h = (small, valid, e) in
      let found = action_in_lem runtime.selector_of actions a injective (listed a) in
      let selected : read_selector (action_in runtime.selector_of actions) (handle.input h) ≡ ok a =
        rw (read_selector-request handle runtime keeps r h _ p, found) in
      let guarded = execute_asset-guards a id h selected in
      let ran = run_action-request handle runtime keeps r id h p in ground (arith, guarded, ran)
