-- ===== src/Erc20/Refinement.antt =====
-- The refinement of the promise in Erc20.Requests by `execute` of precompiles/assets-erc20/src/lib.rs.
use neuroweb.Prelude.{ℕ, ◌<◌, ◌^◌, ◌≡◌, refl, ◌∙◌, Option, List, arith}
use neuroweb.Abi.Failure.{EvmResult, ok, err, and_then, ok_or, revert}
use neuroweb.Abi.Reader.{read_selector}
use neuroweb.Abi.Types.{address, last}
use neuroweb.Evm.{PrecompileHandle, record_log_costs_manual, log_costs, read_arguments}
use neuroweb.Erc20.{
  Action, balance_of, allowance, transfer, approve, transfer_from, mint, burn, increase_allowance,
  decrease_allowance, Assets, record_db_read, balance_of_output, allowance_output,
}
use neuroweb.Erc20.Changes.{
  approve_output, increase_allowance_output, decrease_allowance_output, transfer_output,
  transfer_from_output, mint_output, burn_output,
}
use neuroweb.Erc20.Execute.{run_action}
use neuroweb.Erc20.Decoding.{
  addresses, address_u256, address_u128, address_address_u128, address-Parsed, addresses-Parsed,
  address_u256-Parsed, address_u128-Parsed, address_address_u128-Parsed,
}
use neuroweb.Erc20.Requests.{
  Request, get_balance, get_allowance, transfer_to, approve_for, transfer_between, mint_for,
  burn_from, increase_by, decrease_by, action_of, encode_request, RequestOk, prepay, effect,
  KeepsInput,
}

pub prepaid {ℓ κ μ} :
    {H : Type ℓ} {A : Type κ} {B : Type μ} (m : EvmResult H) (p : H → EvmResult A) (a : A)
    (k : A → H → EvmResult B)
    → ((h : H) → m ≡ ok h → p h ≡ ok a)
    → and_then m (λ h. and_then (p h) (λ x. k x h)) ≡ and_then m (k a)
prepaid (ok h) p a k parsed = rw (parsed h refl)
prepaid (err e) p a k parsed = refl

module _ {H AccountId : Type 0} (handle : PrecompileHandle H) (runtime : Assets H AccountId)
    (keeps : KeepsInput handle runtime) where
  pub log_costs-input :
      (h h' : H) → record_log_costs_manual handle 3 32 h ≡ ok h' → handle.input h' ≡ handle.input h
  unfolding record_log_costs_manual log_costs
  log_costs-input h h' e = keeps 1756 h h' e

  input-db_read :
      (h h' : H) → record_db_read handle runtime h ≡ ok h' → handle.input h' ≡ handle.input h
  input-db_read h h' e = keeps _ h h' e

  pub input-free : (h h' : H) → ok h ≡ ok h' → handle.input h' ≡ handle.input h
  input-free h h' e = ground arith

  -- What both sides of the refinement say of one request.
  unfoldable pub Parses : Request → H → Type 0
  Parses r h =
      (runtime.selector_of (action_of r) < 2 ^ 32)
      × RequestOk r
      × (handle.input h ≡ encode_request runtime.selector_of r)

  unfoldable pub Performs : Request → ℕ → H → Type 0
  Performs r id h =
      run_action handle runtime (action_of r) id h
      ≡ and_then (prepay handle runtime r h) (effect handle runtime r id)

  get_balance-Performs :
      (owner : List ℕ) (id : ℕ) (h : H)
      → Parses (get_balance owner) h
      → Performs (get_balance owner) id h
  unfolding Parses Performs run_action balance_of_output
  get_balance-Performs owner id h (small, ok_a, e) =
      prepaid (record_db_read handle runtime h) (read_arguments handle 1 (last address)) owner
        (λ owner h. effect handle runtime (get_balance owner) id h)
        (λ h' paid.
          (address-Parsed handle (runtime.selector_of balance_of) owner h' ok_a small
            (input-db_read h h' paid ∙ e)).1)

  get_allowance-Performs :
      (owner spender : List ℕ) (id : ℕ) (h : H)
      → Parses (get_allowance owner spender) h
      → Performs (get_allowance owner spender) id h
  unfolding Parses Performs run_action allowance_output
  get_allowance-Performs owner spender id h (small, (ok_a, ok_b), e) =
      prepaid (record_db_read handle runtime h) (read_arguments handle 2 addresses) (owner, spender)
        (λ (owner, spender) h. effect handle runtime (get_allowance owner spender) id h)
        (λ h' paid.
          (addresses-Parsed handle (runtime.selector_of allowance) owner spender h' ok_a ok_b small
            (input-db_read h h' paid ∙ e)).1)

  transfer_to-Performs :
      (to : List ℕ) (amount : ℕ) (id : ℕ) (h : H)
      → Parses (transfer_to to amount) h
      → Performs (transfer_to to amount) id h
  unfolding Parses Performs run_action transfer_output
  transfer_to-Performs to amount id h (small, (ok_a, ok_b), e) =
      prepaid (record_log_costs_manual handle 3 32 h) (read_arguments handle 2 address_u128)
        (to, amount) (λ (to, amount) h. effect handle runtime (transfer_to to amount) id h)
        (λ h' paid.
          (address_u128-Parsed handle (runtime.selector_of transfer) to amount h' ok_a ok_b small
            (log_costs-input h h' paid ∙ e)).1)

  approve_for-Performs :
      (spender : List ℕ) (amount : ℕ) (id : ℕ) (h : H)
      → Parses (approve_for spender amount) h
      → Performs (approve_for spender amount) id h
  unfolding Parses Performs run_action approve_output
  approve_for-Performs spender amount id h (small, (ok_a, ok_b), e) =
      prepaid (record_log_costs_manual handle 3 32 h) (read_arguments handle 2 address_u256)
        (spender, amount)
        (λ (spender, amount) h. effect handle runtime (approve_for spender amount) id h)
        (λ h' paid.
          (address_u256-Parsed handle (runtime.selector_of approve) spender amount h' ok_a ok_b
            small (log_costs-input h h' paid ∙ e)).1)

  transfer_between-Performs :
      (from to : List ℕ) (amount : ℕ) (id : ℕ) (h : H)
      → Parses (transfer_between from to amount) h
      → Performs (transfer_between from to amount) id h
  unfolding Parses Performs run_action transfer_from_output
  transfer_between-Performs from to amount id h (small, (ok_a, ok_b, ok_n), e) =
      prepaid (record_log_costs_manual handle 3 32 h) (read_arguments handle 3 address_address_u128)
        (from, (to, amount))
        (λ (from, (to, amount)) h. effect handle runtime (transfer_between from to amount) id h)
        (λ h' paid.
          (address_address_u128-Parsed handle (runtime.selector_of transfer_from) from to amount h'
            ok_a ok_b ok_n small (log_costs-input h h' paid ∙ e)).1)

  mint_for-Performs :
      (beneficiary : List ℕ) (amount : ℕ) (id : ℕ) (h : H)
      → Parses (mint_for beneficiary amount) h
      → Performs (mint_for beneficiary amount) id h
  unfolding Parses Performs run_action mint_output
  mint_for-Performs beneficiary amount id h (small, (ok_a, ok_b), e) =
      prepaid (ok h) (read_arguments handle 2 address_u128) (beneficiary, amount)
        (λ (beneficiary, amount) h. effect handle runtime (mint_for beneficiary amount) id h)
        (λ h' paid.
          (address_u128-Parsed handle (runtime.selector_of mint) beneficiary amount h' ok_a ok_b
            small (input-free h h' paid ∙ e)).1)

  burn_from-Performs :
      (who : List ℕ) (amount : ℕ) (id : ℕ) (h : H)
      → Parses (burn_from who amount) h
      → Performs (burn_from who amount) id h
  unfolding Parses Performs run_action burn_output
  burn_from-Performs who amount id h (small, (ok_a, ok_b), e) =
      prepaid (ok h) (read_arguments handle 2 address_u128) (who, amount)
        (λ (who, amount) h. effect handle runtime (burn_from who amount) id h)
        (λ h' paid.
          (address_u128-Parsed handle (runtime.selector_of burn) who amount h' ok_a ok_b small
            (input-free h h' paid ∙ e)).1)

  increase_by-Performs :
      (spender : List ℕ) (added_value : ℕ) (id : ℕ) (h : H)
      → Parses (increase_by spender added_value) h
      → Performs (increase_by spender added_value) id h
  unfolding Parses Performs run_action increase_allowance_output
  increase_by-Performs spender added_value id h (small, (ok_a, ok_b), e) =
      prepaid (record_db_read handle runtime h) (read_arguments handle 2 address_u256)
        (spender, added_value)
        (λ (spender, added_value) h. effect handle runtime (increase_by spender added_value) id h)
        (λ h' paid.
          (address_u256-Parsed handle (runtime.selector_of increase_allowance) spender added_value
            h' ok_a ok_b small (input-db_read h h' paid ∙ e)).1)

  decrease_by-Performs :
      (spender : List ℕ) (subtracted_value : ℕ) (id : ℕ) (h : H)
      → Parses (decrease_by spender subtracted_value) h
      → Performs (decrease_by spender subtracted_value) id h
  unfolding Parses Performs run_action decrease_allowance_output
  decrease_by-Performs spender subtracted_value id h (small, (ok_a, ok_b), e) =
      prepaid (record_db_read handle runtime h) (read_arguments handle 2 address_u256)
        (spender, subtracted_value)
        (λ (spender, subtracted_value) h.
          effect handle runtime (decrease_by spender subtracted_value) id h)
        (λ h' paid.
          (address_u256-Parsed handle (runtime.selector_of decrease_allowance) spender
            subtracted_value h' ok_a ok_b small (input-db_read h h' paid ∙ e)).1)

  pub run_action-request : (r : Request) (id : ℕ) (h : H) → Parses r h → Performs r id h
  run_action-request (get_balance owner) id h p = get_balance-Performs owner id h p
  run_action-request (get_allowance owner spender) id h p =
      get_allowance-Performs owner spender id h p
  run_action-request (transfer_to to amount) id h p = transfer_to-Performs to amount id h p
  run_action-request (approve_for spender amount) id h p =
      approve_for-Performs spender amount id h p
  run_action-request (transfer_between from to amount) id h p =
      transfer_between-Performs from to amount id h p
  run_action-request (mint_for beneficiary amount) id h p =
      mint_for-Performs beneficiary amount id h p
  run_action-request (burn_from who amount) id h p = burn_from-Performs who amount id h p
  run_action-request (increase_by spender added_value) id h p =
      increase_by-Performs spender added_value id h p
  run_action-request (decrease_by spender subtracted_value) id h p =
      decrease_by-Performs spender subtracted_value id h p

  pub read_selector-request :
      (r : Request) (h : H) (try_from : ℕ → Option Action)
      → Parses r h
      → read_selector try_from (handle.input h)
        ≡ ok_or (try_from (runtime.selector_of (action_of r))) (revert "unknown selector")
  unfolding Parses
  read_selector-request (get_balance owner) h try_from (small, ok_a, e) =
      (address-Parsed handle (runtime.selector_of balance_of) owner h ok_a small e).0 try_from
  read_selector-request (get_allowance owner spender) h try_from (small, (ok_a, ok_b), e) =
      (addresses-Parsed handle (runtime.selector_of allowance) owner spender h ok_a ok_b small e).0
        try_from
  read_selector-request (transfer_to to amount) h try_from (small, (ok_a, ok_b), e) =
      (address_u128-Parsed handle (runtime.selector_of transfer) to amount h ok_a ok_b small e).0
        try_from
  read_selector-request (approve_for spender amount) h try_from (small, (ok_a, ok_b), e) =
      (address_u256-Parsed handle (runtime.selector_of approve) spender amount h ok_a ok_b small
          e).0
        try_from
  read_selector-request (transfer_between from to amount) h try_from
        (small, (ok_a, ok_b, ok_n), e) =
      (address_address_u128-Parsed handle (runtime.selector_of transfer_from) from to amount h ok_a
          ok_b ok_n small e).0
        try_from
  read_selector-request (mint_for beneficiary amount) h try_from (small, (ok_a, ok_b), e) =
      (address_u128-Parsed handle (runtime.selector_of mint) beneficiary amount h ok_a ok_b small
          e).0
        try_from
  read_selector-request (burn_from who amount) h try_from (small, (ok_a, ok_b), e) =
      (address_u128-Parsed handle (runtime.selector_of burn) who amount h ok_a ok_b small e).0
        try_from
  read_selector-request (increase_by spender added_value) h try_from (small, (ok_a, ok_b), e) =
      (address_u256-Parsed handle (runtime.selector_of increase_allowance) spender added_value h
          ok_a ok_b small e).0
        try_from
  read_selector-request (decrease_by spender subtracted_value) h try_from (small, (ok_a, ok_b), e) =
      (address_u256-Parsed handle (runtime.selector_of decrease_allowance) spender subtracted_value
          h ok_a ok_b small e).0
        try_from
