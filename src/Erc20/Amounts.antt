-- ===== src/Erc20/Amounts.antt =====
-- Amounts above 128 bits in all four calls of precompiles/assets-erc20/src/lib.rs that move assets: the
-- call of any amount is, in effect, the call of the amount modulo 2 ^ 128.
use neuroweb.Prelude.{ℕ, ◌/◌, ◌%◌, ◌<◌, ◌^◌, ◌≡◌, ◌∙◌, List, [], ◌∷◌, arith, length, length-append}
use neuroweb.Prelude.Words.{to_be_bytes, length-to_be_bytes}
use neuroweb.Abi.Types.{EvmFields, address, u256, field}
use neuroweb.Abi.Fields.{LawfulFields, field-Lawful, FieldOk, field_pieces, last_pieces}
use neuroweb.Abi.Scalars.{address-Lawful, address_piece, IsAddress, IsUint}
use neuroweb.Abi.Failure.{ok, and_then}
use neuroweb.Evm.{PrecompileHandle, read_arguments, record_log_costs_manual}
use neuroweb.Erc20.{Action, transfer, transfer_from, mint, burn, Assets}
use neuroweb.Erc20.Changes.{transfer_from_output, mint_output, burn_output}
use neuroweb.Erc20.Execute.{run_action}
use neuroweb.Erc20.Requests.{
  Request, transfer_to, transfer_between, mint_for, burn_from, action_of, prepay, effect,
  KeepsInput,
}
use neuroweb.Erc20.Decoding.{
  calldata, address_u256, address_u128, address_address_u128, calldata-Parsed, length-layout,
  length-pad_address,
}
use neuroweb.Erc20.Refinement.{prepaid, log_costs-input, input-free}
use neuroweb.Erc20.Truncation.{
  half_piece, address_half, address_half-Lawful, halves, read_arguments-truncates,
  transfer-truncates,
}

-- A call that moves an amount.
pub data Movement : Type 0 where
  transfers : (to : List ℕ) → Movement
  transfers_between : (from to : List ℕ) → Movement
  mints : (beneficiary : List ℕ) → Movement
  burns : (who : List ℕ) → Movement

abbrev pub request_of : Movement → ℕ → Request
request_of (transfers to) n = transfer_to to n
request_of (transfers_between from to) n = transfer_between from to n
request_of (mints beneficiary) n = mint_for beneficiary n
request_of (burns who) n = burn_from who n

abbrev pub AddressesOk : Movement → Type 0
AddressesOk (transfers to) = length to ≡ 20
AddressesOk (transfers_between from to) = (length from ≡ 20) × (length to ≡ 20)
AddressesOk (mints beneficiary) = length beneficiary ≡ 20
AddressesOk (burns who) = length who ≡ 20

abbrev pub address_address_u256 : EvmFields (List ℕ × (List ℕ × ℕ))
address_address_u256 = field address address_u256

-- The call as Solidity encodes it, the amount in a word of 256 bits.
abbrev pub solidity_call : (Action → ℕ) → Movement → ℕ → List ℕ
solidity_call selector (transfers to) n = calldata address_u256 (selector transfer) (to, n)
solidity_call selector (transfers_between from to) n =
    calldata address_address_u256 (selector transfer_from) (from, (to, n))
solidity_call selector (mints beneficiary) n =
    calldata address_u256 (selector mint) (beneficiary, n)
solidity_call selector (burns who) n = calldata address_u256 (selector burn) (who, n)

abbrev address_address_half : List ℕ → EvmFields (List ℕ × (List ℕ × ℕ))
address_address_half high = field address (address_half high)

address_address_half-Lawful :
    (high : List ℕ)
    → length high ≡ 16
    → LawfulFields
        (address_address_half high)
        (FieldOk IsAddress (FieldOk IsAddress (IsUint 16)))
        (field_pieces address_piece (field_pieces address_piece (last_pieces (half_piece high))))
address_address_half-Lawful high size =
    field-Lawful address (address_half high) IsAddress _ address_piece _ address-Lawful
      (address_half-Lawful high size)

calldata-address_halves :
    (selector : ℕ) (from to : List ℕ) (n : ℕ)
    → calldata address_address_u256 selector (from, (to, n))
      ≡ calldata
          (address_address_half (to_be_bytes 16 (n / 2 ^ 128)))
          selector
          (from, (to, n % 2 ^ 128))
unfolding u256
calldata-address_halves selector from to n = rw (halves n)

module _ {H AccountId : Type 0} (handle : PrecompileHandle H) (runtime : Assets H AccountId) where
  read_three-truncates :
      (from to : List ℕ) (n selector : ℕ) (h : H)
      → length from ≡ 20
      → length to ≡ 20
      → selector < 2 ^ 32
      → handle.input h ≡ calldata address_address_u256 selector (from, (to, n))
      → read_arguments handle 3 address_address_u128 h ≡ ok (from, (to, n % 2 ^ 128))
  unfolding read_arguments
  read_three-truncates from to n selector h ok_a ok_b small e =
      let high = to_be_bytes 16 (n / 2 ^ 128) in
      let v = n % 2 ^ 128 in
      let wide : length high ≡ 16 = length-to_be_bytes 16 (n / 2 ^ 128) in
      let size = length-layout (address_piece from ∷ address_piece to ∷ half_piece high v ∷ []) in
      let pad_a = length-pad_address from ok_a in
      let pad_b = length-pad_address to ok_b in
      let low = length-to_be_bytes 16 v in
      let word = length-append high (to_be_bytes 16 v) in
      (calldata-Parsed (address_address_half high) _ _ (address_address_half-Lawful high wide)
        handle 3 selector (from, (to, v)) h
        ((ok_a, (ok_b, omega arith)), omega (arith, size, pad_a, pad_b, low, word, wide))
        (omega (arith, size, pad_a, pad_b, low, word, wide)) small
        (e ∙ calldata-address_halves selector from to n)).1

  -- A transfer, a transfer on behalf of another account, a mint or a burn of any amount, with
  -- addresses of 20 bytes, does what it would do with the amount modulo 2 ^ 128, if its selector
  -- has 32 bits and charging gas leaves the input alone.
  pub run_action-truncates :
      (m : Movement) (n id : ℕ) (h : H)
      → KeepsInput handle runtime
      → AddressesOk m
      → runtime.selector_of (action_of (request_of m n)) < 2 ^ 32
      → handle.input h ≡ solidity_call runtime.selector_of m n
      → run_action handle runtime (action_of (request_of m n)) id h
        ≡ and_then
            (prepay handle runtime (request_of m (n % 2 ^ 128)) h)
            (effect handle runtime (request_of m (n % 2 ^ 128)) id)
  unfolding run_action transfer_from_output mint_output burn_output
  run_action-truncates (transfers to) n id h keeps ok_a small e =
      transfer-truncates handle runtime to n id h keeps ok_a small e
  run_action-truncates (transfers_between from to) n id h keeps (ok_a, ok_b) small e =
      prepaid (record_log_costs_manual handle 3 32 h) (read_arguments handle 3 address_address_u128)
        (from, (to, n % 2 ^ 128))
        (λ (from, (to, amount)) h. effect handle runtime (transfer_between from to amount) id h)
        (λ h' paid.
          read_three-truncates from to n (runtime.selector_of transfer_from) h' ok_a ok_b small
            (log_costs-input handle runtime keeps h h' paid ∙ e))
  run_action-truncates (mints beneficiary) n id h keeps ok_a small e =
      prepaid (ok h) (read_arguments handle 2 address_u128) (beneficiary, n % 2 ^ 128)
        (λ (beneficiary, amount) h. effect handle runtime (mint_for beneficiary amount) id h)
        (λ h' paid.
          read_arguments-truncates handle runtime beneficiary n (runtime.selector_of mint) h' ok_a
            small (input-free handle runtime keeps h h' paid ∙ e))
  run_action-truncates (burns who) n id h keeps ok_a small e =
      prepaid (ok h) (read_arguments handle 2 address_u128) (who, n % 2 ^ 128)
        (λ (who, amount) h. effect handle runtime (burn_from who amount) id h)
        (λ h' paid.
          read_arguments-truncates handle runtime who n (runtime.selector_of burn) h' ok_a small
            (input-free handle runtime keeps h h' paid ∙ e))
