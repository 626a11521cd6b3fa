-- ===== src/Erc20/Truncation.antt =====
-- Amounts above 128 bits in the transfers of precompiles/assets-erc20/src/lib.rs: the word of the call has
-- 256 bits, `input.read::<Balance>()` takes the lower half of it.
use neuroweb.Prelude.{
  ℕ, ◌+◌, ◌*◌, ◌/◌, ◌%◌, ◌<◌, ◌^◌, ◌≡◌, refl, sym, ap, ◌∙◌, true, List, [], ◌∷◌, ◌++◌, arith,
  length, length-append, drop, drop-append,
}
use neuroweb.Prelude.Words.{
  to_be_bytes, from_be_bytes, length-to_be_bytes, from_be_bytes-to_be_bytes, to_be_bytes-append,
}
use neuroweb.Abi.Writer.{write_raw_bytes}
use neuroweb.Abi.Layout.{Piece, inline}
use neuroweb.Abi.Types.{EvmData, EvmFields, address, u256, u128, uint, field, last}
use neuroweb.Abi.Lawful.{Lawful}
use neuroweb.Abi.Fields.{
  LawfulFields, last-Lawful, field-Lawful, FieldOk, field_pieces, last_pieces,
}
use neuroweb.Abi.Scalars.{address-Lawful, address_piece, IsAddress, IsUint, decode-Before}
use neuroweb.Abi.Failure.{ok, and_then}
use neuroweb.Evm.{PrecompileHandle, read_arguments, record_log_costs_manual}
use neuroweb.Erc20.{transfer, Assets}
use neuroweb.Erc20.Changes.{transfer_output}
use neuroweb.Erc20.Requests.{transfer_to, prepay, effect, KeepsInput}
use neuroweb.Erc20.Decoding.{
  calldata, address_u256, address_u128, calldata-Parsed, length-layout, length-pad_address,
}
use neuroweb.Erc20.Refinement.{prepaid, log_costs-input}

-- A word whose upper half is `high`, read by `u128`.
abbrev pub low_half : List ℕ → EvmData ℕ
low_half high = record {
  read = u128.read;
  write = λ w v. write_raw_bytes w (high ++ to_be_bytes 16 v);
  has_static_size = true;
}

abbrev pub half_piece : List ℕ → ℕ → Piece
half_piece high v = inline (high ++ to_be_bytes 16 v)

pub low_half-Lawful :
    (high : List ℕ) → length high ≡ 16 → Lawful (low_half high) (IsUint 16) (half_piece high)
unfolding u128 uint
low_half-Lawful high size = record {
  piece_static = λ v. refl;
  write_piece = λ w v ok_v. refl;
  read_piece = λ v offset r ok_v b.
      let word = high ++ to_be_bytes 16 v in
      let full : length word ≡ 32 =
        omega (arith, length-append high (to_be_bytes 16 v), size, length-to_be_bytes 16 v) in
      decode-Before word r _ (λ w. from_be_bytes (drop 16 w)) v b full
        (ap from_be_bytes (drop-append 16 high (to_be_bytes 16 v) size)
          ∙ from_be_bytes-to_be_bytes 16 v ok_v);
  nonempty = λ a bs h e. cc;
}

abbrev pub address_half : List ℕ → EvmFields (List ℕ × ℕ)
address_half high = field address (last (low_half high))

pub address_half-Lawful :
    (high : List ℕ)
    → length high ≡ 16
    → LawfulFields
        (address_half high)
        (FieldOk IsAddress (IsUint 16))
        (field_pieces address_piece (last_pieces (half_piece high)))
address_half-Lawful high size =
    field-Lawful address (last (low_half high)) IsAddress (IsUint 16) address_piece _ address-Lawful
      (last-Lawful (low_half high) (IsUint 16) (half_piece high) (low_half-Lawful high size))

-- The word of `n` is its upper half before its lower half.
pub halves :
    (n : ℕ) → to_be_bytes 32 n ≡ to_be_bytes 16 (n / 2 ^ 128) ++ to_be_bytes 16 (n % 2 ^ 128)
halves n =
    let whole : n / 2 ^ 128 * 256 ^ 16 + n % 2 ^ 128 ≡ n = omega arith in
    sym (ap (to_be_bytes 32) whole)
    ∙ to_be_bytes-append 16 16 (n / 2 ^ 128) (n % 2 ^ 128) (omega arith)

-- The call with the whole amount is, byte for byte, the call with the upper half put aside.
calldata-halves :
    (selector : ℕ) (to : List ℕ) (n : ℕ)
    → calldata address_u256 selector (to, n)
      ≡ calldata (address_half (to_be_bytes 16 (n / 2 ^ 128))) selector (to, n % 2 ^ 128)
unfolding u256
calldata-halves selector to n = rw (halves n)

module _ {H AccountId : Type 0} (handle : PrecompileHandle H) (runtime : Assets H AccountId) where
  pub read_arguments-truncates :
      (to : List ℕ) (n selector : ℕ) (h : H)
      → length to ≡ 20
      → selector < 2 ^ 32
      → handle.input h ≡ calldata address_u256 selector (to, n)
      → read_arguments handle 2 address_u128 h ≡ ok (to, n % 2 ^ 128)
  unfolding read_arguments
  read_arguments-truncates to n selector h ok_a small e =
      let high = to_be_bytes 16 (n / 2 ^ 128) in
      let v = n % 2 ^ 128 in
      let wide : length high ≡ 16 = length-to_be_bytes 16 (n / 2 ^ 128) in
      let size = length-layout (address_piece to ∷ half_piece high v ∷ []) in
      let pad = length-pad_address to ok_a in
      let low = length-to_be_bytes 16 v in
      let word = length-append high (to_be_bytes 16 v) in
      (calldata-Parsed (address_half high) _ _ (address_half-Lawful high wide) handle 2 selector
        (to, v) h ((ok_a, omega arith), omega (arith, size, pad, low, word, wide))
        (omega (arith, size, pad, low, word, wide)) small (e ∙ calldata-halves selector to n)).1

  -- A transfer of any amount to an address of 20 bytes charges, moves and logs the amount modulo 2
  -- ^ 128, if its selector has 32 bits and charging gas leaves the input alone.
  pub transfer-truncates :
      (to : List ℕ) (n id : ℕ) (h : H)
      → KeepsInput handle runtime
      → length to ≡ 20
      → runtime.selector_of transfer < 2 ^ 32
      → handle.input h ≡ calldata address_u256 (runtime.selector_of transfer) (to, n)
      → transfer_output handle runtime id h
        ≡ and_then
            (prepay handle runtime (transfer_to to (n % 2 ^ 128)) h)
            (effect handle runtime (transfer_to to (n % 2 ^ 128)) id)
  unfolding transfer_output
  transfer-truncates to n id h keeps ok_a small e =
      prepaid (record_log_costs_manual handle 3 32 h) (read_arguments handle 2 address_u128)
        (to, n % 2 ^ 128) (λ (to, amount) h. effect handle runtime (transfer_to to amount) id h)
        (λ h' paid.
          read_arguments-truncates to n (runtime.selector_of transfer) h' ok_a small
            (log_costs-input handle runtime keeps h h' paid ∙ e))
