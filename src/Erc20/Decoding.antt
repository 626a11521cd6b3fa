-- ===== src/Erc20/Decoding.antt =====
-- Reading the arguments of a call that was encoded by the ABI
-- (`read_input`, `expect_arguments` and the reads of precompiles/assets-erc20/src/lib.rs).
use neuroweb.Prelude.{
  ℕ, ◌+◌, ◌*◌, ◌≤◌, ◌<◌, ◌^◌, ◌≡◌, Option, List, [], ◌∷◌, ◌++◌, arith, length, length-append,
  drop-append, false, ltb, ge→ltb,
}
use neuroweb.Prelude.Words.{to_be_bytes, length-to_be_bytes}
use neuroweb.Abi.Failure.{ok, ok_or, revert}
use neuroweb.Abi.Reader.{EvmDataReader, read_selector, new_skip_selector, expect_arguments}
use neuroweb.Abi.Writer.{build, new_with_selector}
use neuroweb.Abi.Layout.{Piece, layout, head_size, heads, tails, length-heads}
use neuroweb.Abi.Types.{EvmFields, run, address, u256, u128, field, last, pad_address}
use neuroweb.Abi.Fields.{
  LawfulFields, last-Lawful, field-Lawful, FieldOk, field_pieces, last_pieces,
}
use neuroweb.Abi.Scalars.{
  address-Lawful, address_piece, IsAddress, u256-Lawful, u256_piece, IsU256, uint-Lawful,
  uint_piece, IsUint,
}
use neuroweb.Abi.Lawful.{Lawful}
use neuroweb.Abi.Tuples.{IsTuple}
use neuroweb.Abi.Calls.{build-layout, decode-build, expect_arguments_lem, read_selector-build}
use neuroweb.Erc20.{Action}
use neuroweb.Evm.{PrecompileHandle, read_arguments}

abbrev pub calldata {ℓ} : {A : Type ℓ} → EvmFields A → ℕ → A → List ℕ
calldata fs selector a = build (fs.write_fields (new_with_selector selector) a)

-- The selector and the arguments that the handle's input has.
abbrev pub Parsed {ℓ} :
    {H : Type 0} {A : Type ℓ} → PrecompileHandle H → ℕ → ℕ → EvmFields A → A → H → Type ℓ
Parsed handle selector args fs a h =
    ((try_from : ℕ → Option Action)
      → read_selector try_from (handle.input h)
        ≡ ok_or (try_from selector) (revert "unknown selector"))
    × (read_arguments handle args fs h ≡ ok a)

module _ {ℓ} {A : Type ℓ} (fs : EvmFields A) (Ok : A → Type 0) (pieces : A → List Piece)
    (l : LawfulFields fs Ok pieces) where
  skip_selector-calldata :
      (selector : ℕ) (a : A)
      → IsTuple Ok pieces a
      → new_skip_selector (calldata fs selector a)
        ≡ ok (record { input = layout (pieces a); cursor = 0 })
  unfolding new_skip_selector
  skip_selector-calldata selector a h =
      let ps = pieces a in
      let head = to_be_bytes 4 selector in
      let size = length-to_be_bytes 4 selector in
      let long : ltb (length (head ++ layout ps)) 4 ≡ false =
        ge→ltb _ 4 (omega (arith, length-append head (layout ps))) in
      rw (build-layout fs Ok pieces l selector a h, long, drop-append 4 head (layout ps) size)

  -- The check of the length lets the arguments through.
  pub calldata-Parsed :
      {H : Type 0} (handle : PrecompileHandle H) (args selector : ℕ) (a : A) (h : H)
      → IsTuple Ok pieces a
      → 32 * args ≤ length (layout (pieces a))
      → selector < 2 ^ 32
      → handle.input h ≡ calldata fs selector a
      → Parsed handle selector args fs a h
  unfolding read_arguments
  calldata-Parsed handle args selector a h valid enough small e =
      let r : EvmDataReader = record { input = layout (pieces a); cursor = 0 } in
      let skipped = skip_selector-calldata selector a valid in
      let passes : expect_arguments args r ≡ ok tt =
        (expect_arguments_lem args r (omega (arith, valid.1))).1 (omega arith) in
      let decoded : run fs.read_fields r ≡ ok a =
        rw skipped at (decode-build fs Ok pieces l selector a valid) in
      (
        λ try_from. rw e (read_selector-build fs Ok pieces l try_from selector a small valid),
        rw (e, skipped, passes) decoded,
      )

-- The argument lists of the actions.
abbrev pub addresses : EvmFields (List ℕ × List ℕ)
addresses = field address (last address)

abbrev pub address_u256 : EvmFields (List ℕ × ℕ)
address_u256 = field address (last u256)

abbrev pub address_u128 : EvmFields (List ℕ × ℕ)
address_u128 = field address (last u128)

u128-Lawful : Lawful u128 (IsUint 16) (uint_piece 16)
unfolding u128
u128-Lawful = uint-Lawful 16 "tried to parse u128 out of bounds" (omega arith)

address_u256-Lawful :
    LawfulFields address_u256
      (FieldOk IsAddress IsU256)
      (field_pieces address_piece (last_pieces u256_piece))
address_u256-Lawful =
    field-Lawful address (last u256) IsAddress IsU256 address_piece _ address-Lawful
      (last-Lawful u256 IsU256 u256_piece u256-Lawful)

address_u128-Lawful :
    LawfulFields address_u128
      (FieldOk IsAddress (IsUint 16))
      (field_pieces address_piece (last_pieces (uint_piece 16)))
address_u128-Lawful =
    field-Lawful address (last u128) IsAddress (IsUint 16) address_piece _ address-Lawful
      (last-Lawful u128 (IsUint 16) (uint_piece 16) u128-Lawful)

pub length-layout : (ps : List Piece) → length (layout ps) ≡ head_size ps + length (tails ps)
length-layout ps =
    omega
      (arith, length-append (heads (head_size ps) ps) (tails ps), length-heads (head_size ps) ps)

pub length-pad_address : (a : List ℕ) → length a ≡ 20 → length (pad_address a) ≡ 32
length-pad_address a h = omega arith

abbrev pub address_address_u128 : EvmFields (List ℕ × (List ℕ × ℕ))
address_address_u128 = field address address_u128

addresses-Lawful :
    LawfulFields addresses
      (FieldOk IsAddress IsAddress)
      (field_pieces address_piece (last_pieces address_piece))
addresses-Lawful =
    field-Lawful address (last address) IsAddress IsAddress address_piece _ address-Lawful
      (last-Lawful address IsAddress address_piece address-Lawful)

address_address_u128-Lawful :
    LawfulFields address_address_u128
      (FieldOk IsAddress (FieldOk IsAddress (IsUint 16)))
      (field_pieces address_piece (field_pieces address_piece (last_pieces (uint_piece 16))))
address_address_u128-Lawful =
    field-Lawful address address_u128 IsAddress _ address_piece _ address-Lawful address_u128-Lawful

module _ {H : Type 0} (handle : PrecompileHandle H) (selector : ℕ) where
  pub address-Parsed :
      (a : List ℕ) (h : H)
      → length a ≡ 20
      → selector < 2 ^ 32
      → handle.input h ≡ calldata (last address) selector a
      → Parsed handle selector 1 (last address) a h
  address-Parsed a h ok_a small e =
      let size = length-layout (address_piece a ∷ []) in
      calldata-Parsed (last address) _ _
        (last-Lawful address IsAddress address_piece address-Lawful) handle 1 selector a h
        (ok_a, omega (arith, size, length-pad_address a ok_a))
        (omega (arith, size, length-pad_address a ok_a)) small e

  pub addresses-Parsed :
      (a b : List ℕ) (h : H)
      → length a ≡ 20
      → length b ≡ 20
      → selector < 2 ^ 32
      → handle.input h ≡ calldata addresses selector (a, b)
      → Parsed handle selector 2 addresses (a, b) h
  addresses-Parsed a b h ok_a ok_b small e =
      let size = length-layout (address_piece a ∷ address_piece b ∷ []) in
      calldata-Parsed addresses _ _ addresses-Lawful handle 2 selector (a, b) h
        ((ok_a, ok_b), omega (arith, size, length-pad_address a ok_a, length-pad_address b ok_b))
        (omega (arith, size, length-pad_address a ok_a, length-pad_address b ok_b)) small e

  pub address_u256-Parsed :
      (a : List ℕ) (n : ℕ) (h : H)
      → length a ≡ 20
      → n < 2 ^ 256
      → selector < 2 ^ 32
      → handle.input h ≡ calldata address_u256 selector (a, n)
      → Parsed handle selector 2 address_u256 (a, n) h
  address_u256-Parsed a n h ok_a ok_n small e =
      let size = length-layout (address_piece a ∷ u256_piece n ∷ []) in
      calldata-Parsed address_u256 _ _ address_u256-Lawful handle 2 selector (a, n) h
        ((ok_a, ok_n), omega (arith, size, length-pad_address a ok_a, length-to_be_bytes 32 n))
        (omega (arith, size, length-pad_address a ok_a, length-to_be_bytes 32 n)) small e

  pub address_u128-Parsed :
      (a : List ℕ) (n : ℕ) (h : H)
      → length a ≡ 20
      → n < 2 ^ 128
      → selector < 2 ^ 32
      → handle.input h ≡ calldata address_u128 selector (a, n)
      → Parsed handle selector 2 address_u128 (a, n) h
  address_u128-Parsed a n h ok_a ok_n small e =
      let size = length-layout (address_piece a ∷ uint_piece 16 n ∷ []) in
      calldata-Parsed address_u128 _ _ address_u128-Lawful handle 2 selector (a, n) h
        ((ok_a, ok_n), omega (arith, size, length-pad_address a ok_a, length-to_be_bytes 16 n))
        (omega (arith, size, length-pad_address a ok_a, length-to_be_bytes 16 n)) small e

  pub address_address_u128-Parsed :
      (a b : List ℕ) (n : ℕ) (h : H)
      → length a ≡ 20
      → length b ≡ 20
      → n < 2 ^ 128
      → selector < 2 ^ 32
      → handle.input h ≡ calldata address_address_u128 selector (a, (b, n))
      → Parsed handle selector 3 address_address_u128 (a, (b, n)) h
  address_address_u128-Parsed a b n h ok_a ok_b ok_n small e =
      let size = length-layout (address_piece a ∷ address_piece b ∷ uint_piece 16 n ∷ []) in
      calldata-Parsed address_address_u128 _ _ address_address_u128-Lawful handle 3 selector
        (a, (b, n)) h
        (
          (ok_a, (ok_b, ok_n)),
          omega (
            arith,
            size,
            length-pad_address a ok_a,
            length-pad_address b ok_b,
            length-to_be_bytes 16 n,
          ),
        )
        (omega (
          arith,
          size,
          length-pad_address a ok_a,
          length-pad_address b ok_b,
          length-to_be_bytes 16 n,
        ))
        small e
