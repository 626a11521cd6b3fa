-- ===== src/Abi/Tests.antt =====
-- Concrete runs of the codec, and its theorems at concrete inputs.
use neuroweb.Prelude.{ℕ, refl, ◌≡◌, List, [], ◌∷◌, ◌++◌, arith, replicate}
use neuroweb.Prelude.Words.{to_be_bytes}
use neuroweb.Abi.Failure.{ok, and_then}
use neuroweb.Abi.Reader.{new_skip_selector}
use neuroweb.Abi.Writer.{build, bake_offsets, write_raw_bytes, new_with_selector, empty}
use neuroweb.Abi.Types.{
  EvmFields, run, bytes, bytes_blob, padded_size, address, u256, vec, vec_blob, field, last,
}
use neuroweb.Abi.Fields.{
  LawfulFields, last-Lawful, field-Lawful, FieldOk, field_pieces, last_pieces,
}
use neuroweb.Abi.Scalars.{address-Lawful, address_piece, IsAddress}
use neuroweb.Abi.Pointers.{bytes-Lawful, IsBytes, bytes_piece}
use neuroweb.Abi.Arrays.{vec-Lawful, IsVec, vec_piece}
use neuroweb.Abi.Layout.{Piece, inline, pointed, layout, placeholders, entries, bake_offsets-layout}
use neuroweb.Abi.Tuples.{IsTuple}
use neuroweb.Abi.Calls.{decode-build}
use neuroweb.Abi.Lawful.{Lawful}

abbrev account : List ℕ
account = replicate 19 0 ++ (7 ∷ [])

-- A call `f(address[], bytes)`.
abbrev arguments : EvmFields (List (List ℕ) × List ℕ)
arguments = field (vec address) (last bytes)

abbrev argument_pieces : List (List ℕ) × List ℕ → List Piece
argument_pieces = field_pieces (vec_piece address) (last_pieces bytes_piece)

abbrev ArgumentsOk : List (List ℕ) × List ℕ → Type 0
ArgumentsOk = FieldOk (IsVec IsAddress address_piece) IsBytes

arguments-Lawful : LawfulFields arguments ArgumentsOk argument_pieces
arguments-Lawful =
    field-Lawful (vec address) (last bytes) _ IsBytes (vec_piece address) _
      (vec-Lawful address IsAddress address_piece address-Lawful)
      (last-Lawful bytes IsBytes bytes_piece bytes-Lawful)

abbrev sample : List (List ℕ) × List ℕ
sample = (account ∷ account ∷ [], 1 ∷ 2 ∷ 3 ∷ [])

sample-IsTuple : IsTuple ArgumentsOk argument_pieces sample
unfolding vec_blob bytes_blob padded_size to_be_bytes address u256 empty build bake_offsets
    write_raw_bytes
sample-IsTuple = omega arith

decode-build_example :
    and_then
      (new_skip_selector (build (arguments.write_fields (new_with_selector 0xa9059cbb) sample)))
      (run arguments.read_fields)
    ≡ ok sample
decode-build_example =
    decode-build arguments ArgumentsOk argument_pieces arguments-Lawful 0xa9059cbb sample
      sample-IsTuple

vec-Lawful_example : Lawful (vec address) (IsVec IsAddress address_piece) (vec_piece address)
vec-Lawful_example = vec-Lawful address IsAddress address_piece address-Lawful

-- One word in place, and one byte behind a pointer.
abbrev two_pieces : List Piece
two_pieces = inline (replicate 32 1) ∷ pointed (9 ∷ []) ∷ []

bake_offsets-layout_example :
    bake_offsets (7 ∷ placeholders two_pieces) (entries 1 1 two_pieces) ≡ 7 ∷ layout two_pieces
unfolding to_be_bytes
bake_offsets-layout_example = bake_offsets-layout two_pieces (7 ∷ []) 1 refl (omega arith)
