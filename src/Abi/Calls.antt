-- ===== src/Abi/Calls.antt =====
-- A whole call: selector and arguments, written by `EvmDataWriter` and read by `EvmDataReader`
-- (precompiles/utils/src/data.rs).
use neuroweb.Prelude.{
  ℕ, ◌+◌, ◌*◌, ◌%◌, ◌^◌, ◌≤◌, ◌<◌, ◌≡◌, ◌↔◌, refl, sym, ap, Option, List, [], ◌++◌, append-nil,
  arith, length, length-append, take-append, drop-append, false, ltb, ge→ltb,
}
use neuroweb.Prelude.Words.{to_be_bytes, length-to_be_bytes, from_be_bytes-to_be_bytes}
use neuroweb.Abi.Failure.{ok, ok_or, revert, and_then}
use neuroweb.Abi.Reader.{
  EvmDataReader, usize_max, new_skip_selector, read_selector, expect_arguments,
}
use neuroweb.Abi.Writer.{build, new_with_selector}
use neuroweb.Abi.Layout.{Piece, head_size, layout, bake_offsets-layout}
use neuroweb.Abi.Words.{Before}
use neuroweb.Abi.Types.{EvmFields, run}
use neuroweb.Abi.Fields.{LawfulFields, append_pieces_lem}
use neuroweb.Abi.Pointers.{result}
use neuroweb.Abi.Arrays.{layout-AtPieces}
use neuroweb.Abi.Tuples.{IsTuple}

module _ {ℓ} {A : Type ℓ} (fs : EvmFields A) (Ok : A → Type 0) (pieces : A → List Piece)
    (l : LawfulFields fs Ok pieces) where
  pub build-layout :
      (selector : ℕ) (a : A)
      → IsTuple Ok pieces a
      → build (fs.write_fields (new_with_selector selector) a)
        ≡ to_be_bytes 4 selector ++ layout (pieces a)
  unfolding build new_with_selector
  build-layout selector a (valid, fits) =
      let w = new_with_selector selector in
      rw (l.write_pieces w a valid, append_pieces_lem (pieces a) w)
        (ap (λ t. to_be_bytes 4 selector ++ t)
          (bake_offsets-layout (pieces a) [] 0 refl (omega arith)))

  -- The arguments of a call that the writer built are read back after the selector, for all field
  -- types that read back what they write, if the arguments fit the memory.
  pub decode-build :
      (selector : ℕ) (a : A)
      → IsTuple Ok pieces a
      → and_then
          (new_skip_selector (build (fs.write_fields (new_with_selector selector) a)))
          (run fs.read_fields)
        ≡ ok a
  unfolding new_skip_selector
  decode-build selector a h =
      let ps = pieces a in
      let head = to_be_bytes 4 selector in
      let size = length-to_be_bytes 4 selector in
      let long : ltb (length (head ++ layout ps)) 4 ≡ false =
        ge→ltb _ 4 (omega (arith, length-append head (layout ps))) in
      let before : Before (layout ps) (record { input = layout ps; cursor = 0 }) = record {
        rest = [];
        here = sym (append-nil _);
        inside = omega arith;
        fits = h.1;
      } in
      rw (build-layout selector a h, long, drop-append 4 head (layout ps) size)
        (ap result (l.read_pieces a (head_size ps) _ h.0 (layout-AtPieces ps (layout ps) before)))

  -- The selector of 32 bits that was written is the one that is read, whatever the arguments that fit the
  -- memory.
  pub read_selector-build {κ} :
      {T : Type κ} (try_from : ℕ → Option T) (selector : ℕ) (a : A)
      → selector < 2 ^ 32
      → IsTuple Ok pieces a
      → read_selector try_from (build (fs.write_fields (new_with_selector selector) a))
        ≡ ok_or (try_from selector) (revert "unknown selector")
  unfolding read_selector
  read_selector-build try_from selector a small h =
      let ps = pieces a in
      let head = to_be_bytes 4 selector in
      let size = length-to_be_bytes 4 selector in
      let long : ltb (length (head ++ layout ps)) 4 ≡ false =
        ge→ltb _ 4 (omega (arith, length-append head (layout ps))) in
      rw (build-layout selector a h, long, take-append 4 head (layout ps) size)
        (rw (from_be_bytes-to_be_bytes 4 selector small))

-- A check that does not overflow passes exactly if that many words are left.
pub expect_arguments_lem :
    (args : ℕ) (r : EvmDataReader)
    → r.cursor + args * 32 ≤ usize_max
    → (expect_arguments args r ≡ ok tt) ↔ (r.cursor + args * 32 ≤ length r.input)
unfolding expect_arguments
expect_arguments_lem args r h =
    let same : (r.cursor + args * 32) % (usize_max + 1) ≡ r.cursor + args * 32 = omega arith in
    ground arith
