-- ===== src/Abi/Pointers.antt =====
-- The types behind a pointer: a read follows the offset and goes on in a reader of its own; `Bytes` of
-- precompiles/utils/src/data.rs.
use neuroweb.Prelude.{
  ℕ, ◌+◌, ◌-◌, ◌≤◌, ◌≡◌, refl, ap, List, ◌++◌, arith, length, length-append, length-drop, replicate,
  drop, take-all,
}
use neuroweb.Prelude.Words.{to_be_bytes, length-to_be_bytes}
use neuroweb.Abi.Failure.{EvmResult, ok, revert}
use neuroweb.Abi.Reader.{EvmDataReader, Parser, usize_max, ◌>>=◌, lift, read_pointer}
use neuroweb.Abi.Writer.{bake_offsets}
use neuroweb.Abi.Layout.{Piece, pointed, pointed_length}
use neuroweb.Abi.Words.{
  Before, skip, next_bytes-Before, read_u256-Before, read_pointer-Before, try_usize-ok,
}
use neuroweb.Abi.Types.{run, bytes, bytes_blob, read_bytes_body, padded_size}
use neuroweb.Abi.Lawful.{Lawful, AtPiece, Before-skip, Target-inside}

-- The reader of the pointed data.
abbrev pub at_offset : ℕ → EvmDataReader → EvmDataReader
at_offset offset r = record { input = drop offset r.input; cursor = 0 }

-- The result of a read without the reader.
abbrev pub result {ℓ} : {A : Type ℓ} → EvmResult A × EvmDataReader → EvmResult A
result t = t.0

module _ (offset : ℕ) (blob : List ℕ) (r : EvmDataReader)
    (c : AtPiece offset (pointed blob) r) where
  pub at_offset-Before : Before blob (at_offset offset r)
  at_offset-Before = record {
    rest = c.1.more;
    here = c.1.there;
    inside = omega arith;
    fits = omega (arith, c.0.fits, length-drop offset r.input);
  }

  pub read_pointed {ℓ} :
      {A : Type ℓ} (body : Parser A) (a : A)
      → run body (at_offset offset r) ≡ ok a
      → (read_pointer >>= λ inner. lift (run body inner)) r ≡ (ok a, skip 32 r)
  read_pointed body a h =
      rw (read_pointer-Before offset c.0 (Target-inside offset blob r c.1))
        (ap (λ t. (t, skip 32 r)) h)

-- `Vec<u8>` of a length that a `usize` counts, padding included.
abbrev pub IsBytes : List ℕ → Type 0
IsBytes v = length v + 32 ≤ usize_max

padded_size-ge : (n : ℕ) → n ≤ padded_size n
unfolding padded_size
padded_size-ge n = ground arith

abbrev zeros_after : List ℕ → List ℕ
zeros_after v = replicate (padded_size (length v) - length v) 0

-- The length, the bytes, and zeros up to the next word.
pub bytes_blob_lem : (v : List ℕ) → bytes_blob v ≡ to_be_bytes 32 (length v) ++ (v ++ zeros_after v)
unfolding bytes_blob bake_offsets
bytes_blob_lem v =
    ap (λ t. to_be_bytes 32 (length v) ++ (t ++ zeros_after v))
      (take-all (padded_size (length v)) v (padded_size-ge (length v)))

read_bytes_body-Before :
    (v : List ℕ) (r : EvmDataReader)
    → IsBytes v
    → Before (to_be_bytes 32 (length v) ++ (v ++ zeros_after v)) r
    → read_bytes_body r ≡ (ok v, skip (length v) (skip 32 r))
unfolding read_bytes_body
read_bytes_body-Before v r h b =
    let n = length v in
    let (word, b') =
      Before-skip (to_be_bytes 32 n) (v ++ zeros_after v) r 32 (length-to_be_bytes 32 n) b in
    let (body, _) = Before-skip v (zeros_after v) (skip 32 r) n refl b' in
    rw (
      read_u256-Before (to_be_bytes 32 n) word n refl (omega arith),
      try_usize-ok (revert "bytes/string length is too large") n (skip 32 r) (omega arith),
      next_bytes-Before v body n (revert "tried to parse bytes/string out of bounds") refl,
    )

abbrev pub bytes_piece : List ℕ → Piece
bytes_piece v = pointed (bytes_blob v)

-- What is written for a byte string is read back, up to the size of the memory.
pub bytes-Lawful : Lawful bytes IsBytes bytes_piece
unfolding bytes
bytes-Lawful = record {
  piece_static = λ v. refl;
  write_piece = λ w v h. refl;
  read_piece = λ v offset r h c. read_pointed offset (bytes_blob v) r c read_bytes_body v (
      ap result (
        read_bytes_body-Before v (at_offset offset r) h
          (rw (bytes_blob_lem v) at (at_offset-Before offset (bytes_blob v) r c))));
  nonempty = λ v bs h e. omega (
    arith,
    ap pointed_length e,
    ap length (bytes_blob_lem v),
    length-append (to_be_bytes 32 (length v)) (v ++ zeros_after v),
    length-to_be_bytes 32 (length v),
  );
}
