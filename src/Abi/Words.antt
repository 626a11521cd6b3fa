-- ===== src/Abi/Words.antt =====
-- Reading 32 bytes and a pointer, where the input holds them (`move_cursor`, `read_u256` and
-- `read_pointer` of precompiles/utils/src/data.rs).
use neuroweb.Prelude.{
  ℕ, ◌+◌, ◌-◌, ◌^◌, ◌≤◌, ◌<◌, ◌≡◌, refl, ap, ◌∙◌, List, ◌++◌, some, arith, length, length-append,
  length-drop, drop, take-append, le→leb,
}
use neuroweb.Prelude.Words.{to_be_bytes, length-to_be_bytes, from_be_bytes-to_be_bytes}
use neuroweb.Abi.Failure.{ok, revert, PrecompileFailure}
use neuroweb.Abi.Reader.{
  EvmDataReader, usize_max, move_cursor, next_bytes, get_range, read_u256, read_pointer, try_usize,
}

-- The reader stands before `bs`, and its input fits a `usize`.
pub record Before (bs : List ℕ) (r : EvmDataReader) : Type 0 where
  pub rest : List ℕ
  pub here : drop r.cursor r.input ≡ bs ++ rest
  pub inside : r.cursor ≤ length r.input
  pub fits : length r.input ≤ usize_max

abbrev pub skip : ℕ → EvmDataReader → EvmDataReader
skip n r = record r { cursor = r.cursor + n }

module _ (bs : List ℕ) {r : EvmDataReader} (b : Before bs r) where
  pub cursor-le : r.cursor + length bs ≤ length r.input
  cursor-le =
      omega
        (arith, b.inside, ap length b.here, length-append bs b.rest, length-drop r.cursor r.input)

  get_range-Before : get_range r.input r.cursor (r.cursor + length bs) ≡ some bs
  get_range-Before =
      let size : r.cursor + length bs - r.cursor ≡ length bs = omega arith in
      rw (
        le→leb r.cursor (r.cursor + length bs) (omega arith),
        le→leb (r.cursor + length bs) (length r.input) cursor-le,
        size,
        b.here,
        take-append (length bs) bs b.rest refl,
      )

  move_cursor-Before :
      move_cursor (length bs) r ≡ (ok (r.cursor, r.cursor + length bs), skip (length bs) r)
  unfolding move_cursor
  move_cursor-Before = let bound = cursor-le in let fits = b.fits in ground arith

  pub next_bytes-Before :
      (n : ℕ) (e : PrecompileFailure) → length bs ≡ n → next_bytes n e r ≡ (ok bs, skip n r)
  unfolding next_bytes
  next_bytes-Before n e h = rw (← h, move_cursor-Before, get_range-Before)

  pub read_u256-Before :
      (v : ℕ) → bs ≡ to_be_bytes 32 v → v < 256 ^ 32 → read_u256 r ≡ (ok v, skip 32 r)
  unfolding read_u256
  read_u256-Before v h lt =
      let size : length bs ≡ 32 = ap length h ∙ length-to_be_bytes 32 v in
      rw (next_bytes-Before 32 (revert "tried to parse U256 out of bounds") size, h)
        (rw (from_be_bytes-to_be_bytes 32 v lt))

pub try_usize-ok :
    (e : PrecompileFailure) (n : ℕ) (r : EvmDataReader)
    → n ≤ usize_max
    → try_usize e n r ≡ (ok n, r)
unfolding try_usize
try_usize-ok e n r h = ground arith

-- Where the word is an offset inside the input, the pointed reader begins there.
pub read_pointer-Before :
    (offset : ℕ) {r : EvmDataReader}
    → Before (to_be_bytes 32 offset) r
    → offset < length r.input
    → read_pointer r ≡ (ok (record { input = drop offset r.input; cursor = 0 }), skip 32 r)
unfolding read_pointer
read_pointer-Before offset {r = r} b inside =
    rw
      (
        read_u256-Before _ b offset refl (omega (arith, b.fits)),
        try_usize-ok (revert "array offset is too large") offset (skip 32 r)
            (omega (arith, b.fits)),
      )
      (ground arith)
