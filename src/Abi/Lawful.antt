-- ===== src/Abi/Lawful.antt =====
-- The contract of `EvmData` (precompiles/utils/src/data.rs): what is written is a piece of the
-- container, and a reader that stands before that piece reads the value back.
use neuroweb.Prelude.{
  ℕ, ◌+◌, ◌<◌, ◌≡◌, refl, ap, ◌∙◌, Bool, true, false, List, ◌∷◌, ◌++◌, append_assoc, arith, length,
  length-append, length-drop, drop, drop-append, drop-add,
}
use neuroweb.Prelude.Words.{to_be_bytes, length-to_be_bytes}
use neuroweb.Abi.Failure.{ok}
use neuroweb.Abi.Reader.{EvmDataReader}
use neuroweb.Abi.Writer.{EvmDataWriter, write_pointer, write_raw_bytes}
use neuroweb.Abi.Layout.{Piece, inline, pointed, piece_size, heads, tails}
use neuroweb.Abi.Words.{Before, skip, cursor-le}
use neuroweb.Abi.Types.{EvmData}

-- The writer after a piece.
abbrev pub append_piece : EvmDataWriter → Piece → EvmDataWriter
append_piece w (inline bs) = write_raw_bytes w bs
append_piece w (pointed bs) = write_pointer w bs

-- The reader stands before the piece: the bytes, or an offset into the input where they begin.
pub record Target (offset : ℕ) (bs : List ℕ) (r : EvmDataReader) : Type 0 where
  pub more : List ℕ
  pub there : drop offset r.input ≡ bs ++ more
  pub nonempty : 0 < length bs

abbrev pub AtPiece : ℕ → Piece → EvmDataReader → Type 0
AtPiece offset (inline bs) r = Before bs r
AtPiece offset (pointed bs) r = Before (to_be_bytes 32 offset) r × Target offset bs r

abbrev pub is_inline : Piece → Bool
is_inline (inline bs) = true
is_inline (pointed bs) = false

-- `Ok a`: the values that the Rust type holds, of a size that fits the memory.
pub record Lawful {ℓ} {A : Type ℓ} (d : EvmData A) (Ok : A → Type 0) (piece : A → Piece)
    : Type ℓ where
  pub piece_static : (a : A) → is_inline (piece a) ≡ d.has_static_size
  pub write_piece : (w : EvmDataWriter) (a : A) → Ok a → d.write w a ≡ append_piece w (piece a)
  pub read_piece :
      (a : A) (offset : ℕ) (r : EvmDataReader)
      → Ok a
      → AtPiece offset (piece a) r
      → d.read r ≡ (ok a, skip (piece_size (piece a)) r)
  pub nonempty : (a : A) (bs : List ℕ) → Ok a → piece a ≡ pointed bs → 0 < length bs

-- A container: the reader stands before the heads, and the pointed data begin at `offset`.
pub record AtPieces (offset : ℕ) (ps : List Piece) (r : EvmDataReader) : Type 0 where
  pub before : Before (heads offset ps) r
  pub more : List ℕ
  pub there : drop offset r.input ≡ tails ps ++ more

pub Target-inside :
    (offset : ℕ) (bs : List ℕ) (r : EvmDataReader) → Target offset bs r → offset < length r.input
Target-inside offset bs r t =
    omega
      (arith, t.nonempty, ap length t.there, length-append bs t.more, length-drop offset r.input)

-- Stepping over the first of several stretches of bytes.
pub Before-skip :
    (xs ys : List ℕ) (r : EvmDataReader) (n : ℕ)
    → length xs ≡ n
    → Before (xs ++ ys) r
    → Before xs r × Before ys (skip n r)
Before-skip xs ys r n h b = (
  record {
    rest = ys ++ b.rest;
    here = b.here ∙ append_assoc xs ys b.rest;
    inside = b.inside;
    fits = b.fits;
  },
  record {
    rest = b.rest;
    here =
        drop-add r.cursor n r.input
        ∙ ap (drop n) (b.here ∙ append_assoc xs ys b.rest)
        ∙ drop-append n xs (ys ++ b.rest) h;
    inside = omega (arith, cursor-le (xs ++ ys) b, length-append xs ys);
    fits = b.fits;
  },
)

AtPieces-inline :
    (offset : ℕ) (bs : List ℕ) (ps : List Piece) (r : EvmDataReader)
    → AtPieces offset (inline bs ∷ ps) r
    → Before bs r × AtPieces offset ps (skip (length bs) r)
AtPieces-inline offset bs ps r c =
    let (b, b') = Before-skip bs (heads offset ps) r (length bs) refl c.before in
    (b, record { before = b'; more = c.more; there = c.there })

AtPieces-pointed :
    (offset : ℕ) (bs : List ℕ) (ps : List Piece) (r : EvmDataReader)
    → 0 < length bs
    → AtPieces offset (pointed bs ∷ ps) r
    → AtPiece offset (pointed bs) r × AtPieces (offset + length bs) ps (skip 32 r)
AtPieces-pointed offset bs ps r pos c =
    let word = to_be_bytes 32 offset in
    let (b, b') =
      Before-skip word (heads (offset + length bs) ps) r 32 (length-to_be_bytes 32 offset)
        c.before in
    let split = c.there ∙ append_assoc bs (tails ps) c.more in
    (
      (b, record { more = tails ps ++ c.more; there = split; nonempty = pos }),
      record {
        before = b';
        more = c.more;
        there =
            drop-add offset (length bs) r.input
            ∙ ap (drop (length bs)) split
            ∙ drop-append (length bs) bs (tails ps ++ c.more) refl;
      },
    )

-- The first piece of a container, and the container of the others.
pub AtPieces-cons :
    (offset : ℕ) (p : Piece) (ps : List Piece) (r : EvmDataReader)
    → ((bs : List ℕ) → p ≡ pointed bs → 0 < length bs)
    → AtPieces offset (p ∷ ps) r
    → AtPiece offset p r × ((next : ℕ) × AtPieces next ps (skip (piece_size p) r))
AtPieces-cons offset (inline bs) ps r pos c =
    let (b, c') = AtPieces-inline offset bs ps r c in (b, (offset, c'))
AtPieces-cons offset (pointed bs) ps r pos c =
    let (b, c') = AtPieces-pointed offset bs ps r (pos bs refl) c in (b, (offset + length bs, c'))
