-- ===== src/Abi/Tuples.antt =====
-- Tuples of precompiles/utils/src/data.rs: in place if all fields are, behind a pointer otherwise.
use neuroweb.Prelude.{
  ℕ, ◌≤◌, ◌<◌, ◌≡◌, refl, sym, ap, ◌∙◌, inl, inr, true, false, Bool-cases, List, [], ◌∷◌, ◌++◌,
  append-nil, arith, length, length-append, drop, if◌then◌else◌,
}
use neuroweb.Abi.Failure.{ok}
use neuroweb.Abi.Reader.{EvmDataReader, ◌>>=◌, lift, read_pointer, usize_max}
use neuroweb.Abi.Writer.{EvmDataWriter, empty, write_raw_bytes, write_pointer}
use neuroweb.Abi.Layout.{
  Piece, inline, pointed, pointed_length, piece_size, head_size, placeholders, entries, heads,
  tails, layout, length-heads, length-placeholders, bake_offsets-layout,
}
use neuroweb.Abi.Words.{Before, skip}
use neuroweb.Abi.Types.{EvmFields, run, tuple, tuple_blob}
use neuroweb.Abi.Lawful.{Lawful, append_piece, AtPiece, AtPieces}
use neuroweb.Abi.Fields.{LawfulFields, append_pieces_lem, with_contents, all_inline}
use neuroweb.Abi.Pointers.{read_pointed, at_offset, at_offset-Before, result}
use neuroweb.Abi.Arrays.{layout-AtPieces}

-- Pieces in place have no offsets, and their heads are their bytes.
entries-inline :
    (ps : List Piece) (position shift : ℕ) → all_inline ps ≡ true → entries position shift ps ≡ []
entries-inline [] position shift h = refl
entries-inline (inline bs ∷ ps) position shift h = entries-inline ps _ shift h
entries-inline (pointed bs ∷ ps) position shift h = cc

heads-inline :
    (ps : List Piece) (offset : ℕ) → all_inline ps ≡ true → heads offset ps ≡ placeholders ps
heads-inline [] offset h = refl
heads-inline (inline bs ∷ ps) offset h = ap (λ t. bs ++ t) (heads-inline ps offset h)
heads-inline (pointed bs ∷ ps) offset h = cc

tails-inline : (ps : List Piece) → all_inline ps ≡ true → tails ps ≡ []
tails-inline [] h = refl
tails-inline (inline bs ∷ ps) h = tails-inline ps h
tails-inline (pointed bs ∷ ps) h = cc

head_size-pointed : (ps : List Piece) → all_inline ps ≡ false → 32 ≤ head_size ps
head_size-pointed [] h = cc
head_size-pointed (inline bs ∷ ps) h = omega (arith, head_size-pointed ps h)
head_size-pointed (pointed bs ∷ ps) h = omega arith

-- A stretch of bytes, read as a container whose pieces are all in place.
Before-AtPieces :
    (ps : List Piece) (offset : ℕ) (r : EvmDataReader)
    → all_inline ps ≡ true
    → Before (placeholders ps) r
    → AtPieces offset ps r
Before-AtPieces ps offset r h b = record {
  before = rw (heads-inline ps offset h) b;
  more = drop offset r.input;
  there = rw (tails-inline ps h);
}

-- The fields are valid, and the container fits the memory.
abbrev pub IsTuple {ℓ} : {A : Type ℓ} → (A → Type 0) → (A → List Piece) → A → Type 0
IsTuple Ok pieces a = Ok a × (length (layout (pieces a)) ≤ usize_max)

unfoldable pub tuple_piece {ℓ} : {A : Type ℓ} → EvmFields A → (A → List Piece) → A → Piece
tuple_piece fs pieces a =
    if fs.all_static then inline (placeholders (pieces a)) else pointed (layout (pieces a))

module _ {ℓ} {A : Type ℓ} (fs : EvmFields A) (Ok : A → Type 0) (pieces : A → List Piece)
    (l : LawfulFields fs Ok pieces) where
  tuple_blob_lem : (a : A) → IsTuple Ok pieces a → tuple_blob fs a ≡ layout (pieces a)
  unfolding tuple_blob empty
  tuple_blob_lem a (valid, fits) =
      rw (l.write_pieces empty a valid, append_pieces_lem (pieces a) empty)
        (bake_offsets-layout (pieces a) [] 0 refl (omega arith))

  tuple-write :
      (w : EvmDataWriter) (a : A)
      → IsTuple Ok pieces a
      → (tuple fs).write w a ≡ append_piece w (tuple_piece fs pieces a)
  unfolding tuple tuple_piece write_raw_bytes
  tuple-write w a h = elim (Bool-cases fs.all_static) [
    | inl static ↦ rw static (
        l.write_pieces w a h.0
        ∙ append_pieces_lem (pieces a) w
        ∙ ap (with_contents w (w.bytes ++ placeholders (pieces a))) (
            ap (λ t. w.offset_data ++ t)
              (entries-inline (pieces a) (length w.bytes) 0 (l.pieces_static a ∙ static))
            ∙ append-nil w.offset_data))
    | inr dynamic ↦ rw dynamic (ap (write_pointer w) (tuple_blob_lem a h))
  ]

  tuple-read_static :
      (a : A) (offset : ℕ) (r : EvmDataReader)
      → fs.all_static ≡ true
      → IsTuple Ok pieces a
      → Before (placeholders (pieces a)) r
      → fs.read_fields r ≡ (ok a, skip (length (placeholders (pieces a))) r)
  tuple-read_static a offset r static h b =
      l.read_pieces a offset r h.0
        (Before-AtPieces (pieces a) offset r (l.pieces_static a ∙ static) b)
      ∙ ap (λ n. (ok a, skip n r)) (sym (length-placeholders (pieces a)))

  tuple-read_dynamic :
      (a : A) (offset : ℕ) (r : EvmDataReader)
      → IsTuple Ok pieces a
      → AtPiece offset (pointed (layout (pieces a))) r
      → (read_pointer >>= λ inner. lift (run fs.read_fields inner)) r ≡ (ok a, skip 32 r)
  tuple-read_dynamic a offset r h c =
      let ps = pieces a in
      read_pointed offset (layout ps) r c fs.read_fields a (
        ap result (
          l.read_pieces a (head_size ps) (at_offset offset r) h.0
            (layout-AtPieces ps (drop offset r.input) (at_offset-Before offset (layout ps) r c))))

  tuple-read :
      (a : A) (offset : ℕ) (r : EvmDataReader)
      → IsTuple Ok pieces a
      → AtPiece offset (tuple_piece fs pieces a) r
      → (tuple fs).read r ≡ (ok a, skip (piece_size (tuple_piece fs pieces a)) r)
  unfolding tuple tuple_piece
  tuple-read a offset r h c = elim (Bool-cases fs.all_static) [
    | inl static ↦ rw static (tuple-read_static a offset r static h (rw static at c))
    | inr dynamic ↦ rw dynamic (tuple-read_dynamic a offset r h (rw dynamic at c))
  ]

  tuple-nonempty :
      (a : A) (bs : List ℕ)
      → IsTuple Ok pieces a
      → tuple_piece fs pieces a ≡ pointed bs
      → 0 < length bs
  unfolding tuple_piece
  tuple-nonempty a bs h e = elim (Bool-cases fs.all_static) [
    | inl static ↦ cc (rw static at e)
    | inr dynamic ↦
        let ps = pieces a in
        omega (
          arith,
          ap pointed_length (rw dynamic at e),
          length-append (heads (head_size ps) ps) (tails ps),
          length-heads (head_size ps) ps,
          head_size-pointed ps (l.pieces_static a ∙ dynamic),
        )
  ]

  -- What is written for a tuple is read back, if its field types have this property.
  pub tuple-Lawful : Lawful (tuple fs) (IsTuple Ok pieces) (tuple_piece fs pieces)
  unfolding tuple tuple_piece
  tuple-Lawful = record {
    piece_static = λ a. ground arith;
    write_piece = tuple-write;
    read_piece = tuple-read;
    nonempty = tuple-nonempty;
  }
