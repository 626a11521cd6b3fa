-- ===== src/Abi/Fields.antt =====
-- Sequences of values in one container: the fields of a tuple, or the arguments of a call, written by
-- a chain of `write` and read by a chain of `read` (precompiles/utils/src/data.rs).
use neuroweb.Prelude.{
  ℕ, ◌+◌, ◌≡◌, sym, ap, ap₂, ◌∙◌, Bool, true, ◌&&◌, List, [], ◌∷◌, ◌++◌, append-nil, append_assoc,
  arith, length, length-append,
}
use neuroweb.Abi.Failure.{ok}
use neuroweb.Abi.Reader.{EvmDataReader}
use neuroweb.Abi.Writer.{OffsetDatum, EvmDataWriter, write_pointer, write_raw_bytes, dummy_word}
use neuroweb.Abi.Layout.{
  Piece, inline, pointed, piece_size, head_size, placeholders, entries, length-dummy_word,
}
use neuroweb.Abi.Words.{skip}
use neuroweb.Abi.Types.{EvmData, EvmFields, last, field}
use neuroweb.Abi.Lawful.{Lawful, append_piece, AtPieces, AtPieces-cons, is_inline}

abbrev pub append_pieces : EvmDataWriter → List Piece → EvmDataWriter
append_pieces w [] = w
append_pieces w (p ∷ ps) = append_pieces (append_piece w p) ps

abbrev pub all_inline : List Piece → Bool
all_inline [] = true
all_inline (p ∷ ps) = is_inline p && all_inline ps

abbrev pub with_contents : EvmDataWriter → List ℕ → List OffsetDatum → EvmDataWriter
with_contents w bs os = record w { bytes = bs; offset_data = os }

-- Pieces written one after the other: their placeholders in a row, their offsets at their places.
pub append_pieces_lem :
    (ps : List Piece) (w : EvmDataWriter)
    → append_pieces w ps
      ≡ with_contents w
          (w.bytes ++ placeholders ps)
          (w.offset_data ++ entries (length w.bytes) 0 ps)
unfolding write_raw_bytes write_pointer
append_pieces_lem [] w = ap₂ (with_contents w) (sym (append-nil _)) (sym (append-nil _))
append_pieces_lem (inline bs ∷ ps) w =
    append_pieces_lem ps (write_raw_bytes w bs)
    ∙ ap₂ (with_contents w) (append_assoc w.bytes bs (placeholders ps))
        (ap (λ n. w.offset_data ++ entries n 0 ps) (length-append w.bytes bs))
append_pieces_lem (pointed bs ∷ ps) w =
    let size : length (w.bytes ++ dummy_word) ≡ length w.bytes + 32 =
      omega (arith, length-append w.bytes dummy_word, length-dummy_word) in
    append_pieces_lem ps (write_pointer w bs)
    ∙ ap₂ (with_contents w) (append_assoc w.bytes dummy_word (placeholders ps)) (
        append_assoc w.offset_data _ _
        ∙ ap
            (λ n. w.offset_data ++ (entries (length w.bytes) 0 (pointed bs ∷ []) ++ entries n 0 ps))
            size)

pub record LawfulFields {ℓ} {A : Type ℓ} (fs : EvmFields A) (Ok : A → Type 0)
    (pieces : A → List Piece) : Type ℓ where
  pub pieces_static : (a : A) → all_inline (pieces a) ≡ fs.all_static
  pub write_pieces :
      (w : EvmDataWriter) (a : A) → Ok a → fs.write_fields w a ≡ append_pieces w (pieces a)
  pub read_pieces :
      (a : A) (offset : ℕ) (r : EvmDataReader)
      → Ok a
      → AtPieces offset (pieces a) r
      → fs.read_fields r ≡ (ok a, skip (head_size (pieces a)) r)

abbrev pub last_pieces {ℓ} : {A : Type ℓ} → (A → Piece) → A → List Piece
last_pieces piece a = piece a ∷ []

abbrev pub field_pieces {ℓ κ} :
    {A : Type ℓ} {B : Type κ} → (A → Piece) → (B → List Piece) → A × B → List Piece
field_pieces piece pieces (a, b) = piece a ∷ pieces b

abbrev pub FieldOk {ℓ κ} : {A : Type ℓ} {B : Type κ} → (A → Type 0) → (B → Type 0) → A × B → Type 0
FieldOk OkA OkB (a, b) = OkA a × OkB b

module _ {ℓ} {A : Type ℓ} (d : EvmData A) (Ok : A → Type 0) (piece : A → Piece)
    (l : Lawful d Ok piece) where
  last-read :
      (a : A) (offset : ℕ) (r : EvmDataReader)
      → Ok a
      → AtPieces offset (piece a ∷ []) r
      → d.read r ≡ (ok a, skip (head_size (piece a ∷ [])) r)
  last-read a offset r h c =
      let (here, _) = AtPieces-cons offset (piece a) [] r (λ bs. l.nonempty a bs h) c in
      let size : piece_size (piece a) ≡ piece_size (piece a) + 0 = omega arith in
      l.read_piece a offset r h here ∙ ap (λ n. (ok a, skip n r)) size

  pub last-Lawful : LawfulFields (last d) Ok (last_pieces piece)
  last-Lawful = record {
    pieces_static = λ a. ground (arith, l.piece_static a);
    write_pieces = l.write_piece;
    read_pieces = last-read;
  }

module _ {ℓ κ} {A : Type ℓ} {B : Type κ} (d : EvmData A) (fs : EvmFields B) (OkA : A → Type 0)
    (OkB : B → Type 0) (piece : A → Piece) (pieces : B → List Piece) (l : Lawful d OkA piece)
    (m : LawfulFields fs OkB pieces) where
  field-read :
      (v : A × B) (offset : ℕ) (r : EvmDataReader)
      → FieldOk OkA OkB v
      → AtPieces offset (piece v.0 ∷ pieces v.1) r
      → (field d fs).read_fields r ≡ (ok v, skip (head_size (piece v.0 ∷ pieces v.1)) r)
  field-read (a, b) offset r h c =
      let (here, (next, c')) =
        AtPieces-cons offset (piece a) (pieces b) r (λ bs. l.nonempty a bs h.0) c in
      let size = piece_size (piece a) in
      let same : r.cursor + size + head_size (pieces b) ≡ r.cursor + (size + head_size (pieces b)) =
        omega arith in
      rw (l.read_piece a offset r h.0 here, m.read_pieces b next (skip size r) h.1 c')
        (ap (λ n. (ok (a, b), record r { cursor = n })) same)

  pub field-Lawful : LawfulFields (field d fs) (FieldOk OkA OkB) (field_pieces piece pieces)
  field-Lawful = record {
    pieces_static = λ v. ground (arith, l.piece_static v.0, m.pieces_static v.1);
    write_pieces = λ w v h. rw (l.write_piece w v.0 h.0) (m.write_pieces _ v.1 h.1);
    read_pieces = field-read;
  }
