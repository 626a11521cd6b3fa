-- ===== src/Abi/Arrays.antt =====
-- `Vec<T>` of precompiles/utils/src/data.rs keeps the contract whenever its item type does, at any
-- nesting.
use neuroweb.Prelude.{
  ℕ, ◌+◌, ◌≤◌, ◌≡◌, refl, sym, ap, ap₂, ◌∙◌, false, ltb, ge→ltb, List, [], ◌∷◌, ◌++◌, append-nil,
  append_assoc, arith, length, length-append, length-drop, drop, drop-append, All,
}
use native.Mathlib.Nat.{zero-add, add-zero, add_assoc}
use neuroweb.Prelude.Words.{to_be_bytes, length-to_be_bytes}
use neuroweb.Abi.Failure.{ok, revert}
use neuroweb.Abi.Reader.{EvmDataReader, usize_max}
use neuroweb.Abi.Writer.{EvmDataWriter, dummy_word, empty, write_raw_bytes, write_pointer}
use neuroweb.Abi.Layout.{
  Piece, inline, pointed, pointed_length, piece_size, head_size, placeholder, placeholders, entries,
  heads, tails, layout, length-heads, length-placeholder, entries-cons, bake_offsets-layout,
}
use neuroweb.Abi.Words.{Before, skip, cursor-le, read_u256-Before, try_usize-ok}
use neuroweb.Abi.Types.{
  EvmData, vec, vec_blob, merge_item, write_item, write_items, read_items, read_vec_body,
}
use neuroweb.Abi.Lawful.{Lawful, append_piece, AtPiece, AtPieces, AtPieces-cons, Before-skip}
use neuroweb.Abi.Fields.{with_contents}
use neuroweb.Abi.Pointers.{read_pointed, at_offset-Before, result}

-- A reader at the beginning of a container.
pub layout-AtPieces :
    (ps : List Piece) (input : List ℕ)
    → Before (layout ps) (record { input = input; cursor = 0 })
    → AtPieces (head_size ps) ps (record { input = input; cursor = 0 })
layout-AtPieces ps input b =
    let n = head_size ps in
    let r : EvmDataReader = record { input = input; cursor = 0 } in
    let (before, _) = Before-skip (heads n ps) (tails ps) r n (length-heads n ps) b in
    record {
      before = before;
      more = b.rest;
      there =
          ap (drop n) (b.here ∙ append_assoc (heads n ps) (tails ps) b.rest)
          ∙ drop-append n (heads n ps) (tails ps ++ b.rest) (length-heads n ps);
    }

-- One item, written as a piece.
merge_item-append_piece :
    (p : Piece) (w : EvmDataWriter)
    → merge_item w (append_piece empty p)
      ≡ with_contents w
          (w.bytes ++ placeholder p)
          (w.offset_data ++ entries (length w.bytes) 32 (p ∷ []))
unfolding merge_item write_raw_bytes write_pointer empty
merge_item-append_piece (inline bs) w = refl
merge_item-append_piece (pointed bs) w =
    ap
      (λ n.
        with_contents w (w.bytes ++ dummy_word)
          (w.offset_data ++ (record { offset_position = n; bytes = bs; offset_shift = 32 } ∷ [])))
      (zero-add (length w.bytes))

abbrev pub pieces_of {ℓ} : {A : Type ℓ} → (A → Piece) → List A → List Piece
pieces_of piece [] = []
pieces_of piece (a ∷ vs) = piece a ∷ pieces_of piece vs

-- The items are valid, and the whole fits the memory.
abbrev pub IsVec {ℓ} : {A : Type ℓ} → (A → Type 0) → (A → Piece) → List A → Type 0
IsVec Ok piece vs =
    All Ok vs × (length vs ≤ usize_max) × (32 + length (layout (pieces_of piece vs)) ≤ usize_max)

abbrev pub vec_piece {ℓ} : {A : Type ℓ} → EvmData A → List A → Piece
vec_piece d vs = pointed (vec_blob d vs)

module _ {ℓ} {A : Type ℓ} (d : EvmData A) (Ok : A → Type 0) (piece : A → Piece)
    (l : Lawful d Ok piece) where
  write_items_lem :
      (vs : List A) (w : EvmDataWriter)
      → All Ok vs
      → write_items d w vs
        ≡ with_contents w
            (w.bytes ++ placeholders (pieces_of piece vs))
            (w.offset_data ++ entries (length w.bytes) 32 (pieces_of piece vs))
  unfolding write_items write_item
  write_items_lem [] w h = ap₂ (with_contents w) (sym (append-nil _)) (sym (append-nil _))
  write_items_lem (a ∷ vs) w h =
      let p = piece a in
      let ps = pieces_of piece vs in
      let w' = merge_item w (append_piece empty p) in
      let size : length (w.bytes ++ placeholder p) ≡ length w.bytes + piece_size p =
        omega (arith, length-append w.bytes (placeholder p), length-placeholder p) in
      rw (l.write_piece empty a h.0) (
        write_items_lem vs w' h.1
        ∙ ap
            (λ v.
              with_contents v (v.bytes ++ placeholders ps)
                (v.offset_data ++ entries (length v.bytes) 32 ps))
            (merge_item-append_piece p w)
        ∙ ap₂ (with_contents w) (append_assoc w.bytes (placeholder p) (placeholders ps)) (
            append_assoc w.offset_data _ _
            ∙ ap (λ n. w.offset_data ++ (entries (length w.bytes) 32 (p ∷ []) ++ entries n 32 ps))
                size
            ∙ ap (λ t. w.offset_data ++ t) (sym (entries-cons p ps (length w.bytes) 32))))

  read_items-AtPieces :
      (vs : List A) (offset : ℕ) (r : EvmDataReader)
      → All Ok vs
      → AtPieces offset (pieces_of piece vs) r
      → read_items d (length vs) r ≡ (ok vs, skip (head_size (pieces_of piece vs)) r)
  unfolding read_items
  read_items-AtPieces [] offset r h c =
      ap (λ n. (ok [], record r { cursor = n })) (sym (add-zero r.cursor))
  read_items-AtPieces (a ∷ vs) offset r h c =
      let (here, (next, c')) =
        AtPieces-cons offset (piece a) (pieces_of piece vs) r (λ bs. l.nonempty a bs h.0) c in
      let size = piece_size (piece a) in
      rw (l.read_piece a offset r h.0 here, read_items-AtPieces vs next (skip size r) h.1 c')
        (ap (λ n. (ok (a ∷ vs), record r { cursor = n })) (add_assoc r.cursor size _))

  vec_blob_lem :
      (vs : List A)
      → IsVec Ok piece vs
      → vec_blob d vs ≡ to_be_bytes 32 (length vs) ++ layout (pieces_of piece vs)
  unfolding vec_blob
  vec_blob_lem vs (valid, _, fits) =
      let word = to_be_bytes 32 (length vs) in
      let size = length-to_be_bytes 32 (length vs) in
      rw (write_items_lem vs _ valid)
        (bake_offsets-layout (pieces_of piece vs) word 32 (sym size) fits)

  read_vec_body-Before :
      (vs : List A) (input : List ℕ)
      → IsVec Ok piece vs
      → let r : EvmDataReader = record { input = input; cursor = 0 } in
        Before (to_be_bytes 32 (length vs) ++ layout (pieces_of piece vs)) r
        → read_vec_body d r ≡ (ok vs, skip 32 r)
  unfolding read_vec_body
  read_vec_body-Before vs input (valid, counted, _) b =
      let n = length vs in
      let ps = pieces_of piece vs in
      let r : EvmDataReader = record { input = input; cursor = 0 } in
      let word = to_be_bytes 32 n in
      let (first, b') = Before-skip word (layout ps) r 32 (length-to_be_bytes 32 n) b in
      let items : Before (layout ps) (record { input = drop 32 input; cursor = 0 }) = record {
        rest = b'.rest;
        here = b'.here;
        inside = omega arith;
        fits = omega (arith, b.fits, length-drop 32 input);
      } in
      let full : ltb (length input) 32 ≡ false =
        ge→ltb (length input) 32 (omega (arith, cursor-le word first, length-to_be_bytes 32 n)) in
      rw
        (
          read_u256-Before word first n refl (omega arith),
          try_usize-ok (revert "array length is too large") n (skip 32 r) counted,
          full,
        )
        (ap (λ t. (result t, skip 32 r))
          (read_items-AtPieces vs (head_size ps) _ valid
            (layout-AtPieces ps (drop 32 input) items)))

  vec-read :
      (vs : List A) (offset : ℕ) (r : EvmDataReader)
      → IsVec Ok piece vs
      → AtPiece offset (pointed (vec_blob d vs)) r
      → (vec d).read r ≡ (ok vs, skip 32 r)
  unfolding vec
  vec-read vs offset r h c = read_pointed offset (vec_blob d vs) r c (read_vec_body d) vs (
      ap result (
        read_vec_body-Before vs (drop offset r.input) h
          (rw (vec_blob_lem vs h) at (at_offset-Before offset (vec_blob d vs) r c))))

  -- What is written for an array is read back, if its item type has this property.
  pub vec-Lawful : Lawful (vec d) (IsVec Ok piece) (vec_piece d)
  unfolding vec
  vec-Lawful = record {
    piece_static = λ vs. refl;
    write_piece = λ w vs h. refl;
    read_piece = vec-read;
    nonempty = λ vs bs h e. omega (
      arith,
      ap pointed_length e,
      ap length (vec_blob_lem vs h),
      length-append (to_be_bytes 32 (length vs)) (layout (pieces_of piece vs)),
      length-to_be_bytes 32 (length vs),
    );
  }
