-- ===== src/Abi/Layout.antt =====
-- What the offsets of a writer become when it is built (`bake_offsets` of
-- precompiles/utils/src/data.rs): heads first, then the data that they point to.
use neuroweb.Prelude.{
  ℕ, ◌+◌, ◌-◌, ◌≤◌, ◌≡◌, refl, sym, ap, ◌∙◌, List, [], ◌∷◌, ◌++◌, append-nil, append_assoc, arith,
  length, length-append, take-append, drop-append, drop-add,
}
use neuroweb.Prelude.Words.{to_be_bytes, length-to_be_bytes}
use neuroweb.Abi.Reader.{usize_max}
use neuroweb.Abi.Writer.{OffsetDatum, dummy_word, bake_offsets, overwrite_word, free_space_offset}

-- A value as it stands in its container: in place, or behind a pointer.
pub data Piece : Type 0 where
  inline : List ℕ → Piece
  pointed : List ℕ → Piece

abbrev pub piece_size : Piece → ℕ
piece_size (inline bs) = length bs
piece_size (pointed bs) = 32

-- The number of bytes that a piece brings behind the heads.
abbrev pub pointed_length : Piece → ℕ
pointed_length (inline bs) = 0
pointed_length (pointed bs) = length bs

abbrev pub head_size : List Piece → ℕ
head_size [] = 0
head_size (p ∷ ps) = piece_size p + head_size ps

abbrev pub placeholder : Piece → List ℕ
placeholder (inline bs) = bs
placeholder (pointed bs) = dummy_word

abbrev pub placeholders : List Piece → List ℕ
placeholders [] = []
placeholders (p ∷ ps) = placeholder p ++ placeholders ps

abbrev pub entries : ℕ → ℕ → List Piece → List OffsetDatum
entries position shift [] = []
entries position shift (inline bs ∷ ps) = entries (position + length bs) shift ps
entries position shift (pointed bs ∷ ps) =
    record { offset_position = position; bytes = bs; offset_shift = shift }
    ∷ entries (position + 32) shift ps

-- The heads, where the first of the pointed data lies at `offset`.
abbrev pub heads : ℕ → List Piece → List ℕ
heads offset [] = []
heads offset (inline bs ∷ ps) = bs ++ heads offset ps
heads offset (pointed bs ∷ ps) = to_be_bytes 32 offset ++ heads (offset + length bs) ps

abbrev pub tails : List Piece → List ℕ
tails [] = []
tails (inline bs ∷ ps) = tails ps
tails (pointed bs ∷ ps) = bs ++ tails ps

abbrev pub layout : List Piece → List ℕ
layout ps = heads (head_size ps) ps ++ tails ps

pub length-dummy_word : length dummy_word ≡ 32
unfolding dummy_word
length-dummy_word = refl

pub length-placeholders : (ps : List Piece) → length (placeholders ps) ≡ head_size ps
length-placeholders [] = refl
length-placeholders (inline bs ∷ ps) =
    omega (arith, length-append bs (placeholders ps), length-placeholders ps)
length-placeholders (pointed bs ∷ ps) =
    omega
      (arith, length-append dummy_word (placeholders ps), length-dummy_word, length-placeholders ps)

pub length-heads : (offset : ℕ) (ps : List Piece) → length (heads offset ps) ≡ head_size ps
length-heads offset [] = refl
length-heads offset (inline bs ∷ ps) =
    omega (arith, length-append bs (heads offset ps), length-heads offset ps)
length-heads offset (pointed bs ∷ ps) = omega (
  arith,
  length-append (to_be_bytes 32 offset) (heads (offset + length bs) ps),
  length-to_be_bytes 32 offset,
  length-heads (offset + length bs) ps,
)

pub entries-cons :
    (p : Piece) (ps : List Piece) (position shift : ℕ)
    → entries position shift (p ∷ ps)
      ≡ entries position shift (p ∷ []) ++ entries (position + piece_size p) shift ps
entries-cons (inline bs) ps position shift = refl
entries-cons (pointed bs) ps position shift = refl

pub length-placeholder : (p : Piece) → length (placeholder p) ≡ piece_size p
length-placeholder (inline bs) = refl
length-placeholder (pointed bs) = length-dummy_word

-- One word of 32 bytes in the middle is replaced.
overwrite_word-middle :
    (front old rest : List ℕ) (position word : ℕ)
    → length front ≡ position
    → length old ≡ 32
    → overwrite_word (front ++ (old ++ rest)) position word ≡ front ++ (to_be_bytes 32 word ++ rest)
unfolding overwrite_word
overwrite_word-middle front old rest position word hf ho = rw (
  drop-add position 32 (front ++ (old ++ rest)),
  drop-append position front (old ++ rest) hf,
  take-append position front (old ++ rest) hf,
  drop-append 32 old rest ho,
)

free_space_offset_lem :
    (output : List ℕ) (shift : ℕ)
    → shift ≤ length output
    → length output ≤ usize_max
    → free_space_offset output shift ≡ length output - shift
unfolding free_space_offset
free_space_offset_lem output shift h k = omega arith

-- The whole of a container whose heads are still dummies.
length-container :
    (done late : List ℕ) (ps : List Piece)
    → length (done ++ (placeholders ps ++ late)) ≡ length done + head_size ps + length late
length-container done late ps = omega (
  arith,
  length-append done (placeholders ps ++ late),
  length-append (placeholders ps) late,
  length-placeholders ps,
)

-- One round of `bake_offsets`: the dummy word becomes the offset, the data goes to the end.
bake_word :
    (bs done late : List ℕ) (ps : List Piece) (position shift word : ℕ)
    → length done ≡ position
    → shift ≤ position
    → position + (32 + head_size ps) + length late ≤ usize_max
    → word ≡ position + (32 + head_size ps) + length late - shift
    → let output = done ++ (placeholders (pointed bs ∷ ps) ++ late) in
      overwrite_word output position (free_space_offset output shift)
      ≡ done ++ (to_be_bytes 32 word ++ (placeholders ps ++ late))
bake_word bs done late ps position shift word hd hs fits hw =
    let output = done ++ (placeholders (pointed bs ∷ ps) ++ late) in
    let size : length output ≡ position + (32 + head_size ps) + length late =
      omega (arith, length-container done late (pointed bs ∷ ps)) in
    let free : free_space_offset output shift ≡ word =
      free_space_offset_lem output shift (omega arith) (omega arith) ∙ omega arith in
    ap (overwrite_word output position) free
    ∙ ap (λ t. overwrite_word (done ++ t) position word) (append_assoc dummy_word _ late)
    ∙ overwrite_word-middle done dummy_word (placeholders ps ++ late) position word hd
        length-dummy_word

-- `done` is the part of the output before the pieces, `late` what was appended behind them already.
pub bake_offsets-entries :
    (ps : List Piece) (done late : List ℕ) (position shift : ℕ)
    → length done ≡ position
    → shift ≤ position
    → position + head_size ps + length late + length (tails ps) ≤ usize_max
    → bake_offsets (done ++ (placeholders ps ++ late)) (entries position shift ps)
      ≡ done ++ (heads (position + head_size ps + length late - shift) ps ++ (late ++ tails ps))
unfolding bake_offsets
bake_offsets-entries [] done late position shift hd hs fits = simp append-nil
bake_offsets-entries (inline bs ∷ ps) done late position shift hd hs fits =
    let moved : length (done ++ bs) ≡ position + length bs = omega (arith, length-append done bs) in
    let same : position + (length bs + head_size ps) + length late - shift
        ≡ position + length bs + head_size ps + length late - shift =
      omega arith in
    simp (same, append_assoc)
      (simp append_assoc at (
        bake_offsets-entries ps (done ++ bs) late (position + length bs) shift moved (omega arith)
          (omega arith)))
bake_offsets-entries (pointed bs ∷ ps) done late position shift hd hs fits =
    let word = position + (32 + head_size ps) + length late - shift in
    let head = to_be_bytes 32 word in
    let moved : length (done ++ head) ≡ position + 32 =
      omega (arith, length-append done head, length-to_be_bytes 32 word) in
    let same : position + 32 + head_size ps + length (late ++ bs) - shift ≡ word + length bs =
      omega (arith, length-append late bs) in
    ap (λ o. bake_offsets (o ++ bs) (entries (position + 32) shift ps))
      (bake_word bs done late ps position shift word hd hs (omega arith) refl)
    ∙ simp append_assoc (
        simp (same, append_assoc) at
          (bake_offsets-entries ps (done ++ head) (late ++ bs) (position + 32) shift moved
            (omega arith) (omega (arith, length-append late bs, length-append bs (tails ps)))))

-- A container that begins with `done` and then has the heads of its pieces is, once its offsets are
-- baked, `done` and the layout of the pieces, if it fits the memory.
pub bake_offsets-layout :
    (ps : List Piece) (done : List ℕ) (shift : ℕ)
    → shift ≡ length done
    → shift + length (layout ps) ≤ usize_max
    → bake_offsets (done ++ placeholders ps) (entries (length done) shift ps) ≡ done ++ layout ps
bake_offsets-layout ps done shift hs fits =
    let size : length (layout ps) ≡ head_size ps + length (tails ps) =
      omega (
        arith,
        length-append (heads (head_size ps) ps) (tails ps),
        length-heads (head_size ps) ps,
      ) in
    let first : length done + head_size ps + 0 - shift ≡ head_size ps = omega arith in
    ap (λ t. bake_offsets (done ++ t) (entries (length done) shift ps)) (sym (append-nil _))
    ∙ bake_offsets-entries ps done [] (length done) shift refl (omega arith) (omega arith)
    ∙ ap (λ t. done ++ (heads t ps ++ tails ps)) first
