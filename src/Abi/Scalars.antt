-- ===== src/Abi/Scalars.antt =====
-- The types of one word keep the contract: `H256`, `Address`, `U256`, the unsigned integers and `bool`
-- of precompiles/utils/src/data.rs.
use Prim.Native.String.{String}
use neuroweb.Prelude.{
  ℕ, ◌-◌, ◌^◌, ◌≤◌, ◌<◌, ◌≡◌, refl, sym, ap, ap₂, ◌∙◌, Bool, true, false, List, [], ◌∷◌, ◌++◌,
  append-nil, arith, length, length-append, length-replicate, replicate, take, drop, drop-append,
  take-append, if◌then◌else◌,
}
use neuroweb.Prelude.Words.{
  to_be_bytes, from_be_bytes, length-to_be_bytes, from_be_bytes-to_be_bytes,
}
use neuroweb.Abi.Failure.{ok, revert, PrecompileFailure}
use neuroweb.Abi.Reader.{EvmDataReader, ◌>>=◌, pure, next_bytes}
use neuroweb.Abi.Layout.{Piece, inline}
use neuroweb.Abi.Words.{Before, skip, next_bytes-Before, read_u256-Before}
use neuroweb.Abi.Types.{h256, address, u256, uint, u8, bool, pad_address, last_byte}
use neuroweb.Abi.Lawful.{Lawful}

abbrev IsH256 : List ℕ → Type 0
IsH256 v = length v ≡ 32

abbrev pub IsAddress : List ℕ → Type 0
IsAddress v = length v ≡ 20

abbrev pub IsU256 : ℕ → Type 0
IsU256 v = v < 2 ^ 256

abbrev pub IsUint : ℕ → ℕ → Type 0
IsUint size v = v < 256 ^ size

abbrev pub address_piece : List ℕ → Piece
address_piece a = inline (pad_address a)

abbrev pub u256_piece : ℕ → Piece
u256_piece v = inline (to_be_bytes 32 v)

abbrev pub uint_piece : ℕ → ℕ → Piece
uint_piece size v = inline (replicate (32 - size) 0 ++ to_be_bytes size v)

abbrev pub u8_piece : ℕ → Piece
u8_piece v = inline (replicate 31 0 ++ (v ∷ []))

abbrev pub bool_piece : Bool → Piece
bool_piece v = inline (replicate 31 0 ++ ((if v then 1 else 0) ∷ []))

-- A read of one word that decodes it by `f`.
pub decode-Before {ℓ} :
    {A : Type ℓ} (word : List ℕ) (r : EvmDataReader) (e : PrecompileFailure) (f : List ℕ → A)
    (v : A)
    → Before word r
    → length word ≡ 32
    → f word ≡ v
    → (next_bytes 32 e >>= λ w. pure (f w)) r ≡ (ok v, skip (length word) r)
decode-Before word r e f v b size h =
    rw (next_bytes-Before word b 32 e size) (ap₂ (λ t n. (ok t, skip n r)) h (sym size))

pub h256-Lawful : Lawful h256 IsH256 inline
unfolding h256
h256-Lawful = record {
  piece_static = λ a. refl;
  write_piece = λ w a h. refl;
  read_piece = λ a offset r h b. rw (← h) (next_bytes-Before a b (length a) _ refl);
  nonempty = λ a bs h e. cc;
}

pub address-Lawful : Lawful address IsAddress address_piece
unfolding address
address-Lawful = record {
  piece_static = λ a. refl;
  write_piece = λ w a h. refl;
  read_piece = λ a offset r h b.
      decode-Before (pad_address a) r _ (λ w. take 20 (drop 12 w)) a b (omega arith)
        (ap (take 20) (drop-append 12 (replicate 12 0) a refl)
          ∙ ap (take 20) (sym (append-nil a))
          ∙ take-append 20 a [] h);
  nonempty = λ a bs h e. cc;
}

pub u256-Lawful : Lawful u256 IsU256 u256_piece
unfolding u256
u256-Lawful = record {
  piece_static = λ v. refl;
  write_piece = λ w v h. refl;
  read_piece = λ v offset r h b.
      read_u256-Before (to_be_bytes 32 v) b v refl (omega arith)
      ∙ ap (λ n. (ok v, skip n r)) (sym (length-to_be_bytes 32 v));
  nonempty = λ a bs h e. cc;
}

-- What is written for an unsigned integer of at most 32 bytes is read back.
pub uint-Lawful :
    (size : ℕ) (failure : String)
    → size ≤ 32
    → Lawful (uint size failure) (IsUint size) (uint_piece size)
unfolding uint
uint-Lawful size failure h = record {
  piece_static = λ v. refl;
  write_piece = λ w v ok_v. refl;
  read_piece = λ v offset r ok_v b.
      let zeros = replicate (32 - size) 0 in
      let word = zeros ++ to_be_bytes size v in
      let full : length word ≡ 32 = omega (
        arith,
        length-append zeros (to_be_bytes size v),
        length-replicate {A = ℕ} (32 - size) 0,
        length-to_be_bytes size v,
      ) in
      decode-Before word r _ (λ w. from_be_bytes (drop (32 - size) w)) v b full
        (ap from_be_bytes
            (drop-append (32 - size) zeros (to_be_bytes size v) (length-replicate {A = ℕ} _ 0))
          ∙ from_be_bytes-to_be_bytes size v ok_v);
  nonempty = λ a bs h e. cc;
}

pub u8-Lawful : Lawful u8 (IsUint 1) u8_piece
unfolding u8
u8-Lawful = record {
  piece_static = λ v. refl;
  write_piece = λ w v ok_v. refl;
  read_piece =
      λ v offset r ok_v b. decode-Before (replicate 31 0 ++ (v ∷ [])) r _ last_byte v b refl refl;
  nonempty = λ a bs h e. cc;
}

read_flag :
    (v : Bool) (r : EvmDataReader)
    → Before (replicate 31 0 ++ ((if v then 1 else 0) ∷ [])) r
    → bool.read r ≡ (ok v, skip 32 r)
unfolding bool
read_flag true r b = rw (next_bytes-Before _ b 32 (revert "tried to parse H256 out of bounds") refl)
read_flag false r b =
    rw (next_bytes-Before _ b 32 (revert "tried to parse H256 out of bounds") refl)

pub bool-Lawful : Lawful bool (λ _. Unit) bool_piece
unfolding bool
bool-Lawful = record {
  piece_static = λ v. refl;
  write_piece = λ w v ok_v. refl;
  read_piece = λ v offset r ok_v b. read_flag v r b;
  nonempty = λ a bs h e. cc;
}
