-- ===== src/Abi/Types.antt =====
-- The trait `EvmData` of precompiles/utils/src/data.rs and its implementations.
use Prim.Native.String.{String}
use neuroweb.Prelude.{
  ℕ, zero, suc, ◌+◌, ◌-◌, ◌*◌, ◌/◌, ◌%◌, Bool, true, false, not, ◌&&◌, List, [], ◌∷◌, ◌++◌, ltb,
  nat_eq, if◌then◌else◌, length, take, drop, replicate,
}
use neuroweb.Prelude.Words.{to_be_bytes, from_be_bytes}
use neuroweb.Abi.Failure.{EvmResult, err, revert}
use neuroweb.Abi.Reader.{
  EvmDataReader, Parser, ◌>>=◌, pure, lift, on_error, next_bytes, try_usize, read_u256,
  read_pointer,
}
use neuroweb.Abi.Writer.{OffsetDatum, EvmDataWriter, empty, build, write_raw_bytes, write_pointer}

pub record EvmData {ℓ} (A : Type ℓ) : Type ℓ where
  pub read : Parser A
  pub write : EvmDataWriter → A → EvmDataWriter
  pub has_static_size : Bool

-- A read on a reader of its own, which is dropped afterwards.
abbrev pub run {ℓ} : {A : Type ℓ} → Parser A → EvmDataReader → EvmResult A
run m r = (m r).0

-- `H256`, as its 32 bytes.
unfoldable pub h256 : EvmData (List ℕ)
unfolding next_bytes write_raw_bytes
h256 = record {
  read = next_bytes 32 (revert "tried to parse H256 out of bounds");
  write = write_raw_bytes;
  has_static_size = true;
}

-- `H160` to `H256`.
abbrev pub pad_address : List ℕ → List ℕ
pad_address address = replicate 12 0 ++ address

-- `Address`, as the 20 bytes of its `H160`.
unfoldable pub address : EvmData (List ℕ)
unfolding next_bytes write_raw_bytes
address = record {
  read = do
    word ← next_bytes 32 (revert "tried to parse H160 out of bounds")
    pure (take 20 (drop 12 word));
  write = λ w value. write_raw_bytes w (pad_address value);
  has_static_size = true;
}

unfoldable pub u256 : EvmData ℕ
unfolding read_u256 write_raw_bytes
u256 = record {
  read = read_u256;
  write = λ w value. write_raw_bytes w (to_be_bytes 32 value);
  has_static_size = true;
}

-- `impl_evmdata_for_uints!`, for an unsigned type of `size` bytes; `failure` carries the type's name.
unfoldable pub uint : ℕ → String → EvmData ℕ
unfolding next_bytes write_raw_bytes
uint size failure = record {
  read = do
    word ← next_bytes 32 (revert failure)
    pure (from_be_bytes (drop (32 - size) word));
  write = λ w value. write_raw_bytes w (replicate (32 - size) 0 ++ to_be_bytes size value);
  has_static_size = true;
}

unfoldable pub u16 : EvmData ℕ
unfolding uint
u16 = uint 2 "tried to parse u16 out of bounds"

unfoldable pub u32 : EvmData ℕ
unfolding uint
u32 = uint 4 "tried to parse u32 out of bounds"

unfoldable pub u64 : EvmData ℕ
unfolding uint
u64 = uint 8 "tried to parse u64 out of bounds"

unfoldable pub u128 : EvmData ℕ
unfolding uint
u128 = uint 16 "tried to parse u128 out of bounds"

-- `data[31]`
abbrev pub last_byte : List ℕ → ℕ
last_byte word = elim (drop 31 word) [ [] ↦ 0 | b ∷ _ ↦ b ]

unfoldable pub u8 : EvmData ℕ
unfolding next_bytes write_raw_bytes
u8 = record {
  read = do
    word ← next_bytes 32 (revert "tried to parse u64 out of bounds")
    pure (last_byte word);
  write = λ w value. write_raw_bytes w (replicate 31 0 ++ (value ∷ []));
  has_static_size = true;
}

abbrev pub is_zero : List ℕ → Bool
is_zero [] = true
is_zero (b ∷ bs) = nat_eq b 0 && is_zero bs

unfoldable pub bool : EvmData Bool
unfolding h256 write_raw_bytes
bool = record {
  read = do
    word ← on_error h256.read (revert "tried to parse bool out of bounds")
    pure (not (is_zero word));
  write = λ w value. write_raw_bytes w (replicate 31 0 ++ ((if value then 1 else 0) ∷ []));
  has_static_size = true;
}

-- `vec.resize(padded_size, 0)`, to the next multiple of 32.
unfoldable pub padded_size : ℕ → ℕ
padded_size length =
    let chunks = length / 32 in if nat_eq (length % 32) 0 then chunks * 32 else (chunks + 1) * 32

abbrev pub resize : List ℕ → ℕ → List ℕ
resize value size = take size value ++ replicate (size - length value) 0

-- What follows the pointer to a `Bytes`.
unfoldable pub read_bytes_body : Parser (List ℕ)
unfolding read_u256 try_usize next_bytes
read_bytes_body = do
  word ← on_error read_u256 (revert "tried to parse bytes/string length out of bounds")
  array_size ← try_usize (revert "bytes/string length is too large") word
  next_bytes array_size (revert "tried to parse bytes/string out of bounds")

unfoldable pub bytes_blob : List ℕ → List ℕ
unfolding u256 write_raw_bytes build empty padded_size
bytes_blob value =
    build (
      write_raw_bytes (u256.write empty (length value)) (resize value (padded_size (length value))))

-- `Bytes`: tightly packed, behind a pointer.
unfoldable pub bytes : EvmData (List ℕ)
unfolding read_bytes_body bytes_blob read_pointer write_pointer
bytes = record {
  read = do
    inner ← read_pointer
    lift (run read_bytes_body inner);
  write = λ w value. write_pointer w (bytes_blob value);
  has_static_size = false;
}

-- The offsets of an item, moved to its place among the items.
abbrev pub rebase : ℕ → List OffsetDatum → List OffsetDatum
rebase shift [] = []
rebase shift (o ∷ os) =
    record o { offset_position = o.offset_position + shift; offset_shift = o.offset_shift + 32 }
    ∷ rebase shift os

-- The round of the loop over the items, once the item has been written to its own writer.
unfoldable pub merge_item : EvmDataWriter → EvmDataWriter → EvmDataWriter
unfolding write_raw_bytes
merge_item inner item_writer =
    let shift = length inner.bytes in
    let inner' = write_raw_bytes inner item_writer.bytes in
    record inner' { offset_data = inner'.offset_data ++ rebase shift item_writer.offset_data }

module _ {ℓ} {A : Type ℓ} (item : EvmData A) where
  -- `for _ in 0..array_size`
  unfoldable pub read_items : ℕ → Parser (List A)
  read_items zero = pure []
  read_items (suc n) = do a ← item.read; rest ← read_items n; pure (a ∷ rest)

  unfoldable pub read_vec_body : Parser (List A)
  unfolding read_u256 try_usize read_items
  read_vec_body = do
    word ← on_error read_u256 (revert "tried to parse array length out of bounds")
    array_size ← try_usize (revert "array length is too large") word
    λ r. (
      if ltb (length r.input) 32
          then err (revert "try to read array items out of bound")
          else run (read_items array_size) (record { input = drop 32 r.input; cursor = 0 }),
      r,
    )

  unfoldable pub write_item : EvmDataWriter → A → EvmDataWriter
  unfolding empty merge_item
  write_item inner value = merge_item inner (item.write empty value)

  unfoldable pub write_items : EvmDataWriter → List A → EvmDataWriter
  unfolding write_item
  write_items inner [] = inner
  write_items inner (a ∷ as') = write_items (write_item inner a) as'

  unfoldable pub vec_blob : List A → List ℕ
  unfolding u256 empty build write_items
  vec_blob value = build (write_items (u256.write empty (length value)) value)

  -- `Vec<T>`
  unfoldable pub vec : EvmData (List A)
  unfolding read_vec_body vec_blob read_pointer write_pointer
  vec = record {
    read = do
      inner ← read_pointer
      lift (run read_vec_body inner);
    write = λ w value. write_pointer w (vec_blob value);
    has_static_size = false;
  }

-- The fields of a tuple in order: `impl_for_tuples` writes out one read and one write for each.
pub record EvmFields {ℓ} (A : Type ℓ) : Type ℓ where
  pub read_fields : Parser A
  pub write_fields : EvmDataWriter → A → EvmDataWriter
  pub all_static : Bool

abbrev pub last {ℓ} : {A : Type ℓ} → EvmData A → EvmFields A
last d = record { read_fields = d.read; write_fields = d.write; all_static = d.has_static_size }

abbrev pub field {ℓ κ} : {A : Type ℓ} {B : Type κ} → EvmData A → EvmFields B → EvmFields (A × B)
field d fs = record {
  read_fields = do
    a ← d.read
    b ← fs.read_fields
    pure (a, b);
  write_fields = λ w (a, b). fs.write_fields (d.write w a) b;
  all_static = d.has_static_size && fs.all_static;
}

unfoldable pub tuple_blob {ℓ} : {A : Type ℓ} → EvmFields A → A → List ℕ
unfolding build empty
tuple_blob fs value = build (fs.write_fields empty value)

unfoldable pub tuple {ℓ} : {A : Type ℓ} → EvmFields A → EvmData A
unfolding read_pointer write_pointer tuple_blob
tuple fs = record {
  read =
      if fs.all_static
      then fs.read_fields
      else (do inner ← read_pointer; lift (run fs.read_fields inner));
  write = λ w value.
      if fs.all_static then fs.write_fields w value else write_pointer w (tuple_blob fs value);
  has_static_size = fs.all_static;
}
