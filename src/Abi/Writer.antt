-- ===== src/Abi/Writer.antt =====
-- `EvmDataWriter` of precompiles/utils/src/data.rs. The source's field `data` is `bytes` here, in the
-- writer and in `OffsetDatum`.
use neuroweb.Prelude.{
  ℕ, ◌+◌, ◌-◌, ◌%◌, Option, none, some, List, [], ◌∷◌, ◌++◌, length, take, drop, replicate,
}
use neuroweb.Prelude.Words.{to_be_bytes}
use neuroweb.Abi.Reader.{usize_max}

pub record OffsetDatum : Type 0 where
  pub offset_position : ℕ
  pub bytes : List ℕ
  pub offset_shift : ℕ

pub record EvmDataWriter : Type 0 where
  pub bytes : List ℕ
  pub offset_data : List OffsetDatum
  pub selector : Option ℕ

unfoldable pub empty : EvmDataWriter
empty = record { bytes = []; offset_data = []; selector = none }

unfoldable pub new_with_selector : ℕ → EvmDataWriter
new_with_selector selector = record { bytes = []; offset_data = []; selector = some selector }

-- `to_big_endian(&mut output[position..position + 32])`. The range lies in the output: a writer
-- records only positions of words that it has written. (Rust panics outside.)
unfoldable pub overwrite_word : List ℕ → ℕ → ℕ → List ℕ
overwrite_word output position word =
    take position output ++ (to_be_bytes 32 word ++ drop (position + 32) output)

-- `output.len() - offset_shift`, on `usize`.
unfoldable pub free_space_offset : List ℕ → ℕ → ℕ
free_space_offset output shift = (length output + (usize_max + 1) - shift) % (usize_max + 1)

unfoldable pub bake_offsets : List ℕ → List OffsetDatum → List ℕ
bake_offsets output [] = output
bake_offsets output (o ∷ offsets) =
    bake_offsets
      (overwrite_word output o.offset_position (free_space_offset output o.offset_shift) ++ o.bytes)
      offsets

abbrev pub selector_bytes : Option ℕ → List ℕ
selector_bytes none = []
selector_bytes (some selector) = to_be_bytes 4 selector

unfoldable pub build : EvmDataWriter → List ℕ
unfolding bake_offsets
build w = selector_bytes w.selector ++ bake_offsets w.bytes w.offset_data

unfoldable pub write_raw_bytes : EvmDataWriter → List ℕ → EvmDataWriter
write_raw_bytes w value = record w { bytes = w.bytes ++ value }

-- `H256::repeat_byte(0xff)`
unfoldable pub dummy_word : List ℕ
dummy_word = replicate 32 0xff

-- A dummy word of 0xff bytes now, the data when `build` is called.
unfoldable pub write_pointer : EvmDataWriter → List ℕ → EvmDataWriter
unfolding dummy_word
write_pointer w pointed = record w {
  bytes = w.bytes ++ dummy_word;
  offset_data =
      w.offset_data
      ++ (record { offset_position = length w.bytes; bytes = pointed; offset_shift = 0 } ∷ []);
}
