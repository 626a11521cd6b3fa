-- ===== src/Abi/Reader.antt =====
-- `EvmDataReader` of precompiles/utils/src/data.rs. A method that takes `&mut self` maps the reader
-- to its result and the reader that it leaves behind, also when it fails.
use neuroweb.Prelude.{
  ℕ, ◌+◌, ◌-◌, ◌*◌, ◌%◌, ◌&&◌, Option, none, some, List, ltb, leb, if◌then◌else◌, length, take,
  drop,
}
use neuroweb.Prelude.Words.{from_be_bytes}
use neuroweb.Abi.Failure.{EvmResult, ok, err, revert, ok_or, map_err, PrecompileFailure}

-- The largest `usize`: the runtime is executed as 32-bit WebAssembly.
abbrev pub usize_max : ℕ
usize_max = 4294967295

pub record EvmDataReader : Type 0 where
  pub input : List ℕ
  pub cursor : ℕ

abbrev pub Parser {ℓ} : Type ℓ → Type ℓ
Parser A = EvmDataReader → EvmResult A × EvmDataReader

-- `?` in a method: the reader keeps what was changed before a failure.
abbrev pub continue {ℓ κ} :
    {A : Type ℓ} {B : Type κ}
    → EvmResult A × EvmDataReader
    → (A → Parser B)
    → EvmResult B × EvmDataReader
continue (ok x, r) f = f x r
continue (err e, r) f = (err e, r)

infixl 5 ◌>>=◌ ◌>>◌
abbrev pub ◌>>=◌ {ℓ κ} : {A : Type ℓ} {B : Type κ} → Parser A → (A → Parser B) → Parser B
◌>>=◌ m f r = continue (m r) f

abbrev pub ◌>>◌ {ℓ κ} : {A : Type ℓ} {B : Type κ} → Parser A → Parser B → Parser B
m >> k = m >>= λ _. k

abbrev pub pure {ℓ} : {A : Type ℓ} → A → Parser A
pure a r = (ok a, r)

abbrev pub lift {ℓ} : {A : Type ℓ} → EvmResult A → Parser A
lift a r = (a, r)

-- `map_err` on a read: the error is replaced, the reader is the one that the read left.
abbrev pub on_error {ℓ} : {A : Type ℓ} → Parser A → PrecompileFailure → Parser A
on_error m e r = let (a, r') = m r in (map_err a e, r')

-- Rust's `slice.get(start..end)`.
abbrev pub get_range : List ℕ → ℕ → ℕ → Option (List ℕ)
get_range xs start end =
    if leb start end && leb end (length xs) then some (take (end - start) (drop start xs)) else none

unfoldable pub new : List ℕ → EvmDataReader
new input = record { input = input; cursor = 0 }

-- `read_selector`: `try_from` is the conversion that `num_enum` derives for the enumeration.
unfoldable pub read_selector {ℓ} : {T : Type ℓ} → (ℕ → Option T) → List ℕ → EvmResult T
read_selector try_from input =
    if ltb (length input) 4
    then err (revert "tried to parse selector out of bounds")
    else ok_or (try_from (from_be_bytes (take 4 input))) (revert "unknown selector")

unfoldable pub new_skip_selector : List ℕ → EvmResult EvmDataReader
unfolding new
new_skip_selector input =
    if ltb (length input) 4 then err (revert "input is too short") else ok (new (drop 4 input))

-- `cursor + args * 32` is not checked, so it wraps.
unfoldable pub expect_arguments : ℕ → EvmDataReader → EvmResult (Unit {0})
expect_arguments args r =
    if leb ((r.cursor + args * 32) % (usize_max + 1)) (length r.input)
    then ok tt
    else err (revert "input doesn't match expected length")

unfoldable pub move_cursor : ℕ → Parser (ℕ × ℕ)
move_cursor len r =
    let start = r.cursor in
    let end = r.cursor + len in
    if ltb usize_max end
    then (err (revert "data reading cursor overflow"), r)
    else (ok (start, end), record r { cursor = end })

-- What every read begins with: `move_cursor(len)?`, then `input.get(range)` or the failure `e`.
unfoldable pub next_bytes : ℕ → PrecompileFailure → Parser (List ℕ)
unfolding move_cursor
next_bytes len e = do
  (start, end) ← move_cursor len
  λ r. (ok_or (get_range r.input start end) e, r)

unfoldable pub read_raw_bytes : ℕ → Parser (List ℕ)
unfolding next_bytes
read_raw_bytes len = next_bytes len (revert "tried to parse raw bytes out of bounds")

-- `self.input.len() - self.cursor` wraps where a failed read has left the cursor past the end.
unfoldable pub read_till_end : Parser (List ℕ)
unfolding next_bytes
read_till_end r =
    next_bytes ((length r.input + (usize_max + 1) - r.cursor) % (usize_max + 1))
      (revert "tried to parse raw bytes out of bounds") r

-- `U256` to `usize`.
unfoldable pub try_usize : PrecompileFailure → ℕ → Parser ℕ
try_usize e n r = (if leb n usize_max then ok n else err e, r)

-- `impl EvmData for U256`: `read`.
unfoldable pub read_u256 : Parser ℕ
unfolding next_bytes
read_u256 = do
  bytes ← next_bytes 32 (revert "tried to parse U256 out of bounds")
  pure (from_be_bytes bytes)

unfoldable pub read_pointer : Parser EvmDataReader
unfolding read_u256 try_usize
read_pointer = do
  word ← on_error read_u256 (revert "tried to parse array offset out of bounds")
  offset ← try_usize (revert "array offset is too large") word
  λ r. (
    if leb (length r.input) offset
        then err (revert "pointer points out of bounds")
        else ok (record { input = drop offset r.input; cursor = 0 }),
    r,
  )
