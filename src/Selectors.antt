-- ===== src/Selectors.antt =====
-- The macros `generate_function_selector` of precompiles/utils/macro/src/lib.rs and of
-- pallets/evm-utility/macro/src/lib.rs with pallets/evm-utility/src/lib.rs: the discriminants of an
-- enumeration of Solidity functions. Keccak is a parameter; an item is the list of its variants.
pub mod Laws
mod Tests
use Prim.Native.String.{String}
use neuroweb.Prelude.{ℕ, Option, none, some, List, [], ◌∷◌, take}
use neuroweb.Prelude.Words.{from_be_bytes}

-- The expression after `=`, as far as the macros look at it.
pub data Discriminant : Type 0 where
  literal_string : String → Discriminant
  other_literal : Discriminant
  other_expression : Discriminant

pub record Variant : Type 0 where
  pub ident : String
  pub discriminant : Option Discriminant

-- What the macro adds before the enumeration.
pub data Attribute : Type 0 where
  derive : String → Attribute
  repr : String → Attribute

-- The enumeration with its new attributes and with numbers in place of the signatures, or an error at
-- compile time.
pub data Expansion : Type 0 where
  enumeration : List Attribute → List (String × ℕ) → Expansion
  compile_error : String → Expansion

abbrev pub with_variant : String → ℕ → Expansion → Expansion
with_variant ident n (enumeration added rest) = enumeration added ((ident, n) ∷ rest)
with_variant ident n (compile_error text) = compile_error text

-- `#[derive(..)]` and `#[repr(u32)]` of the precompiles' macro.
abbrev pub added_attributes : List Attribute
added_attributes =
    derive "num_enum::TryFromPrimitive" ∷ derive "num_enum::IntoPrimitive" ∷ repr "u32" ∷ []

module _ (digest : String → List ℕ) where
  -- `u32::from_be_bytes(Keccak256::digest(..)[..4])`
  unfoldable pub function_selector : String → ℕ
  function_selector signature = from_be_bytes (take 4 (digest signature))

  -- One turn of the loop, before the rest.
  abbrev pub expand_variant : String → Option Discriminant → Expansion → Expansion
  expand_variant ident none rest = compile_error "Each variant must have a discriminant"
  expand_variant ident (some (literal_string signature)) rest =
      with_variant ident (function_selector signature) rest
  expand_variant ident (some other_literal) rest = compile_error "Expected literal string"
  expand_variant ident (some other_expression) rest = compile_error "Expected literal"

  -- `generate_function_selector` of the precompiles: the first variant that is not as expected ends it.
  unfoldable pub generate_function_selector : List Variant → Expansion
  generate_function_selector [] = enumeration added_attributes []
  generate_function_selector (v ∷ variants) =
      expand_variant v.ident v.discriminant (generate_function_selector variants)

abbrev pub consed : String → ℕ → Option (List (String × ℕ)) → Option (List (String × ℕ))
consed ident n none = none
consed ident n (some rest) = some ((ident, n) ∷ rest)

-- The twin of the pallets, which panics instead, and adds no attribute.
module _ (sha3_256 : String → List ℕ) where
  unfoldable pub get_function_selector : String → ℕ
  get_function_selector s = from_be_bytes (take 4 (sha3_256 s))

  abbrev pub select_variant :
      String → Option Discriminant → Option (List (String × ℕ)) → Option (List (String × ℕ))
  select_variant ident none rest = none
  select_variant ident (some (literal_string signature)) rest =
      consed ident (get_function_selector signature) rest
  select_variant ident (some other_literal) rest = none
  select_variant ident (some other_expression) rest = none

  unfoldable pub evm_utility_selectors : List Variant → Option (List (String × ℕ))
  evm_utility_selectors [] = some []
  evm_utility_selectors (v ∷ variants) =
      select_variant v.ident v.discriminant (evm_utility_selectors variants)
