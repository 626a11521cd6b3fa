-- ===== src/Selectors/Tests.antt =====
-- The selector macros at a small enumeration.
use Prim.Native.String.{String}
use neuroweb.Prelude.{ℕ, ◌≡◌, ◌↔◌, refl, none, some, List, [], ◌∷◌, replicate}
use neuroweb.Selectors.{
  literal_string, other_literal, Variant, enumeration, added_attributes, compile_error,
  generate_function_selector, evm_utility_selectors,
}
use neuroweb.Selectors.Laws.{
  expanded, AreSelected, generate_function_selector-evm_utility, generate_function_selector_iff,
}

-- A digest that begins with the bytes of `totalSupply()`.
abbrev digest : String → List ℕ
digest signature = 0x18 ∷ 0x16 ∷ 0x0d ∷ 0xdd ∷ replicate 28 7

abbrev variants : List Variant
variants =
    record { ident = "TotalSupply"; discriminant = some (literal_string "totalSupply()") } ∷ []

abbrev broken : List Variant
broken =
    record { ident = "Name"; discriminant = none }
    ∷ record { ident = "Symbol"; discriminant = some other_literal }
    ∷ []

-- A run: the first error is reported.
first_error :
    generate_function_selector digest broken ≡ compile_error "Each variant must have a discriminant"
unfolding generate_function_selector
first_error = refl

generate_function_selector-evm_utility_example :
    expanded (generate_function_selector digest variants) ≡ evm_utility_selectors digest variants
generate_function_selector-evm_utility_example =
    generate_function_selector-evm_utility digest variants

generate_function_selector_example :
    (generate_function_selector digest variants
      ≡ enumeration added_attributes (("TotalSupply", 0x18160ddd) ∷ []))
    ↔ AreSelected digest variants (("TotalSupply", 0x18160ddd) ∷ [])
generate_function_selector_example =
    generate_function_selector_iff digest variants (("TotalSupply", 0x18160ddd) ∷ [])
