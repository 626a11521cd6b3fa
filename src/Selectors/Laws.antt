-- ===== src/Selectors/Laws.antt =====
-- What the two macros of precompiles/utils/macro/src/lib.rs and
-- pallets/evm-utility/macro/src/lib.rs make of an enumeration.
use Prim.Native.String.{String}
use neuroweb.Prelude.{
  ℕ, ◌<◌, ◌^◌, ◌≡◌, ◌↔◌, refl, sym, ap, subst, ◌∙◌, true, false, Option, none, some, List, [], ◌∷◌,
  take, length, length-take, All, All-take, arith,
}
use neuroweb.Prelude.Words.{from_be_bytes-lt, IsByte}
use neuroweb.Selectors.{
  Discriminant, literal_string, other_literal, other_expression, Variant, Expansion, enumeration,
  compile_error, Attribute, added_attributes, with_variant, function_selector,
  generate_function_selector, get_function_selector, consed, expand_variant, select_variant,
  evm_utility_selectors,
}

-- The variants of an expansion, without the attributes.
abbrev pub expanded : Expansion → Option (List (String × ℕ))
expanded (enumeration added items) = some items
expanded (compile_error text) = none

consed-expanded :
    (ident : String) (n : ℕ) (e : Expansion)
    → expanded (with_variant ident n e) ≡ consed ident n (expanded e)
consed-expanded ident n (enumeration added items) = refl
consed-expanded ident n (compile_error text) = refl

with_variant-inversion :
    (ident : String) (n : ℕ) (e : Expansion) (added : List Attribute) (items : List (String × ℕ))
    → with_variant ident n e ≡ enumeration added items
    → (rest : List (String × ℕ)) × (e ≡ enumeration added rest) × (items ≡ (ident, n) ∷ rest)
with_variant-inversion ident n (enumeration kept rest) added items h =
    (rest, ground arith, ground arith)
with_variant-inversion ident n (compile_error text) added items h = ground arith

module _ (digest : String → List ℕ) where
  expand_variant-expanded :
      (ident : String) (d : Option Discriminant) (e : Expansion)
      → expanded (expand_variant digest ident d e) ≡ select_variant digest ident d (expanded e)
  unfolding function_selector get_function_selector
  expand_variant-expanded ident none e = refl
  expand_variant-expanded ident (some (literal_string signature)) e =
      consed-expanded ident (function_selector digest signature) e
  expand_variant-expanded ident (some other_literal) e = refl
  expand_variant-expanded ident (some other_expression) e = refl

  -- The two macros agree on the variants: one gives an enumeration exactly if the other does not
  -- panic, with the same names and selectors in the same order, its added attributes aside.
  pub generate_function_selector-evm_utility :
      (variants : List Variant)
      → expanded (generate_function_selector digest variants)
        ≡ evm_utility_selectors digest variants
  unfolding generate_function_selector evm_utility_selectors
  generate_function_selector-evm_utility [] = refl
  generate_function_selector-evm_utility (v ∷ variants) =
      expand_variant-expanded v.ident v.discriminant (generate_function_selector digest variants)
      ∙ ap (select_variant digest v.ident v.discriminant)
          (generate_function_selector-evm_utility variants)

  -- Each item is the variant in its place, with the selector of its signature.
  abbrev pub AreSelected : List Variant → List (String × ℕ) → Type 0
  AreSelected [] [] = Unit
  AreSelected [] (item ∷ items) = true ≡ false
  AreSelected (v ∷ variants) [] = true ≡ false
  AreSelected (v ∷ variants) ((ident, n) ∷ items) =
      (ident ≡ v.ident)
      × ((signature : String) × (v.discriminant ≡ some (literal_string signature))
          × (n ≡ function_selector digest signature))
      × AreSelected variants items

  expand_variant-inversion :
      (ident : String) (d : Option Discriminant) (e : Expansion) (items : List (String × ℕ))
      → expand_variant digest ident d e ≡ enumeration added_attributes items
      → (signature : String) × (rest : List (String × ℕ)) × (d ≡ some (literal_string signature))
        × (e ≡ enumeration added_attributes rest)
        × (items ≡ (ident, function_selector digest signature) ∷ rest)
  expand_variant-inversion ident none e items h = ground arith
  expand_variant-inversion ident (some (literal_string signature)) e items h =
      let (rest, e1, e2) =
        with_variant-inversion ident (function_selector digest signature) e added_attributes items
          h in
      (signature, rest, refl, e1, e2)
  expand_variant-inversion ident (some other_literal) e items h = ground arith
  expand_variant-inversion ident (some other_expression) e items h = ground arith

  generated→AreSelected :
      (variants : List Variant) (items : List (String × ℕ))
      → generate_function_selector digest variants ≡ enumeration added_attributes items
      → AreSelected variants items
  unfolding generate_function_selector
  generated→AreSelected [] [] h = tt
  generated→AreSelected [] (item ∷ items) h = ground arith
  generated→AreSelected (v ∷ variants) items h =
      let (signature, rest, e1, e2, e3) =
        expand_variant-inversion v.ident v.discriminant (generate_function_selector digest variants)
          items h in
      subst (AreSelected (v ∷ variants)) (sym e3)
        (refl, (signature, e1, refl), generated→AreSelected variants rest e2)

  AreSelected→generated :
      (variants : List Variant) (items : List (String × ℕ))
      → AreSelected variants items
      → generate_function_selector digest variants ≡ enumeration added_attributes items
  unfolding generate_function_selector
  AreSelected→generated [] [] h = refl
  AreSelected→generated [] (item ∷ items) h = ground arith
  AreSelected→generated (v ∷ variants) [] h = ground arith
  AreSelected→generated (v ∷ variants) ((ident, n) ∷ items) (e1, (signature, e2, e3), more) =
      let ih = AreSelected→generated variants items more in rw (e2, ih, e1, e3)

  -- An enumeration is generated exactly if every variant has a signature, a literal string, and it
  -- then has the variants in their order, each with the selector of its signature.
  pub generate_function_selector_iff :
      (variants : List Variant) (items : List (String × ℕ))
      → (generate_function_selector digest variants ≡ enumeration added_attributes items)
        ↔ AreSelected variants items
  generate_function_selector_iff variants items =
      (generated→AreSelected variants items, AreSelected→generated variants items)

  -- A selector has 32 bits, if the digest is 32 bytes.
  pub function_selector-bounded :
      (signature : String)
      → length (digest signature) ≡ 32
      → All IsByte (digest signature)
      → function_selector digest signature < 2 ^ 32
  unfolding function_selector
  function_selector-bounded signature size bytes =
      let first = take 4 (digest signature) in
      let four : length first ≡ 4 = omega (arith, length-take 4 (digest signature), size) in
      omega (
        arith,
        from_be_bytes-lt first (All-take IsByte 4 (digest signature) bytes),
        ap (λ n. 256 ^ n) four,
      )
