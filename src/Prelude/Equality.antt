-- ===== src/Prelude/Equality.antt =====
-- Types whose values the program compares: `==` with the law that it decides equality.
use Prim.Native.Nat.{ℕ}
use mathlib.Core.Path.{◌≡◌, refl}
use mathlib.Core.Logic.{◌≢◌, ◌↔◌}
use mathlib.Core.Bool.{Bool, true, false, ◌&&◌}
use mathlib.Core.List.{List, [], ◌∷◌}
use native.Mathlib.Omega.{arith}
use neuroweb.Prelude.Tests.{nat_eq, nat_eq_iff}

-- What a key of a storage map needs.
pub record Eq {ℓ} (K : Type ℓ) : Type ℓ where
  pub beq : K → K → Bool
  pub beq_iff : (x y : K) → (beq x y ≡ true) ↔ (x ≡ y)

instance abbrev pub nat_instance : Eq ℕ
nat_instance = record { beq = nat_eq; beq_iff = nat_eq_iff }

abbrev pub bytes_eq : List ℕ → List ℕ → Bool
bytes_eq [] [] = true
bytes_eq [] (y ∷ ys) = false
bytes_eq (x ∷ xs) [] = false
bytes_eq (x ∷ xs) (y ∷ ys) = nat_eq x y && bytes_eq xs ys

pub bytes_eq_iff : (a b : List ℕ) → (bytes_eq a b ≡ true) ↔ (a ≡ b)
bytes_eq_iff [] [] = ground arith
bytes_eq_iff [] (y ∷ ys) = ground arith
bytes_eq_iff (x ∷ xs) [] = ground arith
bytes_eq_iff (x ∷ xs) (y ∷ ys) = ground (arith, bytes_eq_iff xs ys)

instance abbrev pub bytes_instance : Eq (List ℕ)
bytes_instance = record { beq = bytes_eq; beq_iff = bytes_eq_iff }

module _ {ℓ} {K : Type ℓ} ⦃key : Eq K⦄ where
  infix 50 ◌==◌
  abbrev pub ◌==◌ : K → K → Bool
  x == y = key.beq x y

  pub eq→beq : (x y : K) → x ≡ y → (x == y) ≡ true
  eq→beq x y same = (key.beq_iff x y).1 same

  pub beq→eq : (x y : K) → (x == y) ≡ true → x ≡ y
  beq→eq x y h = (key.beq_iff x y).0 h

  pub beq_refl : (x : K) → (x == x) ≡ true
  beq_refl x = eq→beq x x refl

  pub ne→beq : (x y : K) → x ≢ y → (x == y) ≡ false
  ne→beq x y other = ground (arith, key.beq_iff x y)

-- `Vec<K>: PartialEq`
module _ {ℓ} {K : Type ℓ} (same : K → K → Bool) where
  abbrev pub list_eq : List K → List K → Bool
  list_eq [] [] = true
  list_eq [] (y ∷ ys) = false
  list_eq (x ∷ xs) [] = false
  list_eq (x ∷ xs) (y ∷ ys) = same x y && list_eq xs ys

  pub list_eq_iff :
      ((x y : K) → (same x y ≡ true) ↔ (x ≡ y)) → (a b : List K) → (list_eq a b ≡ true) ↔ (a ≡ b)
  list_eq_iff law [] [] = ground arith
  list_eq_iff law [] (y ∷ ys) = ground arith
  list_eq_iff law (x ∷ xs) [] = ground arith
  list_eq_iff law (x ∷ xs) (y ∷ ys) = ground (arith, law x y, list_eq_iff law xs ys)
