-- ===== src/Prelude/Words.antt =====
-- Big-endian bytes of an unsigned number, as Rust's `to_be_bytes` and `from_be_bytes` have them.
use Prim.Native.Nat.{ℕ, zero, suc, ◌+◌, ◌*◌, ◌/◌, ◌%◌, ◌^◌, ◌≤◌, ◌<◌}
use mathlib.Core.Path.{◌≡◌, refl, sym, ap, ap₂, ◌∙◌}
use mathlib.Core.List.{List, [], ◌∷◌, ◌++◌, append-nil, append_assoc}
use native.Mathlib.Nat.{pow-suc, zero-add, le_trans}
use native.Mathlib.Omega.{arith}
use neuroweb.Prelude.Lists.{length, length-append, replicate, All}

abbrev pub IsByte : ℕ → Type 0
IsByte b = b < 256

-- The lowest `n` bytes of `v`, the highest first.
unfoldable pub to_be_bytes : ℕ → ℕ → List ℕ
to_be_bytes zero v = []
to_be_bytes (suc n) v = to_be_bytes n (v / 256) ++ (v % 256 ∷ [])

from_be_acc : ℕ → List ℕ → ℕ
from_be_acc acc [] = acc
from_be_acc acc (b ∷ bs) = from_be_acc (acc * 256 + b) bs

unfoldable pub from_be_bytes : List ℕ → ℕ
unfolding from_be_acc
from_be_bytes bs = from_be_acc 0 bs

from_be_acc-snoc :
    (acc : ℕ) (bs : List ℕ) (b : ℕ)
    → from_be_acc acc (bs ++ (b ∷ [])) ≡ from_be_acc acc bs * 256 + b
unfolding from_be_acc
from_be_acc-snoc acc [] b = refl
from_be_acc-snoc acc (x ∷ bs) b = from_be_acc-snoc (acc * 256 + x) bs b

pub length-to_be_bytes : (n v : ℕ) → length (to_be_bytes n v) ≡ n
unfolding to_be_bytes
length-to_be_bytes zero v = refl
length-to_be_bytes (suc n) v =
    length-append (to_be_bytes n (v / 256)) (v % 256 ∷ [])
    ∙ omega (arith, length-to_be_bytes n (v / 256))

pub from_be_bytes-to_be_bytes : (n v : ℕ) → v < 256 ^ n → from_be_bytes (to_be_bytes n v) ≡ v
unfolding from_be_bytes to_be_bytes
from_be_bytes-to_be_bytes zero v h = omega arith
from_be_bytes-to_be_bytes (suc n) v h =
    from_be_acc-snoc 0 (to_be_bytes n (v / 256)) (v % 256)
    ∙ omega (arith, from_be_bytes-to_be_bytes n (v / 256) (omega (arith, pow-suc 256 n)))

to_be_bytes-from_be_acc :
    (bs : List ℕ) (k acc : ℕ)
    → All IsByte bs
    → to_be_bytes (length bs + k) (from_be_acc acc bs) ≡ to_be_bytes k acc ++ bs
unfolding from_be_acc to_be_bytes
to_be_bytes-from_be_acc [] k acc h = rw zero-add (sym (append-nil _))
to_be_bytes-from_be_acc (b ∷ bs) k acc (hb, h) =
    let shift : suc (length bs) + k ≡ length bs + suc k = omega arith in
    ap (λ t. to_be_bytes t (from_be_acc (acc * 256 + b) bs)) shift
    ∙ to_be_bytes-from_be_acc bs (suc k) (acc * 256 + b) h
    ∙ ap₂ (λ s t. (to_be_bytes k s ++ (t ∷ [])) ++ bs) (omega arith) (omega arith)
    ∙ append_assoc (to_be_bytes k acc) (b ∷ []) bs

pub to_be_bytes-from_be_bytes :
    (bs : List ℕ) → All IsByte bs → to_be_bytes (length bs) (from_be_bytes bs) ≡ bs
unfolding from_be_bytes to_be_bytes
to_be_bytes-from_be_bytes bs h =
    let whole : length bs ≡ length bs + 0 = omega arith in
    ap (λ t. to_be_bytes t (from_be_acc 0 bs)) whole ∙ to_be_bytes-from_be_acc bs 0 0 h

next_digit : (a b p : ℕ) → b < 256 → (a * 256 + b + 1) * p ≤ (a + 1) * (p * 256)
next_digit a b p h = grind arith

from_be_acc-lt :
    (bs : List ℕ) (acc : ℕ) → All IsByte bs → from_be_acc acc bs < (acc + 1) * 256 ^ length bs
unfolding from_be_acc
from_be_acc-lt [] acc h = omega arith
from_be_acc-lt (b ∷ bs) acc (hb, h) =
    rw pow-suc (le_trans (from_be_acc-lt bs (acc * 256 + b) h) (next_digit acc b _ hb))

pub from_be_bytes-lt : (bs : List ℕ) → All IsByte bs → from_be_bytes bs < 256 ^ length bs
unfolding from_be_bytes
from_be_bytes-lt bs h = omega (arith, from_be_acc-lt bs 0 h)

pub from_be_bytes-zeros :
    (n : ℕ) (bs : List ℕ) → from_be_bytes (replicate n 0 ++ bs) ≡ from_be_bytes bs
unfolding from_be_bytes from_be_acc
from_be_bytes-zeros zero bs = refl
from_be_bytes-zeros (suc n) bs = from_be_bytes-zeros n bs

All-append-IsByte : (xs ys : List ℕ) → All IsByte xs → All IsByte ys → All IsByte (xs ++ ys)
All-append-IsByte [] ys p q = q
All-append-IsByte (x ∷ xs) ys (b, p) q = (b, All-append-IsByte xs ys p q)

pub to_be_bytes-IsByte : (n v : ℕ) → All IsByte (to_be_bytes n v)
unfolding to_be_bytes
to_be_bytes-IsByte zero v = tt
to_be_bytes-IsByte (suc n) v =
    All-append-IsByte (to_be_bytes n (v / 256)) _ (to_be_bytes-IsByte n (v / 256)) (omega arith)

carry : (q p v : ℕ) → q * (p * 256) + v ≡ (q * p) * 256 + v
carry q p v = grind arith

-- The bytes of a number whose low `k` bytes make `v`.
pub to_be_bytes-append :
    (m k q v : ℕ)
    → v < 256 ^ k
    → to_be_bytes (m + k) (q * 256 ^ k + v) ≡ to_be_bytes m q ++ to_be_bytes k v
unfolding to_be_bytes
to_be_bytes-append m zero q v h =
    let size : m + 0 ≡ m = omega arith in
    let value : q * 256 ^ 0 + v ≡ q = omega arith in
    ap₂ (λ s t. to_be_bytes s t) size value ∙ sym (append-nil _)
to_be_bytes-append m (suc k) q v h =
    let x : q * 256 ^ suc k + v ≡ (q * 256 ^ k) * 256 + v =
      ap (λ t. q * t + v) (pow-suc 256 k) ∙ carry q (256 ^ k) v in
    let small : v / 256 < 256 ^ k = omega (arith, pow-suc 256 k) in
    let shift : m + suc k ≡ suc (m + k) = omega arith in
    let high : ((q * 256 ^ k) * 256 + v) / 256 ≡ q * 256 ^ k + v / 256 = omega arith in
    let low : ((q * 256 ^ k) * 256 + v) % 256 ≡ v % 256 = omega arith in
    ap₂ (λ s t. to_be_bytes s t) shift x
    ∙ ap₂ (λ s t. to_be_bytes (m + k) s ++ (t ∷ [])) high low
    ∙ ap (λ s. s ++ (v % 256 ∷ [])) (to_be_bytes-append m k q (v / 256) small)
    ∙ append_assoc (to_be_bytes m q) (to_be_bytes k (v / 256)) (v % 256 ∷ [])

from_be_acc-ge : (acc : ℕ) (bs : List ℕ) → acc ≤ from_be_acc acc bs
unfolding from_be_acc
from_be_acc-ge acc [] = omega arith
from_be_acc-ge acc (b ∷ bs) = omega (arith, from_be_acc-ge (acc * 256 + b) bs)

-- A number is at least its first byte.
pub from_be_bytes-ge : (b : ℕ) (bs : List ℕ) → b ≤ from_be_bytes (b ∷ bs)
unfolding from_be_bytes from_be_acc
from_be_bytes-ge b bs = rw zero-add (from_be_acc-ge b bs)
