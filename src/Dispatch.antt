-- ===== src/Dispatch.antt =====
-- The result of a dispatchable (FRAME's `DispatchResult`) together with the storage that it leaves. A
-- failed call leaves the storage as it was: every dispatchable runs in a storage layer of its own.
use neuroweb.Prelude.{Bool, true, false, Option, none, some, ◌⊎◌, inl, inr, ◌≡◌, refl}

-- `DispatchError`, over the errors of one pallet; `other` stands for the errors of all others.
pub data DispatchError {ℓ} (E : Type ℓ) : Type ℓ where
  bad_origin : DispatchError E
  module_error : E → DispatchError E
  other : DispatchError E

pub data Outcome {ℓ κ} (E : Type ℓ) (A : Type κ) : Type (ℓ ⊔ κ) where
  ok : A → Outcome E A
  err : DispatchError E → Outcome E A

pub Outcome-cases {ℓ κ} :
    {E : Type ℓ} {A : Type κ} (o : Outcome E A)
    → ((e : DispatchError E) × (o ≡ err e)) ⊎ ((a : A) × (o ≡ ok a))
Outcome-cases (ok a) = inr (a, refl)
Outcome-cases (err e) = inl (e, refl)

infixl 5 ◌>>=◌ ◌>>◌
abbrev pub ◌>>=◌ {ℓ κ μ} :
    {E : Type ℓ} {A : Type κ} {B : Type μ} → Outcome E A → (A → Outcome E B) → Outcome E B
ok a >>= f = f a
err e >>= f = err e

abbrev pub ◌>>◌ {ℓ κ} : {E : Type ℓ} {B : Type κ} → Outcome E (Unit {0}) → Outcome E B → Outcome E B
m >> k = m >>= λ _. k

-- `ensure!`
abbrev pub ensure {ℓ} : {E : Type ℓ} → Bool → E → Outcome E (Unit {0})
ensure true e = ok tt
ensure false e = err (module_error e)

-- `ensure_origin(origin)?`
abbrev pub ensure_origin {ℓ} : {E : Type ℓ} → Bool → Outcome E (Unit {0})
ensure_origin true = ok tt
ensure_origin false = err bad_origin

-- `ok_or(error)?`
abbrev pub ok_or {ℓ κ} : {E : Type ℓ} {A : Type κ} → Option A → E → Outcome E A
ok_or none e = err (module_error e)
ok_or (some a) e = ok a

-- The storage after the call, which is the old one if it failed.
abbrev pub committed {ℓ κ} : {E : Type ℓ} {S : Type κ} → S → Outcome E S → S
committed s (ok s') = s'
committed s (err e) = s
