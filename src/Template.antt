-- ===== src/Template.antt =====
-- The pallet of pallets/template/src/lib.rs: a number of 32 bits that any signer sets or increments.
mod Tests
use neuroweb.Prelude.{
  ℕ, zero, suc, ◌+◌, ◌<◌, ◌^◌, ◌≡◌, ◌↔◌, refl, ap, Option, none, some, List, [], ◌∷◌, ◌++◌, ltb,
  ltb→lt, Bool-cases, inl, inr, if◌then◌else◌, arith,
}
use neuroweb.Dispatch.{Outcome, ok, err, bad_origin, module_error, ◌>>=◌, ok_or}

pub data Error : Type 0 where
  none_value storage_overflow : Error

pub data Event (AccountId : Type 0) : Type 0 where
  something_stored : ℕ → AccountId → Event AccountId

pub record Pallet (AccountId : Type 0) : Type 0 where
  pub something : Option ℕ
  pub events : List (Event AccountId)

-- `u32::checked_add(1)`
abbrev pub checked_increment : ℕ → Option ℕ
checked_increment n = if ltb (n + 1) (2 ^ 32) then some (n + 1) else none

module _ {A : Type 0} where
  unfoldable pub do_something : Option A → ℕ → Pallet A → Outcome Error (Pallet A)
  do_something none something s = err bad_origin
  do_something (some who) something s = ok (record s {
    something = some something;
    events = s.events ++ (something_stored something who ∷ []);
  })

  unfoldable pub cause_error : Option A → Pallet A → Outcome Error (Pallet A)
  cause_error none s = err bad_origin
  cause_error (some who) s = do
    old ← ok_or s.something none_value
    new ← ok_or (checked_increment old) storage_overflow
    ok (record s { something = some new })

  -- Increments by signers, one after another.
  unfoldable pub increments : List A → Pallet A → Outcome Error (Pallet A)
  increments [] s = ok s
  increments (who ∷ rest) s = do s' ← cause_error (some who) s; increments rest s'

  abbrev pub count : List A → ℕ
  count [] = 0
  count (who ∷ rest) = suc (count rest)

  abbrev pub holding : ℕ → Pallet A → Pallet A
  holding n s = record s { something = some n }

  cause_error-some :
      (who : A) (n : ℕ) (s : Pallet A)
      → s.something ≡ some n
      → cause_error (some who) s ≡ (
          if ltb (n + 1) (2 ^ 32)
          then ok (holding (n + 1) s)
          else err (module_error storage_overflow))
  unfolding cause_error
  cause_error-some who n s e = ground arith

  -- Increments from a number of 32 bits all succeed exactly if the sum has 32 bits; they lead to
  -- that sum, and deposit no event.
  pub increments_iff :
      (signers : List A) (n : ℕ) (s t : Pallet A)
      → s.something ≡ some n
      → n < 2 ^ 32
      → (increments signers s ≡ ok t)
        ↔ ((n + count signers < 2 ^ 32) × (t ≡ holding (n + count signers) s))
  unfolding increments
  increments_iff [] n s t e small = (λ h. (omega arith, ground arith), λ (_, h). ground arith)
  increments_iff (who ∷ rest) n s t e small = elim (Bool-cases (ltb (n + 1) (2 ^ 32))) [
    | inl fits ↦ ground (
      arith,
      cause_error-some who n s e,
      increments_iff rest (n + 1) (holding (n + 1) s) t refl (ltb→lt (n + 1) (2 ^ 32) fits),
    )
    | inr full ↦ ground (arith, cause_error-some who n s e)
  ]
