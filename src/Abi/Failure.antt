-- ===== src/Abi/Failure.antt =====
-- The failures of a precompile (fp_evm's `PrecompileFailure`) and `EvmResult`
-- (precompiles/utils/src/lib.rs), as values.
use Prim.Native.String.{String}
use neuroweb.Prelude.{Option, none, some, ◌≡◌, refl, arith}

pub data ExitError : Type 0 where
  out_of_gas : ExitError
  other : String → ExitError

pub data PrecompileFailure : Type 0 where
  revert_with : String → PrecompileFailure
  error_with : ExitError → PrecompileFailure

pub data EvmResult {ℓ} (A : Type ℓ) : Type ℓ where
  ok : A → EvmResult A
  err : PrecompileFailure → EvmResult A

-- `error`: fails without returning the remaining gas.
unfoldable pub error : String → PrecompileFailure
error text = error_with (other text)

abbrev pub revert : String → PrecompileFailure
revert output = revert_with output

-- `Option::ok_or`
abbrev pub ok_or {ℓ} : {A : Type ℓ} → Option A → PrecompileFailure → EvmResult A
ok_or none e = err e
ok_or (some a) e = ok a

-- `Result::map_err` with a constant function.
abbrev pub map_err {ℓ} : {A : Type ℓ} → EvmResult A → PrecompileFailure → EvmResult A
map_err (ok a) e = ok a
map_err (err _) e = err e

-- `?` in a function that changes nothing.
abbrev pub and_then {ℓ κ} :
    {A : Type ℓ} {B : Type κ} → EvmResult A → (A → EvmResult B) → EvmResult B
and_then (ok a) f = f a
and_then (err e) f = err e

-- A chain that succeeds, taken apart.
pub and_then_inversion {ℓ κ} :
    {A : Type ℓ} {B : Type κ} (m : EvmResult A) (k : A → EvmResult B) (b : B)
    → and_then m k ≡ ok b
    → (a : A) × (m ≡ ok a) × (k a ≡ ok b)
and_then_inversion (ok a) k b h = (a, refl, h)
and_then_inversion (err e) k b h = ground arith
