-- ===== src/Evm/Guards.antt =====
-- The costs and the guards of precompiles/utils/src/lib.rs.
use neuroweb.Prelude.{
  ℕ, ◌+◌, ◌*◌, ◌^◌, ◌≤◌, ◌≡◌, ◌↔◌, ◌⊎◌, inl, inr, refl, false, ltb, Option, if◌then◌else◌, arith,
}
use neuroweb.Abi.Failure.{ok, err, error_with, out_of_gas}
use neuroweb.Evm.{
  log_costs, PrecompileHandle, FunctionModifier, view, non_payable, payable,
  check_function_modifier, Dispatcher, try_dispatch, unwrap_or,
}

-- The checked sums and products give the cost of a log as a number, or run out of gas if it is beyond 64
-- bits: no step in between overflows first.
pub log_costs_lem :
    (topics data_len : ℕ)
    → log_costs topics data_len ≡ (
        if ltb (375 + 375 * topics + 8 * data_len) (2 ^ 64)
        then ok (375 + 375 * topics + 8 * data_len)
        else err (error_with out_of_gas))
unfolding log_costs
log_costs_lem topics data_len = ground arith

-- A call passes the check exactly if it is not static or the function is a view, and if it carries no value
-- or the function is payable.
pub check_function_modifier_iff :
    {H : Type 0} (handle : PrecompileHandle H) (modifier : FunctionModifier) (h : H)
    → (check_function_modifier handle modifier h ≡ ok tt) ↔ (
        ((handle.is_static h ≡ false) ⊎ (modifier ≡ view))
        × ((handle.apparent_value h ≡ 0) ⊎ (modifier ≡ payable)))
unfolding check_function_modifier
check_function_modifier_iff handle view h = (λ e. ground arith, λ (s, v). ground arith)
check_function_modifier_iff handle non_payable h = (λ e. ground arith, λ (s, v). ground arith)
check_function_modifier_iff handle payable h = (λ e. ground arith, λ (s, v). ground arith)

dispatch-cases : {A B : Type 0} (x : A ⊎ B) → ((a : A) × (x ≡ inl a)) ⊎ ((b : B) × (x ≡ inr b))
dispatch-cases (inl a) = inl (a, refl)
dispatch-cases (inr b) = inr (b, refl)

-- A dispatch succeeds exactly if the gas left covers the call's weight beforehand, the call
-- succeeds, and the gas for the weight that it reports, or for its own if it reports none, can be
-- charged.
pub try_dispatch_iff :
    {H AccountId RuntimeCall : Type 0} (handle : PrecompileHandle H)
    (runtime : Dispatcher H AccountId RuntimeCall) (origin : AccountId) (call : RuntimeCall)
    (h h' : H)
    → (try_dispatch handle runtime origin call h ≡ ok h') ↔ (
        (runtime.weight_to_gas (runtime.dispatch_weight call) ≤ handle.remaining_gas h)
        × ((h1 : H) × (actual : Option ℕ) × (runtime.dispatch origin call h ≡ inr (h1, actual))
            × (handle.record_cost
                  (runtime.weight_to_gas (unwrap_or actual (runtime.dispatch_weight call)))
                  h1
                ≡ ok h')))
unfolding try_dispatch
try_dispatch_iff handle runtime origin call h h' = (
  λ e. elim (dispatch-cases (runtime.dispatch origin call h)) [
    | inl (text, failed) ↦ ground arith
    | inr ((h1, actual), done) ↦ (ground arith, (h1, actual, done, ground arith))
  ],
  λ (enough, (h1, actual, done, paid)). ground arith,
)
