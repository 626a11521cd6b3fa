-- ===== src/Evm/Tests.antt =====
-- A concrete dispatch of precompiles/utils/src/lib.rs.
mod Mock
use neuroweb.Prelude.{
  ℕ, ◌-◌, ◌≤◌, ◌≡◌, ◌↔◌, ◌⊎◌, inr, refl, true, false, Option, some, [], ltb, if◌then◌else◌,
}
use neuroweb.Abi.Failure.{ok, err, error_with, out_of_gas}
use neuroweb.Evm.{
  log_costs, PrecompileHandle, view, payable, check_function_modifier, Dispatcher, try_dispatch,
  unwrap_or,
}
use neuroweb.Evm.Guards.{log_costs_lem, check_function_modifier_iff, try_dispatch_iff}

-- A handle that is its remaining gas.
abbrev gas_handle : PrecompileHandle ℕ
gas_handle = record {
  input = λ g. [];
  code_address = λ g. [];
  context_address = λ g. [];
  caller = λ g. [];
  apparent_value = λ g. 0;
  is_static = λ g. true;
  remaining_gas = λ g. g;
  record_cost = λ n g. if ltb g n then err (error_with out_of_gas) else ok (g - n);
  log = λ l g. ok g;
}

-- A call is its weight; half of it is used.
abbrev half_dispatcher : Dispatcher ℕ ℕ ℕ
half_dispatcher = record {
  weight_to_gas = λ w. w;
  db_read_weight = 100;
  db_write_weight = 200;
  dispatch_weight = λ call. call;
  dispatch = λ who call g. inr (g, some 30);
}

-- A run: half of the weight is charged.
half_charged : try_dispatch gas_handle half_dispatcher 1 60 100 ≡ ok 70
unfolding try_dispatch
half_charged = refl
