-- ===== src/Evm/Tests/Mock.antt =====
-- A precompile set on the mock handle of precompiles/utils/src/testing.rs, and the theorems on it
-- at concrete inputs.
use neuroweb.Prelude.{
  ℕ, ◌+◌, ◌≡◌, ◌↔◌, refl, Option, none, some, List, [], ◌∷◌, ◌++◌, replicate, arith, true, false,
}
use neuroweb.Evm.{Log}
use neuroweb.Evm.Mock.{
  Context, MockHandle, succeed_reason, EvmConfig, Subcall, SubcallOutput, call_cost, record_cost,
  bind, push_log, push_logs, call, answered, charged, address_access_cost, xfer_cost, new_cost,
}
use neuroweb.Evm.Tester.{
  PrecompileResult, output, returned, failed, prepared, execute_returns, new_tester, expect_cost,
  expect_no_logs,
}
use neuroweb.Evm.Metering.{call-answered, expect_logs, execute_returns_iff}

abbrev here : List ℕ
here = replicate 20 5

abbrev there : List ℕ
there = replicate 20 6

abbrev context : Context
context = record { address = here; caller = there; apparent_value = 0 }

abbrev london : EvmConfig
london = record {
  increase_state_access_gas = true;
  gas_account_access_cold = 2600;
  gas_storage_read_warm = 100;
  gas_call = 700;
  empty_considered_exists = false;
}

abbrev note : ℕ → Log
note n = record { address = here; topics = []; contents = n ∷ [] }

-- A closure that counts its calls.
abbrev respond : ℕ → Subcall → SubcallOutput × ℕ
respond n subcall = (
  record { reason = succeed_reason; output = n ∷ []; cost = 50; logs = note n ∷ note (n + 1) ∷ [] },
  n + 1,
)

abbrev subcall : Subcall
subcall = record {
  address = there;
  transfer = none;
  input = [];
  target_gas = none;
  is_static = false;
  context = context;
}

abbrev ready : MockHandle ℕ
ready = record {
  gas_limit = 10000;
  gas_used = 100;
  logs = note 9 ∷ [];
  subcall_handle = some 3;
  code_address = here;
  input = [];
  context = context;
  is_static = false;
}

abbrev answered_handle : MockHandle ℕ
answered_handle = record ready {
  gas_used = 2750;
  logs = note 9 ∷ note 3 ∷ note 4 ∷ [];
  subcall_handle = some 4;
}

call-answered_example :
    (c : ℕ) × (cost : ℕ) × (ready.subcall_handle ≡ some c)
    × (call_cost 0 london ≡ some cost)
    × (succeed_reason ≡ (respond c subcall).0.reason)
    × ((3 ∷ []) ≡ (respond c subcall).0.output)
    × (answered_handle.logs ≡ ready.logs ++ (respond c subcall).0.logs)
    × (answered_handle.gas_used ≡ ready.gas_used + cost + (respond c subcall).0.cost)
unfolding call call_cost address_access_cost xfer_cost new_cost charged answered record_cost
    push_logs push_log
call-answered_example =
    call-answered london respond subcall ready answered_handle succeed_reason (3 ∷ []) refl
      (omega arith)

-- A precompile that charges 500, logs its input and echoes it.
abbrev echo : Unit {0} → MockHandle ℕ → Option (Option PrecompileResult × MockHandle ℕ)
echo p h = bind (record_cost 500 h) λ (failure, h). elim failure [
  | none ↦ some (
    some (output returned h.input),
    push_log (record { address = here; topics = []; contents = h.input }) h,
  )
  | some e ↦ some (some (failed e), h)
]

execute_returns_example :
    (execute_returns echo (7 ∷ []) (
        expect_logs echo
          (note 7 ∷ [])
          (expect_no_logs (expect_cost 500 (new_tester tt there here (7 ∷ [])))))
      ≡ true)
    ↔ ((h : MockHandle ℕ) × (echo tt (prepared (new_tester tt there here (7 ∷ [])))
          ≡ some (some (output returned (7 ∷ [])), h))
        × (h.gas_used ≡ 500)
        × (h.logs ≡ note 7 ∷ []))
execute_returns_example = execute_returns_iff echo tt there here (7 ∷ []) (7 ∷ []) 500 (note 7 ∷ [])
