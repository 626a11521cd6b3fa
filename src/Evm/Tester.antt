-- ===== src/Evm/Tester.antt =====
-- `PrecompilesTester` of precompiles/utils/src/testing.rs. The precompile set is a parameter.
-- `none` is a panic, a test passes if it answers `true`.
use neuroweb.Prelude.{
  ℕ, Bool, true, false, ◌&&◌, Option, none, some, List, [], ◌∷◌, ◌++◌, nat_eq, bytes_eq,
  bytes_eq_iff, list_eq, list_eq_iff, ◌≡◌, ◌↔◌, arith,
}
use neuroweb.Abi.Failure.{ExitError}
use neuroweb.Evm.{Log}
use neuroweb.Evm.Mock.{MockHandle, new_handle, bind}

-- Of the `fp_evm` crate: `ExitSucceed` and `PrecompileResult`.
pub data ExitSucceed : Type 0 where
  stopped returned suicided : ExitSucceed

pub data PrecompileResult : Type 0 where
  output : ExitSucceed → List ℕ → PrecompileResult
  reverted : List ℕ → PrecompileResult
  failed : ExitError → PrecompileResult
  fatal : PrecompileResult

pub record PrecompilesTester (P C : Type 0) : Type 0 where
  pub precompiles : P
  pub handle : MockHandle C
  pub target_gas : Option ℕ
  pub subcall_handle : Option C
  pub expected_cost : Option ℕ
  pub expected_logs : Option (List Log)

abbrev pub logs_or_default : Option (List Log) → List Log
logs_or_default none = []
logs_or_default (some logs) = logs

abbrev pub is_output : List ℕ → Option PrecompileResult → Bool
is_output bytes none = false
is_output bytes (some (output stopped found)) = false
is_output bytes (some (output returned found)) = bytes_eq found bytes
is_output bytes (some (output suicided found)) = false
is_output bytes (some (reverted found)) = false
is_output bytes (some (failed e)) = false
is_output bytes (some fatal) = false

abbrev pub is_revert : (List ℕ → Bool) → Option PrecompileResult → Bool
is_revert check none = false
is_revert check (some (output status found)) = false
is_revert check (some (reverted found)) = check found
is_revert check (some (failed e)) = false
is_revert check (some fatal) = false

abbrev pub is_error : (ExitError → ExitError → Bool) → ExitError → Option PrecompileResult → Bool
is_error error_eq error none = false
is_error error_eq error (some (output status found)) = false
is_error error_eq error (some (reverted found)) = false
is_error error_eq error (some (failed e)) = error_eq e error
is_error error_eq error (some fatal) = false

-- `PrettyLog: PartialEq`
abbrev pub log_eq : Log → Log → Bool
log_eq a b =
    bytes_eq a.address b.address
    && (list_eq bytes_eq a.topics b.topics && bytes_eq a.contents b.contents)

pub log_eq_iff : (a b : Log) → (log_eq a b ≡ true) ↔ (a ≡ b)
log_eq_iff a b = ground (
  arith,
  bytes_eq_iff a.address b.address,
  list_eq_iff bytes_eq bytes_eq_iff a.topics b.topics,
  bytes_eq_iff a.contents b.contents,
)

module _ {P C : Type 0} where
  -- `PrecompilesTester::new`
  unfoldable pub new_tester : P → List ℕ → List ℕ → List ℕ → PrecompilesTester P C
  new_tester precompiles from to contents = record {
    precompiles = precompiles;
    handle = record (new_handle to (record { address = to; caller = from; apparent_value = 0 })) {
      input = contents;
    };
    target_gas = none;
    subcall_handle = none;
    expected_cost = none;
    expected_logs = none;
  }

  unfoldable pub with_value : ℕ → PrecompilesTester P C → PrecompilesTester P C
  with_value value t = record t {
    handle = record t.handle { context = record t.handle.context { apparent_value = value } };
  }

  unfoldable pub with_subcall_handle : C → PrecompilesTester P C → PrecompilesTester P C
  with_subcall_handle c t = record t { subcall_handle = some c }

  unfoldable pub with_target_gas : Option ℕ → PrecompilesTester P C → PrecompilesTester P C
  with_target_gas target_gas t = record t { target_gas = target_gas }

  unfoldable pub expect_cost : ℕ → PrecompilesTester P C → PrecompilesTester P C
  expect_cost cost t = record t { expected_cost = some cost }

  unfoldable pub expect_no_logs : PrecompilesTester P C → PrecompilesTester P C
  expect_no_logs t = record t { expected_logs = some [] }

  unfoldable pub expect_log : Log → PrecompilesTester P C → PrecompilesTester P C
  expect_log l t = record t { expected_logs = some (logs_or_default t.expected_logs ++ (l ∷ [])) }

  -- The handle that the precompile gets.
  unfoldable pub prepared : PrecompilesTester P C → MockHandle C
  prepared t = record t.handle {
    subcall_handle = t.subcall_handle;
    gas_limit = elim t.target_gas [ none ↦ t.handle.gas_limit | some gas_limit ↦ gas_limit ];
  }

  -- A precompile that panics has no result.
  module _ (execute_set : P → MockHandle C → Option (Option PrecompileResult × MockHandle C)) where
    unfoldable pub execute :
        PrecompilesTester P C → Option (Option PrecompileResult × PrecompilesTester P C)
    execute t = bind (execute_set t.precompiles (prepared t)) λ (res, h). some (
      res,
      record t { handle = record h { subcall_handle = none }; subcall_handle = h.subcall_handle },
    )

    unfoldable pub assert_optionals : PrecompilesTester P C → Bool
    assert_optionals t =
        elim t.expected_cost [ none ↦ true | some cost ↦ nat_eq t.handle.gas_used cost ]
        && elim t.expected_logs [ none ↦ true | some logs ↦ list_eq log_eq t.handle.logs logs ]

    -- A test on the result, then the tests on cost and logs.
    unfoldable pub passes : (Option PrecompileResult → Bool) → PrecompilesTester P C → Bool
    passes check t = elim (execute t) [
      | none ↦ false
      | some (res, t) ↦ check res && assert_optionals t
    ]

    unfoldable pub execute_some : PrecompilesTester P C → Bool
    execute_some t = passes (λ res. elim res [ none ↦ false | some _ ↦ true ]) t

    unfoldable pub execute_none : PrecompilesTester P C → Bool
    execute_none t = passes (λ res. elim res [ none ↦ true | some _ ↦ false ]) t

    unfoldable pub execute_returns : List ℕ → PrecompilesTester P C → Bool
    execute_returns bytes t = passes (is_output bytes) t

    unfoldable pub execute_reverts : (List ℕ → Bool) → PrecompilesTester P C → Bool
    execute_reverts check t = passes (is_revert check) t

    -- The equality of errors is derived by their crate.
    unfoldable pub execute_error :
        (ExitError → ExitError → Bool) → ExitError → PrecompilesTester P C → Bool
    execute_error error_eq error t = passes (is_error error_eq error) t
