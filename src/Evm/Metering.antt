-- ===== src/Evm/Metering.antt =====
-- The gas and the logs of the mock handle, and what the tester of precompiles/utils/src/testing.rs accepts.
use neuroweb.Prelude.{
  ℕ, ◌+◌, ◌-◌, ◌≤◌, ◌<◌, ◌^◌, ◌≡◌, ◌↔◌, refl, sym, ap, ◌∙◌, inl, inr, true, Option, none, some,
  Option-cases, List, [], ◌∷◌, ◌++◌, append-nil, append_assoc, ltb, nat_eq_iff, bytes_eq_iff,
  list_eq_iff, if◌then◌else◌, arith,
}
use neuroweb.Abi.Failure.{ExitError, out_of_gas}
use neuroweb.Evm.{Log}
use neuroweb.Evm.Mock.{
  MockHandle, EvmConfig, ExitReason, Subcall, SubcallOutput, call_cost, record_cost, remaining_gas,
  push_log, push_logs, charged, answered, responded, call,
}
use neuroweb.Evm.Tester.{
  PrecompileResult, output, stopped, returned, suicided, reverted, failed, fatal, PrecompilesTester,
  prepared, execute, execute_returns, passes, assert_optionals, is_output, new_tester, expect_cost,
  expect_no_logs, expect_log, log_eq, log_eq_iff,
}

is_output_sound :
    (bytes : List ℕ) (res : Option PrecompileResult)
    → is_output bytes res ≡ true
    → res ≡ some (output returned bytes)
is_output_sound bytes none e = ground arith
is_output_sound bytes (some (output stopped found)) e = ground arith
is_output_sound bytes (some (output returned found)) e = ground (arith, bytes_eq_iff found bytes)
is_output_sound bytes (some (output suicided found)) e = ground arith
is_output_sound bytes (some (reverted found)) e = ground arith
is_output_sound bytes (some (failed error)) e = ground arith
is_output_sound bytes (some fatal) e = ground arith

module _ {C : Type 0} where
  -- A cost that the gas left covers is taken from it; any other uses the gas up, and there is then
  -- no remaining gas to read, if the gas used has not passed a limit of 64 bits and the counter
  -- does not overflow.
  pub remaining_gas-record_cost :
      (cost : ℕ) (h : MockHandle C)
      → h.gas_limit < 2 ^ 64
      → h.gas_used ≤ h.gas_limit
      → h.gas_used + cost < 2 ^ 64
      → (failure : Option ExitError) × (h' : MockHandle C) × (record_cost cost h
          ≡ some (failure, h'))
        × (failure ≡ (if ltb (h.gas_limit - h.gas_used) cost then some out_of_gas else none))
        × (remaining_gas h' ≡ (
            if ltb (h.gas_limit - h.gas_used) cost
            then none
            else some (h.gas_limit - h.gas_used - cost)))
  unfolding record_cost remaining_gas
  remaining_gas-record_cost cost h bounded within fits = (
    if ltb h.gas_limit (h.gas_used + cost) then some out_of_gas else none,
    record h { gas_used = h.gas_used + cost },
    ground arith,
    ground arith,
    ground arith,
  )

  pub push_logs-append :
      (logs : List Log) (h : MockHandle C) → (push_logs logs h).logs ≡ h.logs ++ logs
  unfolding push_logs push_log
  push_logs-append [] h = sym (append-nil h.logs)
  push_logs-append (l ∷ logs) h =
      push_logs-append logs (push_log l h) ∙ append_assoc h.logs (l ∷ []) logs

  pub push_logs-gas :
      (logs : List Log) (h : MockHandle C)
      → ((push_logs logs h).gas_used ≡ h.gas_used) × ((push_logs logs h).gas_limit ≡ h.gas_limit)
  unfolding push_logs push_log
  push_logs-gas [] h = (refl, refl)
  push_logs-gas (l ∷ logs) h = push_logs-gas logs (push_log l h)

  -- A step that charges, without running out of gas.
  charged_within :
      (cost : ℕ) (h h' : MockHandle C)
      (k : MockHandle C → Option (ExitReason × List ℕ × MockHandle C)) (reason : ExitReason)
      (out : List ℕ)
      → charged cost h k ≡ some (reason, out, h')
      → h'.gas_used ≤ h'.gas_limit
      → k (record h { gas_used = h.gas_used + cost }) ≡ some (reason, out, h')
  unfolding charged record_cost
  charged_within cost h h' k reason out e within = ground arith

  module _ (london : EvmConfig) (respond : C → Subcall → SubcallOutput × C) where
    answered_within :
        (c : C) (subcall : Subcall) (h h' : MockHandle C) (reason : ExitReason) (out : List ℕ)
        → answered london respond c subcall h ≡ some (reason, out, h')
        → h'.gas_used ≤ h'.gas_limit
        → (reason ≡ (respond c subcall).0.reason)
          × (out ≡ (respond c subcall).0.output)
          × (h'.logs ≡ h.logs ++ (respond c subcall).0.logs)
          × (h'.gas_used ≡ h.gas_used + (respond c subcall).0.cost)
    unfolding answered
    answered_within c subcall h h' reason out e within =
        let o = (respond c subcall).0 in
        let next = record h { subcall_handle = some (respond c subcall).1 } in
        let paid = record next { gas_used = h.gas_used + o.cost } in
        let done =
          charged_within o.cost next h' (λ h. some (o.reason, o.output, push_logs o.logs h)) reason
            out e within in
        let kept = push_logs-append o.logs paid in
        let gas = push_logs-gas o.logs paid in ground arith

    responded_within :
        (subcall : Subcall) (h h' : MockHandle C) (reason : ExitReason) (out : List ℕ) (cost : ℕ)
        → call_cost subcall.context.apparent_value london ≡ some cost
        → responded london respond subcall (record h { gas_used = h.gas_used + cost })
          ≡ some (reason, out, h')
        → h'.gas_used ≤ h'.gas_limit
        → (c : C) × (cost : ℕ) × (h.subcall_handle ≡ some c)
          × (call_cost subcall.context.apparent_value london ≡ some cost)
          × (reason ≡ (respond c subcall).0.reason)
          × (out ≡ (respond c subcall).0.output)
          × (h'.logs ≡ h.logs ++ (respond c subcall).0.logs)
          × (h'.gas_used ≡ h.gas_used + cost + (respond c subcall).0.cost)
    responded_within subcall h h' reason out cost known e within =
        elim (Option-cases h.subcall_handle) [
          | inl unregistered ↦ ground arith
          | inr (c, registered) ↦
              let paid = record h { gas_used = h.gas_used + cost } in
              let there : answered london respond c subcall paid ≡ some (reason, out, h') =
                ground arith in
              let (e1, e2, e3, e4) = answered_within c subcall paid h' reason out there within in
              (c, cost, registered, known, e1, e2, e3, e4)
        ]

    -- A subcall that stays within the gas limit is answered by the registered closure: its reason
    -- and its output are returned, its logs follow those of the handle, and the cost of a call and
    -- its own are charged.
    pub call-answered :
        (subcall : Subcall) (h h' : MockHandle C) (reason : ExitReason) (out : List ℕ)
        → call london respond subcall h ≡ some (reason, out, h')
        → h'.gas_used ≤ h'.gas_limit
        → (c : C) × (cost : ℕ) × (h.subcall_handle ≡ some c)
          × (call_cost subcall.context.apparent_value london ≡ some cost)
          × (reason ≡ (respond c subcall).0.reason)
          × (out ≡ (respond c subcall).0.output)
          × (h'.logs ≡ h.logs ++ (respond c subcall).0.logs)
          × (h'.gas_used ≡ h.gas_used + cost + (respond c subcall).0.cost)
    unfolding call
    call-answered subcall h h' reason out e within =
        elim (Option-cases (call_cost subcall.context.apparent_value london)) [
          | inl overflow ↦ ground arith
          | inr (cost, known) ↦
              let charged_there : charged cost h (responded london respond subcall)
                  ≡ some (reason, out, h') =
                ground arith in
              let answer =
                charged_within cost h h' (responded london respond subcall) reason out charged_there
                  within in
              responded_within subcall h h' reason out cost known answer within
        ]

  module _ {P : Type 0}
      (execute_set : P → MockHandle C → Option (Option PrecompileResult × MockHandle C)) where
    abbrev pub expect_logs : List Log → PrecompilesTester P C → PrecompilesTester P C
    expect_logs [] t = t
    expect_logs (l ∷ logs) t = expect_logs logs (expect_log l t)

    expect_logs_lem :
        (logs old : List Log) (t : PrecompilesTester P C)
        → t.expected_logs ≡ some old
        → expect_logs logs t ≡ record t { expected_logs = some (old ++ logs) }
    unfolding expect_log
    expect_logs_lem [] old t e = rw (append-nil old, sym e)
    expect_logs_lem (l ∷ logs) old t e =
        expect_logs_lem logs (old ++ (l ∷ [])) (expect_log l t) (rw e)
        ∙ ap (λ ls. record t { expected_logs = some ls }) (append_assoc old (l ∷ []) logs)

    accepts_iff :
        (bytes : List ℕ) (cost : ℕ) (logs : List Log) (t : PrecompilesTester P C)
        → t.expected_cost ≡ some cost
        → t.expected_logs ≡ some logs
        → (execute_returns execute_set bytes t ≡ true) ↔ (
            (h : MockHandle C) × (execute_set t.precompiles (prepared t)
              ≡ some (some (output returned bytes), h))
            × (h.gas_used ≡ cost)
            × (h.logs ≡ logs))
    unfolding execute_returns passes execute assert_optionals
    accepts_iff bytes cost logs t ec el = (
      λ e. elim (Option-cases (execute_set t.precompiles (prepared t))) [
        | inl panicked ↦ ground arith
        | inr ((res, h), done) ↦ (
          h,
          ground (arith, is_output_sound bytes res),
          ground (arith, nat_eq_iff h.gas_used cost),
          ground (arith, list_eq_iff log_eq log_eq_iff h.logs logs),
        )
      ],
      λ (h, done, gas, noted). ground (
        arith,
        nat_eq_iff h.gas_used cost,
        list_eq_iff log_eq log_eq_iff h.logs logs,
        bytes_eq_iff bytes bytes,
      ),
    )

    -- A prepared test that expects an output, a cost and logs passes exactly if the precompile set
    -- returns that output having used that gas and having logged just these logs in this order.
    pub execute_returns_iff :
        (p : P) (from to contents bytes : List ℕ) (cost : ℕ) (logs : List Log)
        → (execute_returns execute_set bytes
              (expect_logs logs (expect_no_logs (expect_cost cost (new_tester p from to contents))))
            ≡ true)
          ↔ ((h : MockHandle C) × (execute_set p (prepared (new_tester p from to contents))
                ≡ some (some (output returned bytes), h))
              × (h.gas_used ≡ cost)
              × (h.logs ≡ logs))
    unfolding expect_no_logs expect_cost prepared new_tester
    execute_returns_iff p from to contents bytes cost logs =
        let t = expect_no_logs (expect_cost cost (new_tester p from to contents)) in
        let filled = record t { expected_logs = some logs } in
        rw (expect_logs_lem logs [] t refl) (accepts_iff bytes cost logs filled refl refl)
