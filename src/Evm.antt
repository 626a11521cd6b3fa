-- ===== src/Evm.antt =====
-- The helpers of precompiles/utils/src/lib.rs around a `PrecompileHandle`. The handle and the runtime are
-- parameters. A failure carries no state: the EVM rolls the call back.
pub mod Guards
pub mod Mock
pub mod Tester
pub mod Metering
mod Tests
use Prim.Native.String.{String}
use neuroweb.Prelude.{
  ℕ, ◌+◌, ◌*◌, ◌^◌, Bool, true, false, not, ◌&&◌, Option, none, some, ◌⊎◌, inl, inr, List, [], ◌∷◌,
  ◌++◌, ltb, leb, if◌then◌else◌, length,
}
use neuroweb.Abi.Failure.{EvmResult, ok, err, revert, error_with, out_of_gas, ok_or, and_then}
use neuroweb.Abi.Reader.{new_skip_selector, expect_arguments}
use neuroweb.Abi.Types.{EvmFields, run}

-- `Log` of the EVM: an address, topics of 32 bytes, data.
pub record Log : Type 0 where
  pub address : List ℕ
  pub topics : List (List ℕ)
  pub contents : List ℕ

-- `LogsBuilder`
pub record LogsBuilder : Type 0 where
  pub emitter : List ℕ

unfoldable pub log0 : LogsBuilder → List ℕ → Log
log0 b contents = record { address = b.emitter; topics = []; contents = contents }

unfoldable pub log1 : LogsBuilder → List ℕ → List ℕ → Log
log1 b topic0 contents = record { address = b.emitter; topics = topic0 ∷ []; contents = contents }

unfoldable pub log2 : LogsBuilder → List ℕ → List ℕ → List ℕ → Log
log2 b topic0 topic1 contents = record {
  address = b.emitter;
  topics = topic0 ∷ topic1 ∷ [];
  contents = contents;
}

unfoldable pub log3 : LogsBuilder → List ℕ → List ℕ → List ℕ → List ℕ → Log
log3 b topic0 topic1 topic2 contents = record {
  address = b.emitter;
  topics = topic0 ∷ topic1 ∷ topic2 ∷ [];
  contents = contents;
}

unfoldable pub log4 : LogsBuilder → List ℕ → List ℕ → List ℕ → List ℕ → List ℕ → Log
log4 b topic0 topic1 topic2 topic3 contents = record {
  address = b.emitter;
  topics = topic0 ∷ topic1 ∷ topic2 ∷ topic3 ∷ [];
  contents = contents;
}

-- The trait `PrecompileHandle` with its `Context`; the handle `H` holds the storage as well.
pub record PrecompileHandle (H : Type 0) : Type 0 where
  pub input : H → List ℕ
  pub code_address : H → List ℕ
  pub context_address : H → List ℕ
  pub caller : H → List ℕ
  pub apparent_value : H → ℕ
  pub is_static : H → Bool
  pub remaining_gas : H → ℕ
  pub record_cost : ℕ → H → EvmResult H
  pub log : Log → H → EvmResult H

pub data FunctionModifier : Type 0 where
  view non_payable payable : FunctionModifier

abbrev pub is_view : FunctionModifier → Bool
is_view view = true
is_view non_payable = false
is_view payable = false

abbrev pub is_payable : FunctionModifier → Bool
is_payable view = false
is_payable non_payable = false
is_payable payable = true

-- `u64` arithmetic; `None` becomes `OutOfGas`.
abbrev pub u64_checked : ℕ → EvmResult ℕ
u64_checked n = if ltb n (2 ^ 64) then ok n else err (error_with out_of_gas)

-- `log_costs`
unfoldable pub log_costs : ℕ → ℕ → EvmResult ℕ
log_costs topics data_len = and_then (u64_checked (375 * topics)) λ topic_cost.
    and_then (u64_checked (8 * data_len))
      λ data_cost. and_then (u64_checked (375 + topic_cost)) λ cost. u64_checked (cost + data_cost)

module _ {H : Type 0} (handle : PrecompileHandle H) where
  unfoldable pub compute_cost : Log → EvmResult ℕ
  compute_cost l = log_costs (length l.topics) (length l.contents)

  unfoldable pub record_log_costs_manual : ℕ → ℕ → H → EvmResult H
  record_log_costs_manual topics data_len h =
      and_then (log_costs topics data_len) λ cost. handle.record_cost cost h

  unfoldable pub record_log_costs : List Log → H → EvmResult H
  record_log_costs [] h = ok h
  record_log_costs (l ∷ logs) h =
      and_then (record_log_costs_manual (length l.topics) (length l.contents) h)
        λ h. record_log_costs logs h

  unfoldable pub check_function_modifier : FunctionModifier → H → EvmResult (Unit {0})
  check_function_modifier modifier h =
      if handle.is_static h && not (is_view modifier)
      then err (revert "can't call non-static function in static context")
      else if not (is_payable modifier) && ltb 0 (handle.apparent_value h)
      then err (revert "function is not payable")
      else ok tt

  -- `read_input`, `expect_arguments` and the reads of the arguments one after another.
  unfoldable pub read_arguments {ℓ} : {A : Type ℓ} → ℕ → EvmFields A → H → EvmResult A
  read_arguments args fs h =
      and_then (new_skip_selector (handle.input h))
        λ r. and_then (expect_arguments args r) λ _. run fs.read_fields r

-- What `try_dispatch` and the storage costs use of the runtime. A call that fails leaves the text that the
-- revert carries, one that succeeds the handle and the weight, if it is known.
pub record Dispatcher (H AccountId RuntimeCall : Type 0) : Type 0 where
  pub weight_to_gas : ℕ → ℕ
  pub db_read_weight : ℕ
  pub db_write_weight : ℕ
  pub dispatch_weight : RuntimeCall → ℕ
  pub dispatch : AccountId → RuntimeCall → H → String ⊎ (H × Option ℕ)

abbrev pub unwrap_or : Option ℕ → ℕ → ℕ
unwrap_or none n = n
unwrap_or (some m) n = m

module _ {H AccountId RuntimeCall : Type 0} (handle : PrecompileHandle H)
    (runtime : Dispatcher H AccountId RuntimeCall) where
  unfoldable pub db_read_gas_cost : ℕ
  db_read_gas_cost = runtime.weight_to_gas runtime.db_read_weight

  unfoldable pub db_write_gas_cost : ℕ
  db_write_gas_cost = runtime.weight_to_gas runtime.db_write_weight

  -- The end of `try_dispatch`, once the call has returned.
  abbrev pub charge : ℕ → String ⊎ (H × Option ℕ) → EvmResult H
  charge weight (inl text) = err (revert text)
  charge weight (inr (h, actual_weight)) =
      handle.record_cost (runtime.weight_to_gas (unwrap_or actual_weight weight)) h

  unfoldable pub try_dispatch : AccountId → RuntimeCall → H → EvmResult H
  try_dispatch origin call h =
      let weight = runtime.dispatch_weight call in
      if ltb (handle.remaining_gas h) (runtime.weight_to_gas weight)
      then err (error_with out_of_gas)
      else charge weight (runtime.dispatch origin call h)
