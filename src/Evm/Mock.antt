-- ===== src/Evm/Mock.antt =====
-- The mock handle of precompiles/utils/src/testing.rs. `none` is a panic: the tests are built with
-- overflow checks. The EVM's configuration and the closure that answers subcalls are parameters; a
-- closure has a state.
use neuroweb.Prelude.{
  ℕ, ◌+◌, ◌-◌, ◌^◌, Bool, true, false, not, ◌&&◌, Option, none, some, List, [], ◌∷◌, ◌++◌, ltb, leb,
  nat_eq, if◌then◌else◌,
}
use neuroweb.Abi.Failure.{ExitError, out_of_gas}
use neuroweb.Evm.{Log}

-- Of the `evm` crate: `Context`, `Transfer`, `ExitReason` and what is used of `Config`.
pub record Context : Type 0 where
  pub address : List ℕ
  pub caller : List ℕ
  pub apparent_value : ℕ

pub record Transfer : Type 0 where
  pub source : List ℕ
  pub target : List ℕ
  pub value : ℕ

pub data ExitReason : Type 0 where
  succeed_reason revert_reason fatal_reason : ExitReason
  error_reason : ExitError → ExitReason

pub record EvmConfig : Type 0 where
  pub increase_state_access_gas : Bool
  pub gas_account_access_cold : ℕ
  pub gas_storage_read_warm : ℕ
  pub gas_call : ℕ
  pub empty_considered_exists : Bool

pub record Subcall : Type 0 where
  pub address : List ℕ
  pub transfer : Option Transfer
  pub input : List ℕ
  pub target_gas : Option ℕ
  pub is_static : Bool
  pub context : Context

pub record SubcallOutput : Type 0 where
  pub reason : ExitReason
  pub output : List ℕ
  pub cost : ℕ
  pub logs : List Log

pub record MockHandle (C : Type 0) : Type 0 where
  pub gas_limit : ℕ
  pub gas_used : ℕ
  pub logs : List Log
  pub subcall_handle : Option C
  pub code_address : List ℕ
  pub input : List ℕ
  pub context : Context
  pub is_static : Bool

-- `MockHandle::new`
unfoldable pub new_handle : {C : Type 0} → List ℕ → Context → MockHandle C
new_handle code_address context = record {
  gas_limit = 2 ^ 64 - 1;
  gas_used = 0;
  logs = [];
  subcall_handle = none;
  code_address = code_address;
  input = [];
  context = context;
  is_static = false;
}

-- `+` on `u64`.
abbrev pub u64_add : ℕ → ℕ → Option ℕ
u64_add a b = if ltb (a + b) (2 ^ 64) then some (a + b) else none

abbrev pub bind {ℓ κ} : {A : Type ℓ} {B : Type κ} → Option A → (A → Option B) → Option B
bind none k = none
bind (some a) k = k a

unfoldable pub address_access_cost : Bool → ℕ → EvmConfig → ℕ
address_access_cost is_cold regular_value config =
    if config.increase_state_access_gas
    then if is_cold then config.gas_account_access_cold else config.gas_storage_read_warm
    else regular_value

-- `G_CALLVALUE`, `G_NEWACCOUNT`
abbrev pub g_callvalue : ℕ
g_callvalue = 9000

abbrev pub g_newaccount : ℕ
g_newaccount = 25000

unfoldable pub xfer_cost : Bool → Bool → ℕ
xfer_cost is_call_or_callcode transfers_value =
    if is_call_or_callcode && transfers_value then g_callvalue else 0

unfoldable pub new_cost : Bool → Bool → Bool → EvmConfig → ℕ
new_cost is_call_or_staticcall new_account transfers_value config =
    if is_call_or_staticcall
    then if not config.empty_considered_exists
      then if transfers_value && new_account then g_newaccount else 0
      else if new_account
      then g_newaccount
      else 0
    else 0

unfoldable pub call_cost : ℕ → EvmConfig → Option ℕ
call_cost value config =
    let transfers_value = not (nat_eq value 0) in
    bind
      (u64_add (address_access_cost true config.gas_call config) (xfer_cost true transfers_value))
      λ cost. u64_add cost (new_cost true true transfers_value config)

-- The outcome of a subcall: a reason, an output, and the handle.
abbrev pub CallResult : Type 0 → Type 0
CallResult C = Option (ExitReason × List ℕ × MockHandle C)

module _ {C : Type 0} where
  -- `record_cost`: the gas is counted even if it is too much.
  unfoldable pub record_cost : ℕ → MockHandle C → Option (Option ExitError × MockHandle C)
  record_cost cost h = bind (u64_add h.gas_used cost) λ gas_used.
      some (
        if ltb h.gas_limit gas_used then some out_of_gas else none,
        record h { gas_used = gas_used },
      )

  unfoldable pub remaining_gas : MockHandle C → Option ℕ
  remaining_gas h = if leb h.gas_used h.gas_limit then some (h.gas_limit - h.gas_used) else none

  unfoldable pub push_log : Log → MockHandle C → MockHandle C
  push_log l h = record h { logs = h.logs ++ (l ∷ []) }

  unfoldable pub push_logs : List Log → MockHandle C → MockHandle C
  push_logs [] h = h
  push_logs (l ∷ logs) h = push_logs logs (push_log l h)

  -- `if self.record_cost(..).is_err() { return .. }`
  unfoldable pub charged : ℕ → MockHandle C → (MockHandle C → CallResult C) → CallResult C
  charged cost h k =
      bind (record_cost cost h)
        λ (failure, h). elim failure [ none ↦ k h | some e ↦ some (error_reason out_of_gas, [], h) ]

  module _ (london : EvmConfig) (respond : C → Subcall → SubcallOutput × C) where
    unfoldable pub answered : C → Subcall → MockHandle C → CallResult C
    answered c subcall h =
        let (out, c) = respond c subcall in
        charged out.cost (record h { subcall_handle = some c })
          λ h. some (out.reason, out.output, push_logs out.logs h)

    -- The match on the registered closure.
    abbrev pub responded : Subcall → MockHandle C → CallResult C
    responded subcall h = elim h.subcall_handle [ none ↦ none | some c ↦ answered c subcall h ]

    unfoldable pub call : Subcall → MockHandle C → CallResult C
    call subcall h =
        bind (call_cost subcall.context.apparent_value london)
          λ cost. charged cost h (responded subcall)
