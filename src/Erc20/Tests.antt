-- ===== src/Erc20/Tests.antt =====
-- A concrete machine, and the theorems on the asset precompile at concrete inputs.
mod Ledger
mod Custody
mod Static
use neuroweb.Prelude.{
  ℕ, ◌-◌, ◌≡◌, ◌↔◌, refl, inl, inr, false, Bool-cases, none, some, List, [], ◌∷◌, ltb, nat_eq,
  bytes_eq, replicate, if◌then◌else◌, arith,
}
use neuroweb.Prelude.Words.{to_be_bytes, from_be_bytes}
use neuroweb.Abi.Failure.{EvmResult, ok, err, error_with, out_of_gas, and_then}
use neuroweb.Abi.Reader.{read_selector}
use neuroweb.Abi.Writer.{build, bake_offsets, new_with_selector, write_raw_bytes}
use neuroweb.Abi.Types.{address, u128, uint}
use neuroweb.Evm.{Log, PrecompileHandle}
use neuroweb.AssetIds.{address_to_asset_id, asset_id_to_address}
use neuroweb.Erc20.{
  Action, total_supply, balance_of, allowance, transfer, approve, transfer_from, name, symbol,
  decimals, minimum_balance, mint, burn, increase_allowance, decrease_allowance, actions, action_in,
  Assets, AssetsCall, Output,
}
use neuroweb.Erc20.Changes.{transfer_output}
use neuroweb.Erc20.Execute.{modifier_of, run_action, execute_asset, execute}
use neuroweb.Erc20.Decoding.{calldata, address_u256}
use neuroweb.Erc20.Requests.{
  Request, mint_for, transfer_to, encode_request, prepay, effect, KeepsInput,
}
use neuroweb.Erc20.Guards.{execute_asset-guards, execute_iff, execute-request}
use neuroweb.Erc20.Amounts.{mints, solidity_call, run_action-truncates}

pub record Machine : Type 0 where
  pub bytes : List ℕ
  pub code : List ℕ
  pub context : List ℕ
  pub gas : ℕ
  pub supply : ℕ
  pub logs : List Log
  pub calls : List (AssetsCall (List ℕ))

abbrev spend : ℕ → Machine → EvmResult Machine
spend n m = if ltb m.gas n then err (error_with out_of_gas) else ok (record m { gas = m.gas - n })

abbrev pub contract : List ℕ
contract = replicate 20 3

abbrev pub machine_handle : PrecompileHandle Machine
machine_handle = record {
  input = λ m. m.bytes;
  code_address = λ m. m.code;
  context_address = λ m. m.context;
  caller = λ m. contract;
  apparent_value = λ m. 0;
  is_static = λ m. false;
  remaining_gas = λ m. m.gas;
  record_cost = spend;
  log = λ l m. ok (record m { logs = l ∷ m.logs });
}

-- The selectors of the Solidity interface.
abbrev pub solidity_selector : Action → ℕ
solidity_selector total_supply = 0x18160ddd
solidity_selector balance_of = 0x70a08231
solidity_selector allowance = 0xdd62ed3e
solidity_selector transfer = 0xa9059cbb
solidity_selector approve = 0x095ea7b3
solidity_selector transfer_from = 0x23b872dd
solidity_selector name = 0x06fdde03
solidity_selector symbol = 0x95d89b41
solidity_selector decimals = 0x313ce567
solidity_selector minimum_balance = 0xb9d1d49b
solidity_selector mint = 0x40c10f19
solidity_selector burn = 0x9dc29fac
solidity_selector increase_allowance = 0x39509351
solidity_selector decrease_allowance = 0xa457c2d7

abbrev pub machine_runtime : Assets Machine (List ℕ)
machine_runtime = record {
  dispatcher = record {
    weight_to_gas = λ w. w;
    db_read_weight = 100;
    db_write_weight = 200;
    dispatch_weight = λ call. 1000;
    dispatch = λ who call m. inr (record m { calls = call ∷ m.calls }, none);
  };
  address_to_asset_id = address_to_asset_id;
  into_account_id = λ a m. a;
  account_eq = bytes_eq;
  selector_of = solidity_selector;
  selector_log_transfer = replicate 32 1;
  selector_log_approval = replicate 32 2;
  maybe_total_supply = λ id m. if nat_eq id 7 then some m.supply else none;
  asset_balance = λ id who m. 50;
  asset_allowance = λ id owner spender m. 0;
  asset_name = λ id m. [];
  asset_symbol = λ id m. [];
  asset_decimals = λ id m. 12;
  asset_minimum_balance = λ id m. 1;
}

pub machine-KeepsInput : KeepsInput machine_handle machine_runtime
machine-KeepsInput n m m' e = elim (Bool-cases (ltb m.gas n)) [
  | inl poor ↦ ground arith
  | inr rich ↦ ground arith
]

self_selected : (a : Action) → action_in solidity_selector actions (solidity_selector a) ≡ some a
self_selected total_supply = refl
self_selected balance_of = refl
self_selected allowance = refl
self_selected transfer = refl
self_selected approve = refl
self_selected transfer_from = refl
self_selected name = refl
self_selected symbol = refl
self_selected decimals = refl
self_selected minimum_balance = refl
self_selected mint = refl
self_selected burn = refl
self_selected increase_allowance = refl
self_selected decrease_allowance = refl

pub selector-injective : (a b : Action) → solidity_selector a ≡ solidity_selector b → a ≡ b
selector-injective a b e =
    let found : some a ≡ some b = cc (self_selected a, self_selected b) in ground arith

abbrev receiver : List ℕ
receiver = replicate 20 4

abbrev pub with_input : List ℕ → ℕ → Machine
with_input bytes supply = record {
  bytes = bytes;
  code = asset_id_to_address 7;
  context = asset_id_to_address 7;
  gas = 100000;
  supply = supply;
  logs = [];
  calls = [];
}

abbrev pub request : Request
request = transfer_to receiver 5

abbrev pub requested : Machine
requested = with_input (encode_request solidity_selector request) 90

execute-request_example :
    execute machine_handle machine_runtime requested
    ≡ some (
        and_then
          (prepay machine_handle machine_runtime request requested)
          (effect machine_handle machine_runtime request 7))
unfolding modifier_of address_to_asset_id asset_id_to_address to_be_bytes from_be_bytes
execute-request_example =
    execute-request machine_handle machine_runtime request 7 90 requested machine-KeepsInput
      selector-injective (omega arith) (refl, omega arith) refl refl refl refl refl

-- 2 ^ 128 + 5 mints 5.
abbrev excessive : ℕ
excessive = 340282366920938463463374607431768211461

abbrev minting : Machine
minting = with_input (solidity_call solidity_selector (mints receiver) excessive) 90

run_action-truncates_example :
    run_action machine_handle machine_runtime mint 7 minting
    ≡ and_then
        (prepay machine_handle machine_runtime (mint_for receiver 5) minting)
        (effect machine_handle machine_runtime (mint_for receiver 5) 7)
run_action-truncates_example =
    run_action-truncates machine_handle machine_runtime (mints receiver) excessive 7 minting
      machine-KeepsInput refl (omega arith) refl
