-- ===== src/Erc20/Tests/Ledger.antt =====
-- A ledger of allowances and balances that behaves as precompiles/assets-erc20/src/lib.rs relies
-- on, and the theorem on allowances at an approval.
use Prim.Native.String.{String}
use neuroweb.Prelude.{
  ℕ, ◌+◌, ◌-◌, ◌≡◌, refl, ◌⊎◌, inl, inr, Bool, true, false, ◌&&◌, Option, none, some, List, [], ◌∷◌,
  leb, nat_eq, bytes_eq, bytes_eq_iff, nat_eq_iff, min, replicate, if◌then◌else◌, arith,
}
use neuroweb.Prelude.Words.{to_be_bytes, from_be_bytes}
use neuroweb.Abi.Failure.{ok}
use neuroweb.Abi.Reader.{read_selector, new_skip_selector, expect_arguments}
use neuroweb.Abi.Writer.{build, new_with_selector}
use neuroweb.Abi.Types.{u256, u128, uint, address, bool, pad_address}
use neuroweb.Evm.{
  Log, PrecompileHandle, log3, try_dispatch, read_arguments, record_log_costs_manual, log_costs,
  check_function_modifier,
}
use neuroweb.Erc20.Changes.{approve_output, approve_spender, clear_approval, record_log}
use neuroweb.Erc20.Execute.{modifier_of, execute, execute_asset, run_action}
use neuroweb.AssetIds.{address_to_asset_id, asset_id_to_address}
use neuroweb.Erc20.{
  Assets, AssetsCall, cancel_approval_call, approve_transfer_call, transfer_call,
  transfer_approved_call, mint_call, burn_call, max_balance, encoded,
}
use neuroweb.Erc20.Requests.{Request, approve_for, transfer_between, encode_request, KeepsInput}
use neuroweb.Erc20.Ledger.{IsLedger, moved}
use neuroweb.Erc20.Spending.{IsCall, execute-allowances}
use neuroweb.Erc20.Tests.{contract, solidity_selector, selector-injective}

abbrev pub Account : Type 0
Account = List ℕ

pub record Books : Type 0 where
  pub bytes : List ℕ
  pub logs : List Log
  pub allowed : ℕ → Account → Account → ℕ
  pub held : ℕ → Account → ℕ
  pub issued : ℕ → ℕ

abbrev pub is_entry : ℕ → Account → Account → ℕ → Account → Account → Bool
is_entry id owner spender j o d = nat_eq j id && (bytes_eq o owner && bytes_eq d spender)

-- A balance is at most the greatest one.
abbrev pub allowance_of : ℕ → Account → Account → Books → ℕ
allowance_of j o d b = min (b.allowed j o d) max_balance

abbrev pub with_entry : ℕ → Account → Account → ℕ → Books → Books
with_entry id owner spender n b = record b {
  allowed = λ j o d. if is_entry id owner spender j o d then n else allowance_of j o d b;
}

abbrev pub is_holder : ℕ → Account → ℕ → Account → Bool
is_holder id who j o = nat_eq j id && bytes_eq o who

abbrev pub take_away : ℕ → Account → ℕ → (ℕ → Account → ℕ) → ℕ → Account → ℕ
take_away id who amount held j o = if is_holder id who j o then held j o - amount else held j o

abbrev pub give : ℕ → Account → ℕ → (ℕ → Account → ℕ) → ℕ → Account → ℕ
give id who amount held j o = if is_holder id who j o then held j o + amount else held j o

-- The account that mints and burns.
abbrev pub issuer : Account
issuer = contract

abbrev pub settle : Account → AssetsCall Account → Books → String ⊎ (Books × Option ℕ)
settle origin (cancel_approval_call id delegate) b = inr (with_entry id origin delegate 0 b, none)
settle origin (approve_transfer_call id delegate amount) b =
    let sum = allowance_of id origin delegate b + amount in
    if leb sum max_balance then inr (with_entry id origin delegate sum b, none) else inl "Overflow"
settle origin (transfer_approved_call id owner destination amount) b =
    let old = allowance_of id owner origin b in
    if leb amount old && leb amount (b.held id owner)
    then inr (
      record (with_entry id owner origin (old - amount) b) {
        held = give id destination amount (take_away id owner amount b.held);
      },
      none,
    )
    else inl "Unapproved"
settle origin (transfer_call id target amount) b =
    if leb amount (b.held id origin)
    then inr (record b { held = give id target amount (take_away id origin amount b.held) }, none)
    else inl "BalanceLow"
settle origin (mint_call id beneficiary amount) b =
    if bytes_eq origin issuer
    then inr (
      record b {
        held = give id beneficiary amount b.held;
        issued = λ j. if nat_eq j id then b.issued j + amount else b.issued j;
      },
      none,
    )
    else inl "NoPermission"
settle origin (burn_call id who amount) b =
    let burned = min amount (b.held id who) in
    if bytes_eq origin issuer && leb burned (b.issued id)
    then inr (
      record b {
        held = take_away id who amount b.held;
        issued = λ j. if nat_eq j id then b.issued j - burned else b.issued j;
      },
      none,
    )
    else inl "NoPermission"

abbrev pub books_handle : PrecompileHandle Books
books_handle = record {
  input = λ b. b.bytes;
  code_address = λ b. asset_id_to_address 7;
  context_address = λ b. asset_id_to_address 7;
  caller = λ b. contract;
  apparent_value = λ b. 0;
  is_static = λ b. false;
  remaining_gas = λ b. 1000;
  record_cost = λ n b. ok b;
  log = λ l b. ok (record b { logs = l ∷ b.logs });
}

abbrev pub books_runtime : Assets Books Account
books_runtime = record {
  dispatcher = record {
    weight_to_gas = λ w. w;
    db_read_weight = 100;
    db_write_weight = 200;
    dispatch_weight = λ call. 1000;
    dispatch = settle;
  };
  address_to_asset_id = address_to_asset_id;
  into_account_id = λ a b. a;
  account_eq = bytes_eq;
  selector_of = solidity_selector;
  selector_log_transfer = replicate 32 1;
  selector_log_approval = replicate 32 2;
  maybe_total_supply = λ id b. some (b.issued id);
  asset_balance = λ id who b. b.held id who;
  asset_allowance = allowance_of;
  asset_name = λ id b. [];
  asset_symbol = λ id b. [];
  asset_decimals = λ id b. 12;
  asset_minimum_balance = λ id b. 1;
}

settle-moved :
    (origin : Account) (call : AssetsCall Account) (b b' : Books) (w : Option ℕ) (j : ℕ)
    (o d : Account)
    → settle origin call b ≡ inr (b', w)
    → allowance_of j o d b' ≡ moved books_handle books_runtime origin call b j o d
settle-moved origin (cancel_approval_call id delegate) b b' w j o d e = ground arith
settle-moved origin (approve_transfer_call id delegate amount) b b' w j o d e =
    ground (arith, nat_eq_iff j id, bytes_eq_iff o origin, bytes_eq_iff d delegate)
settle-moved origin (transfer_approved_call id owner destination amount) b b' w j o d e =
    ground (arith, nat_eq_iff j id, bytes_eq_iff o owner, bytes_eq_iff d origin)
settle-moved origin (transfer_call id target amount) b b' w j o d e = ground arith
settle-moved origin (mint_call id beneficiary amount) b b' w j o d e = ground arith
settle-moved origin (burn_call id who amount) b b' w j o d e = ground arith

pub books-IsLedger : IsLedger books_handle books_runtime
books-IsLedger = record {
  account_eq_iff = bytes_eq_iff;
  charge = λ n b b' e. record {
    same_caller = refl;
    same_accounts = λ a. refl;
    same_allowances = λ j o d. ground arith;
  };
  logged = λ l b b' e. record {
    same_caller = refl;
    same_accounts = λ a. refl;
    same_allowances = λ j o d. ground arith;
  };
  bounded = λ j o d b. omega arith;
  moves = settle-moved;
  covered = λ origin owner destination id amount b b' w e. ground arith;
}

pub books-KeepsInput : KeepsInput books_handle books_runtime
books-KeepsInput n b b' e = ground arith

abbrev pub spender : List ℕ
spender = replicate 20 4

abbrev pub books : Request → ℕ → Books
books r n = record {
  bytes = encode_request solidity_selector r;
  logs = [];
  allowed = λ j o d. n;
  held = λ j o. 50;
  issued = λ j. 90;
}

-- An approval of 25 in place of one of 10.
abbrev approval : Request
approval = approve_for spender 25

abbrev approval_log : Log
approval_log =
    log3 (record { emitter = asset_id_to_address 7 }) (replicate 32 2) (pad_address contract)
      (pad_address spender) (encoded u256 25)

abbrev approved : Books
approved =
    record (with_entry 7 contract spender 25
      (with_entry 7 contract spender 0 (books approval 10))) { logs = approval_log ∷ [] }

approval-IsCall : IsCall books_handle books_runtime books-IsLedger approval 7 (books approval 10)
unfolding modifier_of address_to_asset_id asset_id_to_address to_be_bytes from_be_bytes
approval-IsCall = record {
  small = omega arith;
  valid = (refl, omega arith);
  input = refl;
  asset = refl;
  supply = 90;
  exists = refl;
  not_static = refl;
  no_value = refl;
}

execute-allowances_example : allowance_of 7 contract spender approved ≡ 25
unfolding execute execute_asset run_action approve_output approve_spender clear_approval record_log
    try_dispatch read_arguments record_log_costs_manual log_costs check_function_modifier log3
    modifier_of address_to_asset_id asset_id_to_address to_be_bytes from_be_bytes read_selector
    build new_with_selector new_skip_selector expect_arguments u256 u128 uint address
execute-allowances_example =
    execute-allowances books_handle books_runtime books-IsLedger books-KeepsInput selector-injective
      approval 7 (books approval 10) approved (encoded bool true) 7 contract spender approval-IsCall
      refl

-- The caller spends 4 of the 10 that another account approved for it.
abbrev pub spending : Request
spending = transfer_between spender contract 4

abbrev pub spent : Books
spent = record (with_entry 7 spender contract 6 (books spending 10)) {
  held = give 7 contract 4 (take_away 7 spender 4 (λ j o. 50));
  logs =
      log3 (record { emitter = asset_id_to_address 7 }) (replicate 32 1) (pad_address spender)
        (pad_address contract) (encoded u128 4)
      ∷ [];
}

pub spending-IsCall :
    IsCall books_handle books_runtime books-IsLedger spending 7 (books spending 10)
unfolding modifier_of address_to_asset_id asset_id_to_address to_be_bytes from_be_bytes
spending-IsCall = record {
  small = omega arith;
  valid = (refl, refl, omega arith);
  input = refl;
  asset = refl;
  supply = 90;
  exists = refl;
  not_static = refl;
  no_value = refl;
}
