-- ===== src/Erc20/Tests/Custody.antt =====
-- The ledger holds balances as precompiles/assets-erc20/src/lib.rs relies on, and the theorems on
-- losses and the supply, at a transfer on behalf of another account and at a burn.
use neuroweb.Prelude.{
  nat_eq_iff, bytes_eq_iff, nat_eq, if◌then◌else◌, ◌-◌, ℕ, ◌+◌, ◌≤◌, ◌≡◌, refl, ◌⊎◌, inl, inr, Bool,
  false, Option, bytes_eq, arith,
}
use neuroweb.Erc20.{
  AssetsCall, cancel_approval_call, approve_transfer_call, transfer_call, transfer_approved_call,
  mint_call, burn_call,
}
use neuroweb.Abi.Reader.{read_selector, new_skip_selector, expect_arguments}
use neuroweb.Abi.Writer.{build, new_with_selector}
use neuroweb.Abi.Types.{u256, u128, uint, address}
use neuroweb.Evm.{
  log3, try_dispatch, read_arguments, record_log_costs_manual, log_costs, check_function_modifier,
}
use neuroweb.Erc20.Changes.{burn_output, record_log, transfer_from_output, transfer_from_call}
use neuroweb.Erc20.Execute.{modifier_of, execute, execute_asset, run_action}
use neuroweb.AssetIds.{address_to_asset_id, asset_id_to_address}
use neuroweb.Prelude.Words.{to_be_bytes, from_be_bytes}
use neuroweb.Abi.Types.{bool}
use neuroweb.Erc20.{encoded}
use neuroweb.Prelude.{true}
use neuroweb.Erc20.Custody.{takes, amount_of, IsCustody, MayLose}
use neuroweb.Erc20.Issuance.{supply, issued, destroyed, IsIssuance, minted, burned}
use neuroweb.Erc20.Issuance.Supply.{execute_supply}
use neuroweb.Erc20.Losses.{execute-MayLose}
use neuroweb.Erc20.Requests.{Request, burn_from}
use neuroweb.Erc20.Spending.{IsCall}
use neuroweb.Erc20.Tests.{selector-injective}
use neuroweb.Erc20.Tests.Ledger.{
  take_away, Account, Books, settle, issuer, books_handle, books_runtime, books-IsLedger,
  books-KeepsInput, spender, books, spending, spent, spending-IsCall,
}

abbrev is_issuer : ℕ → Account → Books → Bool
is_issuer id who b = bytes_eq who issuer

settle-taken :
    (origin : Account) (call : AssetsCall Account) (b b' : Books) (w : Option ℕ) (j : ℕ)
    (o : Account)
    → settle origin call b ≡ inr (b', w)
    → takes books_handle books_runtime origin call j o ≡ false
    → b.held j o ≤ b'.held j o
settle-taken origin (cancel_approval_call id delegate) b b' w j o e free = ground arith
settle-taken origin (approve_transfer_call id delegate amount) b b' w j o e free = ground arith
settle-taken origin (transfer_approved_call id owner destination amount) b b' w j o e free =
    ground arith
settle-taken origin (transfer_call id target amount) b b' w j o e free = ground arith
settle-taken origin (mint_call id beneficiary amount) b b' w j o e free = ground arith
settle-taken origin (burn_call id who amount) b b' w j o e free = ground arith

settle-limited :
    (origin : Account) (call : AssetsCall Account) (b b' : Books) (w : Option ℕ) (j : ℕ)
    (o : Account)
    → settle origin call b ≡ inr (b', w)
    → (b.held j o ≤ b'.held j o + amount_of books_handle books_runtime call) ⊎ (b'.held j o ≡ 0)
settle-limited origin (cancel_approval_call id delegate) b b' w j o e = inl (ground arith)
settle-limited origin (approve_transfer_call id delegate amount) b b' w j o e = inl (ground arith)
settle-limited origin (transfer_approved_call id owner destination amount) b b' w j o e =
    inl (ground arith)
settle-limited origin (transfer_call id target amount) b b' w j o e = inl (ground arith)
settle-limited origin (mint_call id beneficiary amount) b b' w j o e = inl (ground arith)
settle-limited origin (burn_call id who amount) b b' w j o e = inl (ground arith)

books-IsCustody : IsCustody books_handle books_runtime is_issuer
books-IsCustody = record {
  charge_admin = λ n b b' j o e. refl;
  charge_balance = λ n b b' j o e. ground arith;
  log_balance = λ l b b' j o e. ground arith;
  taken = settle-taken;
  limited = settle-limited;
  burns = λ origin who id amount b b' w e. ground arith;
}

execute-MayLose_example :
    MayLose books_handle books_runtime is_issuer spending 7 (books spending 10) 7 spender 46
unfolding execute execute_asset run_action transfer_from_output transfer_from_call record_log
    try_dispatch read_arguments record_log_costs_manual log_costs check_function_modifier log3
    modifier_of address_to_asset_id asset_id_to_address to_be_bytes from_be_bytes read_selector
    build new_with_selector new_skip_selector expect_arguments u256 u128 uint address
execute-MayLose_example =
    execute-MayLose books_handle books_runtime books-IsLedger is_issuer books-IsCustody spending 7
      (books spending 10) spent (encoded bool true) 7 spender books-KeepsInput selector-injective
      spending-IsCall refl (omega arith)

settle_supply :
    (origin : Account) (call : AssetsCall Account) (b b' : Books) (w : Option ℕ) (j : ℕ)
    → settle origin call b ≡ inr (b', w)
    → b'.issued j + destroyed books_handle books_runtime call j b b'
      ≡ b.issued j + issued books_handle books_runtime call j
settle_supply origin (cancel_approval_call id delegate) b b' w j e = ground arith
settle_supply origin (approve_transfer_call id delegate amount) b b' w j e = ground arith
settle_supply origin (transfer_approved_call id owner destination amount) b b' w j e = ground arith
settle_supply origin (transfer_call id target amount) b b' w j e = ground arith
settle_supply origin (mint_call id beneficiary amount) b b' w j e = ground arith
settle_supply origin (burn_call id who amount) b b' w j e =
    ground (arith, nat_eq_iff j id, bytes_eq_iff who who)

books-IsIssuance : IsIssuance books_handle books_runtime
books-IsIssuance = record {
  charge_supply = λ n b b' j e. ground arith;
  log_supply = λ l b b' j e. ground arith;
  moves_supply = settle_supply;
}

-- A burn of 60 of the 50 units of an account.
abbrev burning : Request
burning = burn_from spender 60

abbrev burnt : Books
burnt = record (books burning 10) {
  held = take_away 7 spender 60 (λ j o. 50);
  issued = λ j. if nat_eq j 7 then 90 - 50 else 90;
}

burning-IsCall : IsCall books_handle books_runtime books-IsLedger burning 7 (books burning 10)
unfolding modifier_of address_to_asset_id asset_id_to_address to_be_bytes from_be_bytes
burning-IsCall = record {
  small = omega arith;
  valid = (refl, omega arith);
  input = refl;
  asset = refl;
  supply = 90;
  exists = refl;
  not_static = refl;
  no_value = refl;
}

execute_supply_example :
    supply books_handle books_runtime 7 burnt
      + burned books_handle books_runtime burning 7 7 (books burning 10) burnt
    ≡ supply books_handle books_runtime 7 (books burning 10)
      + minted books_handle books_runtime burning 7 7
unfolding execute execute_asset run_action burn_output try_dispatch read_arguments
    check_function_modifier modifier_of address_to_asset_id asset_id_to_address to_be_bytes
    from_be_bytes read_selector build new_with_selector new_skip_selector expect_arguments u256 u128
    uint address
execute_supply_example =
    execute_supply books_handle books_runtime books-IsLedger is_issuer books-IsCustody
      books-IsIssuance burning 7 (books burning 10) burnt (encoded bool true) 7 books-KeepsInput
      selector-injective burning-IsCall refl
