-- ===== src/Erc20/Tests/Static.antt =====
-- The ledger in a static context: a read of a balance, as precompiles/assets-erc20/src/lib.rs answers it.
use neuroweb.Prelude.{ℕ, ◌≡◌, refl, ◌⊎◌, true, false, arith}
use neuroweb.Abi.Reader.{read_selector, new_skip_selector, expect_arguments}
use neuroweb.Abi.Writer.{build, new_with_selector}
use neuroweb.Abi.Types.{u256, uint, address}
use neuroweb.Evm.{PrecompileHandle, read_arguments, check_function_modifier}
use neuroweb.Erc20.{balance_of_output, encoded}
use neuroweb.Erc20.Execute.{modifier_of, execute, execute_asset, run_action}
use neuroweb.Erc20.Requests.{Request, get_balance}
use neuroweb.Erc20.Static.{execute-static}
use neuroweb.AssetIds.{address_to_asset_id, asset_id_to_address}
use neuroweb.Prelude.Words.{to_be_bytes, from_be_bytes}
use neuroweb.Erc20.Tests.Ledger.{Account, Books, books_handle, books_runtime, spender, books}

abbrev static_handle : PrecompileHandle Books
static_handle = record books_handle { is_static = λ b. true }

abbrev reading : Request
reading = get_balance spender

abbrev balances_seen : Books → ℕ → Account → ℕ
balances_seen b = b.held

execute-static_example :
    (static_handle.apparent_value (books reading 10) ≡ 0)
    × ((static_handle.is_static (books reading 10) ≡ false)
        ⊎ (balances_seen (books reading 10) ≡ balances_seen (books reading 10)))
unfolding execute execute_asset run_action balance_of_output read_arguments check_function_modifier
    modifier_of address_to_asset_id asset_id_to_address to_be_bytes from_be_bytes read_selector
    build new_with_selector new_skip_selector expect_arguments u256 uint address
execute-static_example =
    execute-static static_handle books_runtime balances_seen (λ n b b' e. ground arith)
      (books reading 10) (books reading 10) (encoded u256 50) refl
