-- ===== src/Runtime/Filters.antt =====
-- The call filters: `ProxyType` of runtime/src/lib.rs and `SafeCallFilter` of runtime/src/xcm_config.rs.
use neuroweb.Prelude.{Bool, true, false, not, ◌≡◌, ◌↔◌, refl, arith}

-- `RuntimeCall`, as far as the filters tell calls apart; `system_other` and the like are the other calls of
-- a pallet, `other` those of the remaining pallets.
pub data RuntimeCall : Type 0 where
  kill_prefix set_heap_pages system_other : RuntimeCall
  timestamp balances assets : RuntimeCall
  vested_transfer vesting_other : RuntimeCall
  purge_keys session_other : RuntimeCall
  treasury council democracy polkadot_xcm : RuntimeCall
  as_derivative : RuntimeCall → RuntimeCall
  utility_other : RuntimeCall
  add_registrar set_identity clear_identity request_judgement cancel_request : RuntimeCall
  set_fee set_account_id set_fields provide_judgement kill_identity : RuntimeCall
  add_sub rename_sub remove_sub quit_sub identity_other : RuntimeCall
  other : RuntimeCall

pub data ProxyType : Type 0 where
  any non_transfer governance : ProxyType

unfoldable pub is_transfer : RuntimeCall → Bool
is_transfer balances = true
is_transfer assets = true
is_transfer vested_transfer = true
is_transfer c = false

unfoldable pub is_governance : RuntimeCall → Bool
is_governance democracy = true
is_governance council = true
is_governance treasury = true
is_governance c = false

-- `InstanceFilter::filter`
unfoldable pub filter : ProxyType → RuntimeCall → Bool
filter any c = true
filter non_transfer c = not (is_transfer c)
filter governance c = is_governance c

-- `is_superset`: the arms of the match in their order.
unfoldable pub is_superset : ProxyType → ProxyType → Bool
is_superset any any = true
is_superset non_transfer non_transfer = true
is_superset governance governance = true
is_superset any o = true
is_superset x any = false
is_superset non_transfer o = true
is_superset governance o = false

-- `SafeCallFilter::contains`, without the benchmarks' exception.
unfoldable pub safe_call : RuntimeCall → Bool
safe_call kill_prefix = true
safe_call set_heap_pages = true
safe_call timestamp = true
safe_call balances = true
safe_call purge_keys = true
safe_call treasury = true
safe_call vested_transfer = true
safe_call vesting_other = true
safe_call (as_derivative call) = true
safe_call add_registrar = true
safe_call set_identity = true
safe_call clear_identity = true
safe_call request_judgement = true
safe_call cancel_request = true
safe_call set_fee = true
safe_call set_account_id = true
safe_call set_fields = true
safe_call provide_judgement = true
safe_call kill_identity = true
safe_call add_sub = true
safe_call rename_sub = true
safe_call remove_sub = true
safe_call quit_sub = true
safe_call polkadot_xcm = true
safe_call c = false

governance_no_transfer : (c : RuntimeCall) → is_governance c ≡ true → not (is_transfer c) ≡ true
unfolding is_governance is_transfer
governance_no_transfer democracy h = refl
governance_no_transfer council h = refl
governance_no_transfer treasury h = refl
governance_no_transfer c h = ground arith

-- A proxy type is a superset of another exactly if it allows every call that the other allows.
pub is_superset_iff :
    (x y : ProxyType)
    → (is_superset x y ≡ true) ↔ ((c : RuntimeCall) → filter y c ≡ true → filter x c ≡ true)
unfolding is_superset filter is_transfer is_governance
is_superset_iff any any = (λ e c h. h, λ h. refl)
is_superset_iff any non_transfer = (λ e c h. refl, λ h. refl)
is_superset_iff any governance = (λ e c h. refl, λ h. refl)
is_superset_iff non_transfer any = (λ e. ground arith, λ h. h balances refl)
is_superset_iff non_transfer non_transfer = (λ e c h. h, λ h. refl)
is_superset_iff non_transfer governance = (λ e c h. governance_no_transfer c h, λ h. refl)
is_superset_iff governance any = (λ e. ground arith, λ h. h balances refl)
is_superset_iff governance non_transfer = (λ e. ground arith, λ h. h timestamp refl)
is_superset_iff governance governance = (λ e c h. h, λ h. refl)
