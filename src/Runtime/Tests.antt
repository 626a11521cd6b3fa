-- ===== src/Runtime/Tests.antt =====
-- The theorems on codes and filters at concrete inputs.
mod Weights
mod Merge
mod Fees
use neuroweb.Prelude.{
  some, nat_instance, ℕ, ◌+◌, ◌-◌, ◌*◌, ◌/◌, ◌≤◌, ◌≡◌, ◌↔◌, refl, true, [], ◌∷◌, arith,
}
use neuroweb.Storage.{get}
use neuroweb.XcAssets.{Config, Pallet, register, dispatch, register_asset_location, register_writes}
use neuroweb.Runtime.Codes.{AccountCodes, HasCodes, with_codes, dispatch-HasCodes}
use neuroweb.Runtime.Filters.{
  RuntimeCall, non_transfer, governance, filter, is_superset, is_superset_iff, safe_call,
  as_derivative, utility_other,
}

is_superset_example :
    (is_superset non_transfer governance ≡ true)
    ↔ ((c : RuntimeCall) → filter governance c ≡ true → filter non_transfer c ≡ true)
is_superset_example = is_superset_iff non_transfer governance

-- The filter lets a derivative call through, whatever the call in it.
derivative : safe_call (as_derivative utility_other) ≡ true
unfolding safe_call
derivative = refl

-- Locations are numbers that all convert, and anyone is the manager.
abbrev config : Config ℕ ℕ ℕ ℕ AccountCodes
config = record {
  try_from = λ v. some v;
  v3 = λ l. l;
  xc_asset_registered = λ i w. w;
  xc_asset_unregistered = λ i w. w;
  is_manager = λ o. true;
}

abbrev no_assets : Pallet ℕ ℕ AccountCodes
no_assets = record {
  asset_id_to_location = [];
  asset_location_to_id = [];
  asset_location_units_per_second = [];
  events = [];
  world = [];
}

no_assets-HasCodes : HasCodes no_assets
unfolding get
no_assets-HasCodes = record { code_at = λ i small. refl }

dispatch-HasCodes_example : HasCodes (register_writes (with_codes config) 3 7 no_assets)
unfolding dispatch register_asset_location get
dispatch-HasCodes_example =
    dispatch-HasCodes config 0 (register 3 7) no_assets
      (register_writes (with_codes config) 3 7 no_assets) no_assets-HasCodes (omega arith) refl
