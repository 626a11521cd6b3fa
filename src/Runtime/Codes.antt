-- ===== src/Runtime/Codes.antt =====
-- `EvmRevertCodeHandler` of runtime/src/lib.rs: the callback of the asset pallet that puts code at the
-- address of a registered asset.
use neuroweb.Prelude.{
  ℕ, ◌<◌, ◌^◌, ◌≡◌, sym, ap, ◌∙◌, Option, none, some, inl, inr, Bool-cases, List, [], ◌∷◌, Eq,
  nat_eq, nat_eq_iff, nat_instance, bytes_eq_iff, bytes_instance, arith,
}
use neuroweb.Storage.{StorageMap, get, insert, remove, get-insert, get-remove}
use neuroweb.Dispatch.{ok}
use neuroweb.AssetIds.{
  address_to_asset_id, asset_id_to_address, address_to_asset_id-asset_id_to_address,
}
use neuroweb.XcAssets.{
  Config, Pallet, Call, register, set_units, change, remove_payment, unregister, dispatch,
  register_asset_location, set_asset_units_per_second, change_existing_asset_location,
  remove_payment_asset, remove_asset,
}
use neuroweb.XcAssets.Calls.{
  register-inversion, set_units-inversion, change-inversion, remove_payment-inversion,
  unregister-inversion,
}

-- `pallet_evm::AccountCodes`
abbrev pub AccountCodes : Type 0
AccountCodes = StorageMap (List ℕ) (List ℕ)

abbrev pub revert_code : List ℕ
revert_code = 0x60 ∷ 0x00 ∷ 0x60 ∷ 0x00 ∷ 0xfd ∷ []

unfoldable pub xc_asset_registered : ℕ → AccountCodes → AccountCodes
xc_asset_registered asset_id codes = insert (asset_id_to_address asset_id) revert_code codes

unfoldable pub xc_asset_unregistered : ℕ → AccountCodes → AccountCodes
xc_asset_unregistered asset_id codes = remove (asset_id_to_address asset_id) codes

asset_id_to_address-injective :
    (i j : ℕ) → i < 2 ^ 128 → j < 2 ^ 128 → asset_id_to_address i ≡ asset_id_to_address j → i ≡ j
asset_id_to_address-injective i j small small' e =
    let same : some i ≡ some j =
      sym (address_to_asset_id-asset_id_to_address i small)
      ∙ ap address_to_asset_id e
      ∙ address_to_asset_id-asset_id_to_address j small' in
    ground arith

abbrev code_of : {V : Type 0} → Option V → Option (List ℕ)
code_of none = none
code_of (some v) = some revert_code

module _ {V : Type 0} where
  -- An asset of 128 bits has the revert code at its address exactly if it is registered.
  pub record HasCodes (s : Pallet V ℕ AccountCodes) : Type 0 where
    pub code_at :
        (i : ℕ)
        → i < 2 ^ 128
        → get (asset_id_to_address i) s.world ≡ code_of (get i s.asset_id_to_location)

  register-HasCodes :
      (s t : Pallet V ℕ AccountCodes) (i : ℕ) (v : V)
      → i < 2 ^ 128
      → HasCodes s
      → t.asset_id_to_location ≡ insert i v s.asset_id_to_location
      → t.world ≡ xc_asset_registered i s.world
      → HasCodes t
  unfolding xc_asset_registered
  register-HasCodes s t i v small c e w = record {
    code_at = λ j small'. elim (Bool-cases (nat_eq j i)) [
      | inl same ↦ ground (
        arith,
        nat_eq_iff j i,
        get-insert j i v s.asset_id_to_location,
        get-insert (asset_id_to_address j) (asset_id_to_address i) revert_code s.world,
        bytes_eq_iff (asset_id_to_address j) (asset_id_to_address i),
        ap asset_id_to_address ((nat_eq_iff j i).0 same),
      )
      | inr other ↦ ground (
        arith,
        get-insert j i v s.asset_id_to_location,
        get-insert (asset_id_to_address j) (asset_id_to_address i) revert_code s.world,
        bytes_eq_iff (asset_id_to_address j) (asset_id_to_address i),
        asset_id_to_address-injective j i small' small,
        nat_eq_iff j i,
        c.code_at j small',
      )
    ];
  }

  unregister-HasCodes :
      (s t : Pallet V ℕ AccountCodes) (i : ℕ)
      → i < 2 ^ 128
      → HasCodes s
      → t.asset_id_to_location ≡ remove i s.asset_id_to_location
      → t.world ≡ xc_asset_unregistered i s.world
      → HasCodes t
  unfolding xc_asset_unregistered
  unregister-HasCodes s t i small c e w = record {
    code_at = λ j small'. elim (Bool-cases (nat_eq j i)) [
      | inl same ↦ ground (
        arith,
        nat_eq_iff j i,
        get-remove j i s.asset_id_to_location,
        get-remove (asset_id_to_address j) (asset_id_to_address i) s.world,
        bytes_eq_iff (asset_id_to_address j) (asset_id_to_address i),
        ap asset_id_to_address ((nat_eq_iff j i).0 same),
      )
      | inr other ↦ ground (
        arith,
        get-remove j i s.asset_id_to_location,
        get-remove (asset_id_to_address j) (asset_id_to_address i) s.world,
        bytes_eq_iff (asset_id_to_address j) (asset_id_to_address i),
        asset_id_to_address-injective j i small' small,
        nat_eq_iff j i,
        c.code_at j small',
      )
    ];
  }

  change-HasCodes :
      (s t : Pallet V ℕ AccountCodes) (i : ℕ) (v w : V)
      → HasCodes s
      → get i s.asset_id_to_location ≡ some v
      → t.asset_id_to_location ≡ insert i w s.asset_id_to_location
      → t.world ≡ s.world
      → HasCodes t
  change-HasCodes s t i v w c h e same = record {
    code_at = λ j small.
        ground (arith, get-insert j i w s.asset_id_to_location, nat_eq_iff j i, c.code_at j small);
  }

  same-HasCodes :
      (s t : Pallet V ℕ AccountCodes)
      → HasCodes s
      → t.asset_id_to_location ≡ s.asset_id_to_location
      → t.world ≡ s.world
      → HasCodes t
  same-HasCodes s t c e same = record { code_at = λ j small. ground (arith, c.code_at j small) }

-- The ids of the runtime have 128 bits.
abbrev pub CallOk : {V : Type 0} → Call V ℕ → Type 0
CallOk (register loc i) = i < 2 ^ 128
CallOk (set_units loc units) = Unit
CallOk (change loc i) = Unit
CallOk (remove_payment loc) = Unit
CallOk (unregister i) = i < 2 ^ 128

-- The pallet with this callback.
abbrev pub with_codes : {V L O : Type 0} → Config V L ℕ O AccountCodes → Config V L ℕ O AccountCodes
with_codes cfg = record cfg {
  xc_asset_registered = xc_asset_registered;
  xc_asset_unregistered = xc_asset_unregistered;
}

module _ {V L O : Type 0} ⦃ev : Eq V⦄ (cfg : Config V L ℕ O AccountCodes) where
  register-world :
      (origin : O) (loc : V) (i : ℕ) (s t : Pallet V ℕ AccountCodes)
      → register_asset_location (with_codes cfg) origin loc i s ≡ ok t
      → t.world ≡ xc_asset_registered i s.world
  unfolding register_asset_location
  register-world origin loc i s t h = ground arith

  unregister-world :
      (origin : O) (i : ℕ) (s t : Pallet V ℕ AccountCodes)
      → remove_asset (with_codes cfg) origin i s ≡ ok t
      → t.world ≡ xc_asset_unregistered i s.world
  unfolding remove_asset
  unregister-world origin i s t h = ground arith

  change-world :
      (origin : O) (loc : V) (i : ℕ) (s t : Pallet V ℕ AccountCodes)
      → change_existing_asset_location (with_codes cfg) origin loc i s ≡ ok t
      → t.world ≡ s.world
  unfolding change_existing_asset_location
  change-world origin loc i s t h = ground arith

  set_units-world :
      (origin : O) (loc : V) (units : ℕ) (s t : Pallet V ℕ AccountCodes)
      → set_asset_units_per_second (with_codes cfg) origin loc units s ≡ ok t
      → t.world ≡ s.world
  unfolding set_asset_units_per_second
  set_units-world origin loc units s t h = ground arith

  remove_payment-world :
      (origin : O) (loc : V) (s t : Pallet V ℕ AccountCodes)
      → remove_payment_asset (with_codes cfg) origin loc s ≡ ok t
      → t.world ≡ s.world
  unfolding remove_payment_asset
  remove_payment-world origin loc s t h = ground arith

  -- Every dispatchable of the asset pallet that succeeds, on ids of 128 bits, keeps the revert code
  -- at the addresses of the registered assets and no code at those of all others.
  pub dispatch-HasCodes :
      (origin : O) (call : Call V ℕ) (s t : Pallet V ℕ AccountCodes)
      → HasCodes s
      → CallOk call
      → dispatch (with_codes cfg) origin call s ≡ ok t
      → HasCodes t
  unfolding dispatch
  dispatch-HasCodes origin (register loc i) s t c small h =
      let (l, e, free, e1, e2, e3) = register-inversion (with_codes cfg) origin loc i s t h in
      register-HasCodes s t i (cfg.v3 l) small c e1 (register-world origin loc i s t h)
  dispatch-HasCodes origin (set_units loc units) s t c small h =
      let (l, e, known, e1, e2, e3) = set_units-inversion (with_codes cfg) origin loc units s t h in
      same-HasCodes s t c e1 (set_units-world origin loc units s t h)
  dispatch-HasCodes origin (change loc i) s t c small h =
      let (l, v, e, known, e1, e2, e3) = change-inversion (with_codes cfg) origin loc i s t h in
      change-HasCodes s t i v (cfg.v3 l) c known e1 (change-world origin loc i s t h)
  dispatch-HasCodes origin (remove_payment loc) s t c small h =
      let (l, e, e1, e2, e3) = remove_payment-inversion (with_codes cfg) origin loc s t h in
      same-HasCodes s t c e1 (remove_payment-world origin loc s t h)
  dispatch-HasCodes origin (unregister i) s t c small h =
      let (v, e, e1, e2, e3) = unregister-inversion (with_codes cfg) origin i s t h in
      unregister-HasCodes s t i small c e1 (unregister-world origin i s t h)
