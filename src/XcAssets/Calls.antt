-- ===== src/XcAssets/Calls.antt =====
-- What each dispatchable of pallets/xc-asset-config/src/lib.rs does to the maps when it succeeds, and
-- that the maps stay consistent.
use neuroweb.Prelude.{
  ℕ, true, Option-cases, none, some, inl, inr, ◌≡◌, Eq, ◌==◌, arith, if◌then◌else◌,
}
use neuroweb.Storage.{StorageMap, get, insert, remove, contains_key, get-insert, get-remove}
use neuroweb.Dispatch.{ok}
use neuroweb.XcAssets.{
  Config, Pallet, Call, register, set_units, change, remove_payment, unregister, move_units,
  dispatch, register_asset_location, set_asset_units_per_second, change_existing_asset_location,
  remove_payment_asset, remove_asset,
}
use neuroweb.XcAssets.Invariant.{
  IsConsistent, link-IsConsistent, unlink-IsConsistent, price-IsConsistent, unprice-IsConsistent,
  move-IsConsistent,
}

pub get-move_units :
    {V : Type 0} ⦃ev : Eq V⦄ (x v w : V) (m : StorageMap V ℕ)
    → get w m ≡ none
    → get x (move_units v w m) ≡ (if x == w then get v m else if x == v then none else get x m)
unfolding move_units
get-move_units ⦃ev⦄ x v w m free = elim (Option-cases (get v m)) [
  | inl unpriced ↦ ground (arith, ev.beq_iff x w, ev.beq_iff x v)
  | inr (u, priced) ↦
      ground
        (arith, get-remove x v m, get-insert x w u (remove v m), ev.beq_iff x w, ev.beq_iff x v)
]

module _ {V L A O W : Type 0} ⦃ev : Eq V⦄ ⦃ea : Eq A⦄ (cfg : Config V L A O W) where
  pub register-inversion :
      (origin : O) (loc : V) (i : A) (s t : Pallet V A W)
      → register_asset_location cfg origin loc i s ≡ ok t
      → (l : L) × (cfg.try_from loc ≡ some l)
        × (get i s.asset_id_to_location ≡ none)
        × (t.asset_id_to_location ≡ insert i (cfg.v3 l) s.asset_id_to_location)
        × (t.asset_location_to_id ≡ insert (cfg.v3 l) i s.asset_location_to_id)
        × (t.asset_location_units_per_second ≡ s.asset_location_units_per_second)
  unfolding register_asset_location
  register-inversion origin loc i s t h = ground arith

  pub change-inversion :
      (origin : O) (loc : V) (i : A) (s t : Pallet V A W)
      → change_existing_asset_location cfg origin loc i s ≡ ok t
      → (l : L) × (v : V) × (cfg.try_from loc ≡ some l)
        × (get i s.asset_id_to_location ≡ some v)
        × (t.asset_id_to_location ≡ insert i (cfg.v3 l) s.asset_id_to_location)
        × (t.asset_location_to_id ≡ remove v (insert (cfg.v3 l) i s.asset_location_to_id))
        × (t.asset_location_units_per_second
            ≡ move_units v (cfg.v3 l) s.asset_location_units_per_second)
  unfolding change_existing_asset_location
  change-inversion origin loc i s t h = ground arith

  pub set_units-inversion :
      (origin : O) (loc : V) (units : ℕ) (s t : Pallet V A W)
      → set_asset_units_per_second cfg origin loc units s ≡ ok t
      → (l : L) × (cfg.try_from loc ≡ some l)
        × (contains_key (cfg.v3 l) s.asset_location_to_id ≡ true)
        × (t.asset_id_to_location ≡ s.asset_id_to_location)
        × (t.asset_location_to_id ≡ s.asset_location_to_id)
        × (t.asset_location_units_per_second
            ≡ insert (cfg.v3 l) units s.asset_location_units_per_second)
  unfolding set_asset_units_per_second
  set_units-inversion origin loc units s t h = ground arith

  pub remove_payment-inversion :
      (origin : O) (loc : V) (s t : Pallet V A W)
      → remove_payment_asset cfg origin loc s ≡ ok t
      → (l : L) × (cfg.try_from loc ≡ some l)
        × (t.asset_id_to_location ≡ s.asset_id_to_location)
        × (t.asset_location_to_id ≡ s.asset_location_to_id)
        × (t.asset_location_units_per_second ≡ remove (cfg.v3 l) s.asset_location_units_per_second)
  unfolding remove_payment_asset
  remove_payment-inversion origin loc s t h = ground arith

  pub unregister-inversion :
      (origin : O) (i : A) (s t : Pallet V A W)
      → remove_asset cfg origin i s ≡ ok t
      → (v : V) × (get i s.asset_id_to_location ≡ some v)
        × (t.asset_id_to_location ≡ remove i s.asset_id_to_location)
        × (t.asset_location_to_id ≡ remove v s.asset_location_to_id)
        × (t.asset_location_units_per_second ≡ remove v s.asset_location_units_per_second)
  unfolding remove_asset
  unregister-inversion origin i s t h = ground arith

  -- No id has the location yet that the call is about to give away.
  abbrev pub IsFree : V → Pallet V A W → Type 0
  IsFree loc s = (l : L) → cfg.try_from loc ≡ some l → get (cfg.v3 l) s.asset_location_to_id ≡ none

  abbrev pub TakesFree : Call V A → Pallet V A W → Type 0
  TakesFree (register loc i) s = IsFree loc s
  TakesFree (change loc i) s = IsFree loc s
  TakesFree (set_units loc units) s = Unit
  TakesFree (remove_payment loc) s = Unit
  TakesFree (unregister i) s = Unit

  -- Every dispatchable that succeeds keeps the two maps inverse to one another and the prices on
  -- registered locations, if a location that it gives away has no id yet.
  pub dispatch-IsConsistent :
      (origin : O) (call : Call V A) (s t : Pallet V A W)
      → IsConsistent s
      → TakesFree call s
      → dispatch cfg origin call s ≡ ok t
      → IsConsistent t
  unfolding dispatch
  dispatch-IsConsistent origin (register loc i) s t c free h =
      let (l, e, hi, e1, e2, e3) = register-inversion origin loc i s t h in
      link-IsConsistent s t i (cfg.v3 l) c hi (free l e) e1 e2 e3
  dispatch-IsConsistent origin (change loc i) s t c free h =
      let (l, v, e, hi, e1, e2, e3) = change-inversion origin loc i s t h in
      let w = cfg.v3 l in
      let m = s.asset_location_units_per_second in
      move-IsConsistent s t i v w (move_units v w m) c hi (free l e)
        (λ x. get-move_units x v w m (c.priced w (free l e))) e1 e2 e3
  dispatch-IsConsistent origin (set_units loc units) s t c free h =
      let (l, _, known, e1, e2, e3) = set_units-inversion origin loc units s t h in
      price-IsConsistent s t (cfg.v3 l) units c known e1 e2 e3
  dispatch-IsConsistent origin (remove_payment loc) s t c free h =
      let (l, _, e1, e2, e3) = remove_payment-inversion origin loc s t h in
      unprice-IsConsistent s t (cfg.v3 l) c e1 e2 e3
  dispatch-IsConsistent origin (unregister i) s t c free h =
      let (v, hi, e1, e2, e3) = unregister-inversion origin i s t h in
      unlink-IsConsistent s t i v c hi e1 e2 e3
