-- ===== src/XcAssets/Lookups.antt =====
-- What the lookups of pallets/xc-asset-config/src/lib.rs answer after each dispatchable.
use neuroweb.Prelude.{true, none, some, ◌≡◌, ◌≢◌, ◌↔◌, Eq, ◌==◌, arith, if◌then◌else◌}
use neuroweb.Storage.{get, insert, get-insert, get-remove}
use neuroweb.Dispatch.{ok}
use neuroweb.XcAssets.{
  Config, Pallet, get_xc_asset_location, get_asset_id, get_units_per_second, register_writes,
  change_writes, register_asset_location, change_existing_asset_location, remove_asset,
}
use neuroweb.XcAssets.Invariant.{IsConsistent}
use neuroweb.XcAssets.Calls.{
  register-inversion, change-inversion, unregister-inversion, get-move_units,
}

module _ {V L A O W : Type 0} ⦃ev : Eq V⦄ ⦃ea : Eq A⦄ (cfg : Config V L A O W)
    (try_from-v3 : (l : L) → cfg.try_from (cfg.v3 l) ≡ some l) where
  v3-injective : (l m : L) → cfg.v3 l ≡ cfg.v3 m → l ≡ m
  v3-injective l m e = cc (try_from-v3 l, try_from-v3 m)

  -- Registration succeeds exactly for the manager, with a location that converts and an id that
  -- has none, if locations of version 3 convert back.
  pub register_iff :
      (origin : O) (loc : V) (i : A) (s : Pallet V A W)
      → ((t : Pallet V A W) × (register_asset_location cfg origin loc i s ≡ ok t)) ↔ (
          (cfg.is_manager origin ≡ true)
          × (get i s.asset_id_to_location ≡ none)
          × ((l : L) × (cfg.try_from loc ≡ some l)))
  unfolding register_asset_location
  register_iff origin loc i s =
      (λ (t, h). ground arith, λ (m, f, (l, e)). (register_writes cfg (cfg.v3 l) i s, ground arith))

  -- After a registration at a location of version 3 that succeeds, the id resolves to the location
  -- and the location to the id; nothing else changes, if locations of version 3 convert back.
  pub register_lookups :
      (origin : O) (l : L) (i j : A) (m : L) (s t : Pallet V A W)
      → register_asset_location cfg origin (cfg.v3 l) i s ≡ ok t
      → (get_xc_asset_location cfg j t ≡ (if j == i then some l else get_xc_asset_location cfg j s))
        × (get_asset_id cfg m t ≡ (if cfg.v3 m == cfg.v3 l then some i else get_asset_id cfg m s))
        × (get_units_per_second cfg m t ≡ get_units_per_second cfg m s)
  unfolding get_xc_asset_location get_asset_id get_units_per_second
  register_lookups origin l i j m s t h =
      let (k, e, hi, e1, e2, e3) = register-inversion cfg origin (cfg.v3 l) i s t h in
      ground (
        arith,
        try_from-v3 l,
        get-insert j i (cfg.v3 k) s.asset_id_to_location,
        get-insert (cfg.v3 m) (cfg.v3 k) i s.asset_location_to_id,
      )

  -- After a change that succeeds to a location of version 3 that has no id, in a consistent state,
  -- the id resolves to the new location and back; the old location, of version 3 too, is given up,
  -- and its price, which the new one inherits; nothing else changes, if locations of version 3
  -- convert back.
  pub change_lookups :
      (origin : O) (l old : L) (i j : A) (m : L) (s t : Pallet V A W)
      → IsConsistent s
      → get i s.asset_id_to_location ≡ some (cfg.v3 old)
      → get_asset_id cfg l s ≡ none
      → change_existing_asset_location cfg origin (cfg.v3 l) i s ≡ ok t
      → (get_xc_asset_location cfg j t ≡ (if j == i then some l else get_xc_asset_location cfg j s))
        × (get_asset_id cfg m t ≡ (
            if cfg.v3 m == cfg.v3 l
            then some i
            else if cfg.v3 m == cfg.v3 old
            then none
            else get_asset_id cfg m s))
        × (get_units_per_second cfg m t ≡ (
            if cfg.v3 m == cfg.v3 l
            then get_units_per_second cfg old s
            else if cfg.v3 m == cfg.v3 old
            then none
            else get_units_per_second cfg m s))
  unfolding get_xc_asset_location get_asset_id get_units_per_second
  change_lookups origin l old i j m s t c ho free h =
      let (k, v, e, hi, e1, e2, e3) = change-inversion cfg origin (cfg.v3 l) i s t h in
      ground (
        arith,
        try_from-v3 l,
        get-insert j i (cfg.v3 l) s.asset_id_to_location,
        get-remove (cfg.v3 m) (cfg.v3 old) (insert (cfg.v3 l) i s.asset_location_to_id),
        get-insert (cfg.v3 m) (cfg.v3 l) i s.asset_location_to_id,
        get-move_units (cfg.v3 m) (cfg.v3 old) (cfg.v3 l) s.asset_location_units_per_second,
        c.priced (cfg.v3 l),
        c.forward i (cfg.v3 old),
        ev.beq_iff (cfg.v3 m) (cfg.v3 l),
        ev.beq_iff (cfg.v3 m) (cfg.v3 old),
      )

  -- After a removal that succeeds neither the id nor its location of version 3 nor a price is
  -- left, and all others are as before, if locations of version 3 convert back.
  pub remove_lookups :
      (origin : O) (l m : L) (i j : A) (s t : Pallet V A W)
      → get i s.asset_id_to_location ≡ some (cfg.v3 l)
      → remove_asset cfg origin i s ≡ ok t
      → (get_xc_asset_location cfg j t ≡ (if j == i then none else get_xc_asset_location cfg j s))
        × (get_asset_id cfg m t ≡ (if cfg.v3 m == cfg.v3 l then none else get_asset_id cfg m s))
        × (get_units_per_second cfg m t
            ≡ (if cfg.v3 m == cfg.v3 l then none else get_units_per_second cfg m s))
  unfolding get_xc_asset_location get_asset_id get_units_per_second
  remove_lookups origin l m i j s t hi h =
      let (v, hv, e1, e2, e3) = unregister-inversion cfg origin i s t h in
      ground (
        arith,
        get-remove j i s.asset_id_to_location,
        get-remove (cfg.v3 m) (cfg.v3 l) s.asset_location_to_id,
        get-remove (cfg.v3 m) (cfg.v3 l) s.asset_location_units_per_second,
      )

  -- A change by the manager to the location of version 3 that the asset already has succeeds and
  -- loses the way back: the id still resolves to the location, the location to no id, if locations
  -- of version 3 convert back.
  pub change_same_location :
      (origin : O) (l : L) (i : A) (s : Pallet V A W)
      → cfg.is_manager origin ≡ true
      → get i s.asset_id_to_location ≡ some (cfg.v3 l)
      → (t : Pallet V A W) × (change_existing_asset_location cfg origin (cfg.v3 l) i s ≡ ok t)
        × (get_xc_asset_location cfg i t ≡ some l)
        × (get_asset_id cfg l t ≡ none)
  unfolding change_existing_asset_location get_xc_asset_location get_asset_id
  change_same_location origin l i s hm hi = (
    change_writes cfg (cfg.v3 l) (cfg.v3 l) i s,
    rw (hm, try_from-v3 l, hi),
    ground (arith, try_from-v3 l, get-insert i i (cfg.v3 l) s.asset_id_to_location, ea.beq_iff i i),
    ground (
      arith,
      get-remove (cfg.v3 l) (cfg.v3 l) (insert (cfg.v3 l) i s.asset_location_to_id),
      ev.beq_iff (cfg.v3 l) (cfg.v3 l),
    ),
  )

  -- Registration by the manager of a second id, which has no location, at a location of version 3
  -- that is taken succeeds, and the location no longer resolves to the first id, which still has
  -- it, if locations of version 3 convert back.
  pub register_taken_location :
      (origin : O) (l : L) (i j : A) (s : Pallet V A W)
      → cfg.is_manager origin ≡ true
      → i ≢ j
      → get i s.asset_id_to_location ≡ some (cfg.v3 l)
      → get j s.asset_id_to_location ≡ none
      → (t : Pallet V A W) × (register_asset_location cfg origin (cfg.v3 l) j s ≡ ok t)
        × (get_xc_asset_location cfg i t ≡ some l)
        × (get_asset_id cfg l t ≡ some j)
  unfolding register_asset_location get_xc_asset_location get_asset_id
  register_taken_location origin l i j s hm ne hi hj = (
    register_writes cfg (cfg.v3 l) j s,
    ground (arith, try_from-v3 l),
    ground (arith, try_from-v3 l, get-insert i j (cfg.v3 l) s.asset_id_to_location, ea.beq_iff i j),
    ground (
      arith,
      get-insert (cfg.v3 l) (cfg.v3 l) j s.asset_location_to_id,
      ev.beq_iff (cfg.v3 l) (cfg.v3 l),
    ),
  )
