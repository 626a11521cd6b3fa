-- ===== src/XcAssets/Histories.antt =====
-- All states that the calls of pallets/xc-asset-config/src/lib.rs lead to from an empty storage.
use neuroweb.Prelude.{true, none, some, ◌≡◌, ◌≢◌, [], ◌∷◌, ◌++◌, Eq, arith}
use neuroweb.Storage.{get, remove, get-insert, get-remove}
use neuroweb.Dispatch.{ok}
use neuroweb.XcAssets.{
  Config, Pallet, Call, register, unregister, dispatch, register_asset_location, remove_asset,
  register_writes, get_asset_id, asset_removed,
}
use neuroweb.XcAssets.Invariant.{IsConsistent}
use neuroweb.XcAssets.Calls.{TakesFree, dispatch-IsConsistent}
use neuroweb.XcAssets.Registry.{registry}

abbrev pub genesis : {V A W : Type 0} → W → Pallet V A W
genesis w = record {
  asset_id_to_location = [];
  asset_location_to_id = [];
  asset_location_units_per_second = [];
  events = [];
  world = w;
}

-- A call that succeeds and gives no location away that has an id, or a change outside the pallet. A call
-- that fails leaves no trace.
pub data Step {V L A O W : Type 0} ⦃ev : Eq V⦄ ⦃ea : Eq A⦄ (cfg : Config V L A O W)
    (s : Pallet V A W) : Pallet V A W → Type 0 where
  called :
      (origin : O) (call : Call V A) {t : Pallet V A W}
      → TakesFree cfg call s
      → dispatch cfg origin call s ≡ ok t
      → Step cfg s t
  elsewhere : (w : W) → Step cfg s (record s { world = w })

pub data Reach {V L A O W : Type 0} ⦃ev : Eq V⦄ ⦃ea : Eq A⦄ (cfg : Config V L A O W)
    : Pallet V A W → Type 0 where
  start : (w : W) → Reach cfg (genesis w)
  later : {s t : Pallet V A W} → Reach cfg s → Step cfg s t → Reach cfg t

module _ {V L A O W : Type 0} ⦃ev : Eq V⦄ ⦃ea : Eq A⦄ (cfg : Config V L A O W) where
  genesis-IsConsistent : (w : W) → IsConsistent {V = V} {A = A} (genesis w)
  unfolding get
  genesis-IsConsistent w = record {
    forward = λ i v h. ground arith;
    backward = λ i v h. ground arith;
    priced = λ v h. ground arith;
  }

  Step-IsConsistent : (s t : Pallet V A W) → IsConsistent s → Step cfg s t → IsConsistent t
  Step-IsConsistent s t c (called origin call free h) =
      dispatch-IsConsistent cfg origin call s t c free h
  Step-IsConsistent s t c (elsewhere w) = record {
    forward = c.forward;
    backward = c.backward;
    priced = c.priced;
  }

  pub Reach-IsConsistent : (s : Pallet V A W) → Reach cfg s → IsConsistent s
  Reach-IsConsistent s (start w) = genesis-IsConsistent w
  Reach-IsConsistent t (later {s} r step) = Step-IsConsistent s t (Reach-IsConsistent s r) step

  -- In every state that calls lead to from an empty storage, which give away no location that has
  -- an id, no two assets have the same location.
  pub Reach-locations_distinct :
      (s : Pallet V A W) (i j : A) (v : V)
      → Reach cfg s
      → i ≢ j
      → get i s.asset_id_to_location ≡ some v
      → get j s.asset_id_to_location ≢ some v
  Reach-locations_distinct s i j v r ne hi hj =
      let c = Reach-IsConsistent s r in
      let same : i ≡ j = ground (arith, c.forward i v hi, c.forward j v hj) in ne same

  abbrev pub removed : A → V → Pallet V A W → Pallet V A W
  removed i v s = record s {
    asset_id_to_location = remove i s.asset_id_to_location;
    asset_location_to_id = remove v s.asset_location_to_id;
    asset_location_units_per_second = remove v s.asset_location_units_per_second;
    world = cfg.xc_asset_unregistered i s.world;
    events = s.events ++ (asset_removed v i ∷ []);
  }

  remove_asset-removed :
      (origin : O) (i : A) (v : V) (s : Pallet V A W)
      → cfg.is_manager origin ≡ true
      → get i s.asset_id_to_location ≡ some v
      → remove_asset cfg origin i s ≡ ok (removed i v s)
  unfolding remove_asset
  remove_asset-removed origin i v s hm hi = rw (hm, hi)

  register-registered :
      (origin : O) (i : A) (l : L) (s : Pallet V A W)
      → cfg.try_from (cfg.v3 l) ≡ some l
      → cfg.is_manager origin ≡ true
      → get i s.asset_id_to_location ≡ none
      → register_asset_location cfg origin (cfg.v3 l) i s ≡ ok (register_writes cfg (cfg.v3 l) i s)
  unfolding register_asset_location
  register-registered origin i l s back hm hi = ground arith

  -- From every state that calls lead to from an empty storage, which give away no location that has
  -- an id, the manager can hand the location of an asset, of version 3, to any id that has none, by
  -- a removal and a registration: both succeed and lead to such a state, in which the new id has
  -- the location, without a price, and the location resolves to it, if locations of version 3
  -- convert back.
  pub Reach-can_reassign :
      (try_from-v3 : (l : L) → cfg.try_from (cfg.v3 l) ≡ some l) (origin : O) (i j : A) (l : L)
      (s : Pallet V A W)
      → Reach cfg s
      → cfg.is_manager origin ≡ true
      → get i s.asset_id_to_location ≡ some (cfg.v3 l)
      → get j s.asset_id_to_location ≡ none
      → (t : Pallet V A W) × (u : Pallet V A W) × (dispatch cfg origin (unregister i) s ≡ ok t)
        × (dispatch cfg origin (register (cfg.v3 l) j) t ≡ ok u)
        × Reach cfg u
        × (registry u j ≡ some (cfg.v3 l, none))
        × (get_asset_id cfg l u ≡ some j)
  unfolding dispatch get_asset_id
  Reach-can_reassign back origin i j l s r hm hi hj =
      let v = cfg.v3 l in
      let t = removed i v s in
      let u = register_writes cfg v j t in
      let first = remove_asset-removed origin i v s hm hi in
      let free : get v t.asset_location_to_id ≡ none =
        ground (arith, get-remove v v s.asset_location_to_id, ev.beq_iff v v) in
      let fresh : get j t.asset_id_to_location ≡ none =
        ground (arith, get-remove j i s.asset_id_to_location) in
      let second = register-registered origin j l t (back l) hm fresh in
      let still = later r (called origin (unregister i) tt first) in
      let taken : TakesFree cfg (register v j) t = λ m e. ground (arith, back l) in
      (
        t,
        u,
        first,
        second,
        later still (called origin (register v j) taken second),
        ground (
          arith,
          get-insert j j v t.asset_id_to_location,
          get-remove v v s.asset_location_units_per_second,
          ea.beq_iff j j,
          ev.beq_iff v v,
        ),
        ground (arith, get-insert v v j t.asset_location_to_id, ev.beq_iff v v),
      )
