-- ===== src/XcAssets/Invariant.antt =====
-- The maps of pallets/xc-asset-config/src/lib.rs stay inverse to one another.
use neuroweb.Prelude.{ℕ, true, none, some, ◌≡◌, Eq, ◌==◌, arith, if◌then◌else◌}
use neuroweb.Storage.{StorageMap, get, insert, remove, contains_key, get-insert, get-remove}
use neuroweb.XcAssets.{Pallet}

module _ {V A W : Type 0} ⦃ev : Eq V⦄ ⦃ea : Eq A⦄ where
  -- An id has a location exactly if that location has the id, and only registered locations have a
  -- price.
  pub record IsConsistent (s : Pallet V A W) : Type 0 where
    pub forward :
        (i : A) (v : V)
        → get i s.asset_id_to_location ≡ some v
        → get v s.asset_location_to_id ≡ some i
    pub backward :
        (i : A) (v : V)
        → get v s.asset_location_to_id ≡ some i
        → get i s.asset_id_to_location ≡ some v
    pub priced :
        (v : V)
        → get v s.asset_location_to_id ≡ none
        → get v s.asset_location_units_per_second ≡ none

  -- Registration of a free id at a free location.
  pub link-IsConsistent :
      (s t : Pallet V A W) (i : A) (v : V)
      → IsConsistent s
      → get i s.asset_id_to_location ≡ none
      → get v s.asset_location_to_id ≡ none
      → t.asset_id_to_location ≡ insert i v s.asset_id_to_location
      → t.asset_location_to_id ≡ insert v i s.asset_location_to_id
      → t.asset_location_units_per_second ≡ s.asset_location_units_per_second
      → IsConsistent t
  link-IsConsistent s t i v c hi hv e1 e2 e3 = record {
    forward = λ j w h. ground (
      arith,
      get-insert j i v s.asset_id_to_location,
      get-insert w v i s.asset_location_to_id,
      ea.beq_iff j i,
      ev.beq_iff w v,
      c.forward j w,
    );
    backward = λ j w h. ground (
      arith,
      get-insert j i v s.asset_id_to_location,
      get-insert w v i s.asset_location_to_id,
      ea.beq_iff j i,
      ev.beq_iff w v,
      c.backward j w,
    );
    priced =
        λ w h. ground (arith, get-insert w v i s.asset_location_to_id, ev.beq_iff w v, c.priced w);
  }

  pub unlink-IsConsistent :
      (s t : Pallet V A W) (i : A) (v : V)
      → IsConsistent s
      → get i s.asset_id_to_location ≡ some v
      → t.asset_id_to_location ≡ remove i s.asset_id_to_location
      → t.asset_location_to_id ≡ remove v s.asset_location_to_id
      → t.asset_location_units_per_second ≡ remove v s.asset_location_units_per_second
      → IsConsistent t
  unlink-IsConsistent s t i v c hi e1 e2 e3 = record {
    forward = λ j w h. ground (
      arith,
      get-remove j i s.asset_id_to_location,
      get-remove w v s.asset_location_to_id,
      ea.beq_iff j i,
      ev.beq_iff w v,
      c.forward j w,
      c.forward i v,
    );
    backward = λ j w h. ground (
      arith,
      get-remove j i s.asset_id_to_location,
      get-remove w v s.asset_location_to_id,
      ea.beq_iff j i,
      ev.beq_iff w v,
      c.backward j w,
    );
    priced = λ w h. ground (
      arith,
      get-remove w v s.asset_location_to_id,
      get-remove w v s.asset_location_units_per_second,
      c.priced w,
    );
  }

  -- A new price for a registered location.
  pub price-IsConsistent :
      (s t : Pallet V A W) (v : V) (units : ℕ)
      → IsConsistent s
      → contains_key v s.asset_location_to_id ≡ true
      → t.asset_id_to_location ≡ s.asset_id_to_location
      → t.asset_location_to_id ≡ s.asset_location_to_id
      → t.asset_location_units_per_second ≡ insert v units s.asset_location_units_per_second
      → IsConsistent t
  price-IsConsistent s t v units c hv e1 e2 e3 = record {
    forward = λ j w h. ground (arith, c.forward j w);
    backward = λ j w h. ground (arith, c.backward j w);
    priced = λ w h.
        ground (
          arith,
          get-insert w v units s.asset_location_units_per_second,
          ev.beq_iff w v,
          c.priced w,
        );
  }

  pub unprice-IsConsistent :
      (s t : Pallet V A W) (v : V)
      → IsConsistent s
      → t.asset_id_to_location ≡ s.asset_id_to_location
      → t.asset_location_to_id ≡ s.asset_location_to_id
      → t.asset_location_units_per_second ≡ remove v s.asset_location_units_per_second
      → IsConsistent t
  unprice-IsConsistent s t v c e1 e2 e3 = record {
    forward = λ j w h. ground (arith, c.forward j w);
    backward = λ j w h. ground (arith, c.backward j w);
    priced = λ w h. ground (arith, get-remove w v s.asset_location_units_per_second, c.priced w);
  }

  -- A registered id moves to a free location, with its price.
  pub move-IsConsistent :
      (s t : Pallet V A W) (i : A) (v w : V) (prices : StorageMap V ℕ)
      → IsConsistent s
      → get i s.asset_id_to_location ≡ some v
      → get w s.asset_location_to_id ≡ none
      → ((x : V)
          → get x prices ≡ (
              if x == w
              then get v s.asset_location_units_per_second
              else if x == v
              then none
              else get x s.asset_location_units_per_second))
      → t.asset_id_to_location ≡ insert i w s.asset_id_to_location
      → t.asset_location_to_id ≡ remove v (insert w i s.asset_location_to_id)
      → t.asset_location_units_per_second ≡ prices
      → IsConsistent t
  move-IsConsistent s t i v w prices c hi hw hp e1 e2 e3 = record {
    forward = λ j x h. ground (
      arith,
      get-insert j i w s.asset_id_to_location,
      get-remove x v (insert w i s.asset_location_to_id),
      get-insert x w i s.asset_location_to_id,
      ea.beq_iff j i,
      ev.beq_iff x v,
      ev.beq_iff x w,
      c.forward j x,
      c.forward i v,
    );
    backward = λ j x h. ground (
      arith,
      get-insert j i w s.asset_id_to_location,
      get-remove x v (insert w i s.asset_location_to_id),
      get-insert x w i s.asset_location_to_id,
      ea.beq_iff j i,
      ev.beq_iff x v,
      ev.beq_iff x w,
      c.backward j x,
    );
    priced = λ x h. ground (
      arith,
      hp x,
      get-remove x v (insert w i s.asset_location_to_id),
      get-insert x w i s.asset_location_to_id,
      ev.beq_iff x v,
      ev.beq_iff x w,
      c.priced x,
      c.priced w,
      c.forward i v,
    );
  }
