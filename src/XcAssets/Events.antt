-- ===== src/XcAssets/Events.antt =====
-- The events of pallets/xc-asset-config/src/lib.rs: whoever follows them knows the registry.
use neuroweb.Prelude.{
  ◌≡◌, ◌∙◌, sym, ap, refl, Option-cases, none, some, inl, inr, List, [], ◌∷◌, ◌++◌, Eq, arith,
}
use neuroweb.Storage.{get}
use neuroweb.Dispatch.{ok}
use neuroweb.XcAssets.{
  Config, Pallet, Event, asset_registered, units_per_second_changed, asset_location_changed,
  supported_asset_removed, asset_removed, Call, register, set_units, change, remove_payment,
  unregister, dispatch, register_asset_location, set_asset_units_per_second,
  change_existing_asset_location, remove_payment_asset, remove_asset,
}
use neuroweb.XcAssets.Registry.{
  Registry, described, registry, with_price, converted, dispatch-Follows,
}
use neuroweb.XcAssets.Histories.{Reach, start, later, called, elsewhere, Reach-IsConsistent}

-- What an event reports, as a call with its location in version 3.
abbrev pub reported : {V A : Type 0} → Event V A → Call V A
reported (asset_registered v i) = register v i
reported (units_per_second_changed v units) = set_units v units
reported (asset_location_changed old i v) = change v i
reported (supported_asset_removed v) = remove_payment v
reported (asset_removed v i) = unregister i

module _ {V A : Type 0} ⦃ev : Eq V⦄ ⦃ea : Eq A⦄ where
  abbrev pub empty_registry : Registry V A
  empty_registry i = none

  -- The registry after the events, the first of them first.
  abbrev pub replay : List (Event V A) → Registry V A → Registry V A
  replay [] r = r
  replay (e ∷ events) r = replay events (described (reported e) r)

  replay-append :
      (events : List (Event V A)) (e : Event V A) (r : Registry V A)
      → replay (events ++ (e ∷ [])) r ≡ described (reported e) (replay events r)
  replay-append [] e r = refl
  replay-append (d ∷ events) e r = replay-append events e (described (reported d) r)

  -- A description depends on the registry at each id alone.
  described-pointwise :
      (c : Call V A) (r q : Registry V A)
      → ((j : A) → r j ≡ q j)
      → (j : A) → described c r j ≡ described c q j
  described-pointwise (register v i) r q same j = rw (same j)
  described-pointwise (change v i) r q same j = rw (same j)
  described-pointwise (set_units v units) r q same j = ap (with_price v (some units)) (same j)
  described-pointwise (remove_payment v) r q same j = ap (with_price v none) (same j)
  described-pointwise (unregister i) r q same j = rw (same j)

module _ {V L A O W : Type 0} ⦃ev : Eq V⦄ ⦃ea : Eq A⦄ (cfg : Config V L A O W) where
  -- One event is deposited, and it reports the call.
  abbrev Reports : Call V A → Pallet V A W → Pallet V A W → Type 0
  Reports call s t =
      (e : Event V A) × (converted cfg call ≡ some (reported e)) × (t.events ≡ s.events ++ (e ∷ []))

  dispatch-Reports :
      (origin : O) (call : Call V A) (s t : Pallet V A W)
      → dispatch cfg origin call s ≡ ok t
      → Reports call s t
  unfolding dispatch register_asset_location set_asset_units_per_second
      change_existing_asset_location remove_payment_asset remove_asset
  dispatch-Reports origin (register loc i) s t h = elim (Option-cases (cfg.try_from loc)) [
    | inl bad ↦ ground arith
    | inr (l, e) ↦ (asset_registered (cfg.v3 l) i, ground arith, ground arith)
  ]
  dispatch-Reports origin (change loc i) s t h = elim (Option-cases (cfg.try_from loc)) [
    | inl bad ↦ ground arith
    | inr (l, e) ↦ elim (Option-cases (get i s.asset_id_to_location)) [
      | inl absent ↦ ground arith
      | inr (old, present) ↦ (asset_location_changed old i (cfg.v3 l), ground arith, ground arith)
    ]
  ]
  dispatch-Reports origin (set_units loc units) s t h = elim (Option-cases (cfg.try_from loc)) [
    | inl bad ↦ ground arith
    | inr (l, e) ↦ (units_per_second_changed (cfg.v3 l) units, ground arith, ground arith)
  ]
  dispatch-Reports origin (remove_payment loc) s t h = elim (Option-cases (cfg.try_from loc)) [
    | inl bad ↦ ground arith
    | inr (l, e) ↦ (supported_asset_removed (cfg.v3 l), ground arith, ground arith)
  ]
  dispatch-Reports origin (unregister i) s t h =
      elim (Option-cases (get i s.asset_id_to_location)) [
        | inl absent ↦ ground arith
        | inr (v, present) ↦ (asset_removed v i, refl, ground arith)
      ]

  -- In every state that calls lead to from an empty storage, which give away no location that has
  -- an id, the events deposited so far tell the location and the price of every asset.
  pub Reach-replay :
      (s : Pallet V A W) (j : A) → Reach cfg s → registry s j ≡ replay s.events empty_registry j
  unfolding get
  Reach-replay s j (start w) = refl
  Reach-replay t j (later {s} r (elsewhere w)) = Reach-replay s j r
  Reach-replay t j (later {s} r (called origin call free h)) =
      let (c, conv, follows) =
        dispatch-Follows cfg origin call s t (Reach-IsConsistent cfg s r) free h in
      let (e, conv', deposited) = dispatch-Reports origin call s t h in
      let same : c ≡ reported e = ground arith in
      follows j
      ∙ ap (λ x. described x (registry s) j) same
      ∙ described-pointwise (reported e) (registry s) (replay s.events empty_registry)
          (λ i. Reach-replay s i r) j
      ∙ sym (ap (λ f. f j) (replay-append s.events e empty_registry))
      ∙ sym (ap (λ events. replay events empty_registry j) deposited)
