-- ===== src/XcAssets/UpgradeChecks.antt =====
-- The checks of `try-runtime` around the upgrade in pallets/xc-asset-config/src/migrations.rs. The
-- codec of the entries is a parameter.
use neuroweb.Prelude.{
  ℕ, ◌≡◌, ◌↔◌, refl, Bool, true, false, ◌&&◌, Option, none, some, Option-cases, Bool-cases, inl,
  inr, List, [], ◌∷◌, Eq, ◌==◌, ltb, nat_eq, length, if◌then◌else◌, arith,
}
use neuroweb.Storage.{StorageMap, get, insert, contains_key, get-insert}
use neuroweb.XcAssets.{Pallet}
use neuroweb.XcAssets.Invariant.{IsConsistent}
use neuroweb.XcAssets.Migration.{Upgrade, OnChain, convert_values, convert_keys, on_runtime_upgrade}
use neuroweb.XcAssets.Conversions.{IsDistinct, get-convert_values, convert_keys-inversion}
use neuroweb.XcAssets.Upgrades.{
  IsConvertible, registered, converted_location, converted_price, migrated,
}

-- A check passes, fails with a message, or panics at an assertion.
pub data Check : Type 0 where
  passed cannot_decode panicked : Check

-- `pre_upgrade`; `none` is a panic.
unfoldable pub pre_upgrade :
    {V A W : Type 0} → (List (A × V) → List ℕ) → OnChain V A W → Option (List ℕ)
pre_upgrade encode s = if ltb s.version 2 then some (encode s.pallet.asset_id_to_location) else none

abbrev pub is_id : {A : Type 0} ⦃ea : Eq A⦄ → A → Option A → Bool
is_id id none = false
is_id id (some other) = other == id

module _ {V A W : Type 0} ⦃ev : Eq V⦄ ⦃ea : Eq A⦄ where
  -- The assertions on one asset.
  abbrev pub check_location : A → Option V → Pallet V A W → Bool
  check_location id none s = false
  check_location id (some new_location) s =
      is_id id (get new_location s.asset_location_to_id)
      && contains_key new_location s.asset_location_units_per_second

  unfoldable pub check_entries : List (A × V) → Pallet V A W → Bool
  check_entries [] s = true
  check_entries ((id, legacy) ∷ entries) s =
      check_location id (get id s.asset_id_to_location) s && check_entries entries s

  abbrev pub check_decoded : Option (List (A × V)) → Pallet V A W → Check
  check_decoded none s = cannot_decode
  check_decoded (some legacy) s =
      if nat_eq (length legacy) (length s.asset_id_to_location) && check_entries legacy s
      then passed
      else panicked

  unfoldable pub post_upgrade : (List ℕ → Option (List (A × V))) → List ℕ → OnChain V A W → Check
  post_upgrade decode state s =
      if nat_eq s.version 2 then check_decoded (decode state) s.pallet else panicked

  check_entries-each :
      (entries : List (A × V)) (s : Pallet V A W) (i : A) (l : V)
      → check_entries entries s ≡ true
      → get i entries ≡ some l
      → check_location i (get i s.asset_id_to_location) s ≡ true
  unfolding check_entries get
  check_entries-each [] s i l h e = ground arith
  check_entries-each ((j, v) ∷ entries) s i l h e = elim (Bool-cases (i == j)) [
    | inl same ↦ ground (arith, ea.beq_iff i j)
    | inr other ↦ check_entries-each entries s i l (ground arith) (ground arith)
  ]

  check_entries-all :
      (entries : List (A × V)) (s : Pallet V A W)
      → IsDistinct entries
      → ((i : A) (l : V)
          → get i entries ≡ some l
          → check_location i (get i s.asset_id_to_location) s ≡ true)
      → check_entries entries s ≡ true
  unfolding check_entries get
  check_entries-all [] s d h = refl
  check_entries-all ((j, v) ∷ entries) s (fresh, d) h =
      let first = h j v (ground (arith, ea.beq_iff j j)) in
      let rest = check_entries-all entries s d (λ i l e. h i l (ground (arith, ea.beq_iff i j))) in
      ground (arith, first, rest)

module _ {K B : Type 0} ⦃ek : Eq K⦄ where
  length-insert :
      (k : K) (v w : B) (m : StorageMap K B) → get k m ≡ some w → length (insert k v m) ≡ length m
  unfolding get insert
  length-insert k v w [] h = ground arith
  length-insert k v w ((j, u) ∷ m) h = ground (arith, length-insert k v w m)

module _ {V A X : Type 0} ⦃ea : Eq A⦄ (up : Upgrade V X) where
  length-convert_values :
      (entries m : StorageMap A V)
      → IsDistinct entries
      → ((i : A) (l : V) → get i entries ≡ some l → (w : V) × (get i m ≡ some w))
      → length (convert_values up entries m) ≡ length m
  unfolding get convert_values
  length-convert_values [] m d h = refl
  length-convert_values ((j, v) ∷ entries) m (fresh, d) h =
      let (w, here) = h j v (ground (arith, ea.beq_iff j j)) in
      let inside : (i : A) (l : V) → get i entries ≡ some l → (w : V) × (get i m ≡ some w) =
        λ i l e. h i l (ground (arith, ea.beq_iff i j)) in
      let still_inside : (x : V) (i : A) (l : V)
          → get i entries ≡ some l
          → (w : V) × (get i (insert j x m) ≡ some w) =
        λ x i l e.
          let (u, found) = inside i l e in
          elim (Bool-cases (i == j)) [
            | inl same ↦ (x, ground (arith, get-insert i j x m))
            | inr other ↦ (u, ground (arith, get-insert i j x m))
          ] in
      elim (Option-cases (up.into_version_3 v)) [
        | inl failed ↦ ground (arith, length-convert_values entries m d inside)
        | inr (x, converted) ↦ ground (
          arith,
          length-convert_values entries (insert j x m) d (still_inside x),
          length-insert j x w m here,
        )
      ]

module _ {V A W X : Type 0} ⦃ev : Eq V⦄ ⦃ea : Eq A⦄ (up : Upgrade V X) where
  check-migrated :
      (s : Pallet V A W) (i : A) (l : V)
      → IsConsistent s
      → IsConvertible up s
      → get i s.asset_id_to_location ≡ some l
      → (check_location i (get i (migrated up s).asset_id_to_location) (migrated up s) ≡ true)
        ↔ ((p : ℕ) × (get l s.asset_location_units_per_second ≡ some p))
  unfolding get
  check-migrated s i l c v found =
      let known = c.forward i l found in
      let (x, converted) = v.converts l i known in
      let ids = s.asset_id_to_location in
      let here = get-convert_values up i l x ids ids v.ids_distinct found converted in
      let back = converted_location up s l x i v known converted in
      let prices = s.asset_location_units_per_second in
      (
        λ passes. elim (Option-cases (get x (convert_keys up prices []))) [
          | inl unpriced ↦ ground arith
          | inr (p, priced) ↦
              elim (convert_keys-inversion up x p prices [] v.prices_distinct priced) [
                | inl old ↦ cc
                | inr (k, e, converted') ↦
                    let (j, known') = registered up s k p c e in
                    let same : k ≡ l = v.separates k l x j i known' known converted' converted in
                    (p, ground arith)
              ]
        ],
        λ (p, priced).
            let kept = converted_price up s l x i p c v known priced converted in
            ground (arith, ea.beq_iff i i),
      )

  check_decoded-migrated :
      (s : Pallet V A W)
      → IsConsistent s
      → IsConvertible up s
      → (check_decoded (some s.asset_id_to_location) (migrated up s) ≡ passed) ↔ (
          (i : A) (l : V)
          → get i s.asset_id_to_location ≡ some l
          → (p : ℕ) × (get l s.asset_location_units_per_second ≡ some p))
  check_decoded-migrated s c v =
      let ids = s.asset_id_to_location in
      let same_length = length-convert_values up ids ids v.ids_distinct (λ i l e. (l, e)) in
      (
        λ passes i l found.
            let all_pass : check_entries ids (migrated up s) ≡ true = ground arith in
            (check-migrated s i l c v found).0
              (check_entries-each ids (migrated up s) i l all_pass found),
        λ priced.
            let all_pass =
              check_entries-all ids (migrated up s) v.ids_distinct
                (λ i l found. (check-migrated s i l c v found).1 (priced i l found)) in
            ground (arith, same_length, all_pass),
      )

  -- The checks around a first upgrade of consistent maps, with distinct keys and locations that all
  -- convert, no two to the same, pass exactly if every registered asset has a price, if the encoded
  -- entries decode to themselves: an asset without a price makes the check after the upgrade panic.
  pub post_upgrade_iff :
      (encode : List (A × V) → List ℕ) (decode : List ℕ → Option (List (A × V))) (state : List ℕ)
      (s : OnChain V A W)
      → ((entries : List (A × V)) → decode (encode entries) ≡ some entries)
      → IsConsistent s.pallet
      → IsConvertible up s.pallet
      → pre_upgrade encode s ≡ some state
      → (post_upgrade decode state (on_runtime_upgrade up s).0 ≡ passed) ↔ (
          (i : A) (l : V)
          → get i s.pallet.asset_id_to_location ≡ some l
          → (p : ℕ) × (get l s.pallet.asset_location_units_per_second ≡ some p))
  unfolding pre_upgrade post_upgrade on_runtime_upgrade
  post_upgrade_iff encode decode state s codec c v before =
      let old : ltb s.version 2 ≡ true = ground arith in
      let decoded : decode state ≡ some s.pallet.asset_id_to_location =
        ground (arith, codec s.pallet.asset_id_to_location) in
      let checked : post_upgrade decode state (on_runtime_upgrade up s).0
          ≡ check_decoded (some s.pallet.asset_id_to_location) (migrated up s.pallet) =
        ground (arith, decoded) in
      let inner = check_decoded-migrated s.pallet c v in
      (λ passes. inner.0 (cc), λ priced. cc (inner.1 priced))
