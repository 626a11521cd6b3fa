-- ===== src/XcAssets/Conversions.antt =====
-- The loops of pallets/xc-asset-config/src/migrations.rs, as lookups in the maps that they leave.
use neuroweb.Prelude.{
  true, false, none, some, [], ◌∷◌, ◌≡◌, ◌⊎◌, inl, inr, refl, Eq, ◌==◌, arith, Option-cases,
  Bool-cases,
}
use neuroweb.Storage.{StorageMap, get, insert, get-insert}
use neuroweb.XcAssets.Migration.{Upgrade, convert_values, convert_keys}

-- The keys of a storage map are distinct.
abbrev pub IsDistinct {ℓ κ} : {K : Type ℓ} {V : Type κ} ⦃e : Eq K⦄ → StorageMap K V → Type κ
IsDistinct [] = Unit
IsDistinct ((k, v) ∷ m) = (get k m ≡ none) × IsDistinct m

module _ {V A X : Type 0} ⦃ea : Eq A⦄ (up : Upgrade V X) where
  pub get-convert_values-none :
      (i : A) (entries m : StorageMap A V)
      → get i entries ≡ none
      → get i (convert_values up entries m) ≡ get i m
  unfolding convert_values get
  get-convert_values-none i [] m e = refl
  get-convert_values-none i ((j, l) ∷ entries) m e = elim (Option-cases (up.into_version_3 l)) [
    | inl failed ↦ ground (arith, get-convert_values-none i entries m)
    | inr (new, converted) ↦
        ground (arith, get-convert_values-none i entries (insert j new m), get-insert i j new m)
  ]

  -- The value of an id is converted.
  pub get-convert_values :
      (i : A) (l new : V) (entries m : StorageMap A V)
      → IsDistinct entries
      → get i entries ≡ some l
      → up.into_version_3 l ≡ some new
      → get i (convert_values up entries m) ≡ some new
  unfolding convert_values get
  get-convert_values i l new [] m d e c = cc
  get-convert_values i l new ((j, v) ∷ entries) m (fresh, d) e c = elim (Bool-cases (i == j)) [
    | inl same ↦ ground (
      arith,
      ea.beq_iff i j,
      get-convert_values-none i entries (insert j new m),
      get-insert i j new m,
    )
    | inr other ↦ elim (Option-cases (up.into_version_3 v)) [
      | inl failed ↦ ground (arith, get-convert_values i l new entries m d)
      | inr (w, converted) ↦ ground (arith, get-convert_values i l new entries (insert j w m) d)
    ]
  ]

module _ {V X B : Type 0} ⦃ev : Eq V⦄ (up : Upgrade V X) where
  -- A location that no entry converts to keeps its value.
  get-convert_keys-none :
      (x : V) (entries m : StorageMap V B)
      → ((l : V) (b : B) → get l entries ≡ some b → up.into_version_3 l ≡ some x → true ≡ false)
      → get x (convert_keys up entries m) ≡ get x m
  unfolding convert_keys get
  get-convert_keys-none x [] m h = refl
  get-convert_keys-none x ((j, c) ∷ entries) m h =
      let rest : (l : V) (b : B)
          → get l entries ≡ some b
          → up.into_version_3 l ≡ some x
          → true ≡ false =
        λ l b e converted. elim (Bool-cases (l == j)) [
          | inl same ↦ h l c (ground arith) converted
          | inr other ↦ h l b (ground arith) converted
        ] in
      elim (Option-cases (up.into_version_3 j)) [
        | inl failed ↦ ground (arith, get-convert_keys-none x entries m rest)
        | inr (w, converted) ↦ ground (
          arith,
          get-convert_keys-none x entries (insert w c m) rest,
          get-insert x w c m,
          ev.beq_iff x w,
          ev.beq_iff j j,
          h j c,
        )
      ]

  pub get-convert_keys :
      (l x : V) (b : B) (entries m : StorageMap V B)
      → ((k : V) (c : B) → get k entries ≡ some c → up.into_version_3 k ≡ some x → k ≡ l)
      → IsDistinct entries
      → get l entries ≡ some b
      → up.into_version_3 l ≡ some x
      → get x (convert_keys up entries m) ≡ some b
  unfolding convert_keys get
  get-convert_keys l x b [] m alone d e c = cc
  get-convert_keys l x b ((j, v) ∷ entries) m alone (fresh, d) e c =
      let rest : (k : V) (a : B) → get k entries ≡ some a → up.into_version_3 k ≡ some x → k ≡ l =
        λ k a e' c'. alone k a (ground (arith, ev.beq_iff k j)) c' in
      elim (Bool-cases (l == j)) [
        | inl same ↦
            let gone : (k : V) (a : B)
                → get k entries ≡ some a
                → up.into_version_3 k ≡ some x
                → true ≡ false =
              λ k a e' c'. ground (arith, rest k a e' c', ev.beq_iff l j) in
            ground (
              arith,
              ev.beq_iff l j,
              get-convert_keys-none x entries (insert x v m) gone,
              get-insert x x v m,
              ev.beq_iff x x,
            )
        | inr other ↦ elim (Option-cases (up.into_version_3 j)) [
          | inl failed ↦ ground (arith, get-convert_keys l x b entries m rest d)
          | inr (w, converted) ↦
              ground (arith, get-convert_keys l x b entries (insert w v m) rest d)
        ]
      ]

  pub convert_keys-inversion :
      (x : V) (b : B) (entries m : StorageMap V B)
      → IsDistinct entries
      → get x (convert_keys up entries m) ≡ some b
      → (get x m ≡ some b) ⊎ ((l : V) × (get l entries ≡ some b) × (up.into_version_3 l ≡ some x))
  unfolding convert_keys get
  convert_keys-inversion x b [] m d e = inl e
  convert_keys-inversion x b ((j, v) ∷ entries) m (fresh, d) e =
      elim (Option-cases (up.into_version_3 j)) [
        | inl failed ↦ elim (convert_keys-inversion x b entries m d (ground arith)) [
          | inl old ↦ inl old
          | inr (l, e', c) ↦ inr (l, ground (arith, ev.beq_iff l j), c)
        ]
        | inr (w, converted) ↦
            elim (convert_keys-inversion x b entries (insert w v m) d (ground arith)) [
              | inl old ↦ elim (Bool-cases (x == w)) [
                | inl same ↦ inr (
                  j,
                  ground (arith, ev.beq_iff j j, get-insert x w v m),
                  ground (arith, ev.beq_iff x w),
                )
                | inr other ↦ inl (ground (arith, get-insert x w v m))
              ]
              | inr (l, e', c) ↦ inr (l, ground (arith, ev.beq_iff l j), c)
            ]
      ]
