-- ===== src/Runtime/Ethereum.antt =====
-- The parts of runtime/src/lib.rs around `pallet_ethereum`, which is a parameter: calls that carry
-- their own signature, the transactions in a block, and the author of a block.
use neuroweb.Prelude.{
  ℕ, ◌<◌, ◌≡◌, ◌↔◌, ◌⊎◌, inl, inr, refl, ap, Bool, false, Option, none, some, Option-cases, List,
  [], ◌∷◌, length, take, drop, get_elem?, get_elem?-lt, get_elem?-ge, leb, if◌then◌else◌,
  length-take, length-drop, arith,
}

-- `pallet_ethereum::Call` and the other calls of the runtime.
pub data RuntimeCall (Transaction Other : Type 0) : Type 0 where
  ethereum : Transaction → RuntimeCall Transaction Other
  another : Other → RuntimeCall Transaction Other

-- What `pallet_ethereum` says of its call `transact`, and how a call is dispatched from the origin
-- `EthereumTransaction`.
pub record EthereumPallet (Transaction Info Validity PreDispatch Result : Type 0) : Type 0 where
  pub is_self_contained : Transaction → Bool
  pub check_self_contained : Transaction → Option Info
  pub validate_self_contained : Transaction → Info → ℕ → Option Validity
  pub pre_dispatch_self_contained : Transaction → Info → ℕ → Option PreDispatch
  pub dispatch_transact : Transaction → Info → Result

module _ {T O I V P R : Type 0} (pallet : EthereumPallet T I V P R) where
  unfoldable pub is_self_contained : RuntimeCall T O → Bool
  is_self_contained (ethereum call) = pallet.is_self_contained call
  is_self_contained (another call) = false

  unfoldable pub check_self_contained : RuntimeCall T O → Option I
  check_self_contained (ethereum call) = pallet.check_self_contained call
  check_self_contained (another call) = none

  unfoldable pub validate_self_contained : RuntimeCall T O → I → ℕ → Option V
  validate_self_contained (ethereum call) info len = pallet.validate_self_contained call info len
  validate_self_contained (another call) info len = none

  unfoldable pub pre_dispatch_self_contained : RuntimeCall T O → I → ℕ → Option P
  pre_dispatch_self_contained (ethereum call) info len =
      pallet.pre_dispatch_self_contained call info len
  pre_dispatch_self_contained (another call) info len = none

  unfoldable pub apply_self_contained : RuntimeCall T O → I → Option R
  apply_self_contained (ethereum call) info = some (pallet.dispatch_transact call info)
  apply_self_contained (another call) info = none

-- `UncheckedExtrinsic`: a call, and a signature of some kind if there is one.
pub record Extrinsic (Transaction Other Signature : Type 0) : Type 0 where
  pub function : RuntimeCall Transaction Other
  pub signature : Option Signature

abbrev pub transaction_of : {T O : Type 0} → RuntimeCall T O → Option T
transaction_of (ethereum transaction) = some transaction
transaction_of (another call) = none

abbrev pub kept : {T : Type 0} → Option T → List T → List T
kept none rest = rest
kept (some transaction) rest = transaction ∷ rest

abbrev pub transactions : {T B : Type 0} → List (T ⊎ B) → List T
transactions [] = []
transactions (inl transaction ∷ items) = transaction ∷ transactions items
transactions (inr other ∷ items) = transactions items

module _ {T O S : Type 0} where
  unfoldable pub extrinsic_filter : List (Extrinsic T O S) → List T
  extrinsic_filter [] = []
  extrinsic_filter (xt ∷ xts) = kept (transaction_of xt.function) (extrinsic_filter xts)

  unfoldable pub convert_transaction : T → Extrinsic T O S
  convert_transaction transaction = record { function = ethereum transaction; signature = none }

  -- A block of converted transactions and of extrinsics with other calls.
  abbrev pub block_of : List (T ⊎ (O × Option S)) → List (Extrinsic T O S)
  block_of [] = []
  block_of (inl transaction ∷ items) = convert_transaction transaction ∷ block_of items
  block_of (inr (call, signature) ∷ items) =
      record { function = another call; signature = signature } ∷ block_of items

  -- The filter finds the transactions that were converted, in their order, among all other
  -- extrinsics of a block.
  pub extrinsic_filter-convert_transaction :
      (items : List (T ⊎ (O × Option S))) → extrinsic_filter (block_of items) ≡ transactions items
  unfolding extrinsic_filter convert_transaction
  extrinsic_filter-convert_transaction [] = refl
  extrinsic_filter-convert_transaction (inl transaction ∷ items) =
      ap (λ rest. transaction ∷ rest) (extrinsic_filter-convert_transaction items)
  extrinsic_filter-convert_transaction (inr other ∷ items) =
      extrinsic_filter-convert_transaction items

-- `FindAuthorTruncated`: the outer `none` is a panic, of an index or of a slice out of range.
module _ {AuthorityId : Type 0} (encode : AuthorityId → List ℕ) where
  -- `&bytes[4..24]`
  abbrev pub slice_4_24 : List ℕ → Option (List ℕ)
  slice_4_24 bytes = if leb 24 (length bytes) then some (take 20 (drop 4 bytes)) else none

  abbrev pub truncated : Option AuthorityId → Option (Option (List ℕ))
  truncated none = none
  truncated (some authority_id) = elim (slice_4_24 (encode authority_id)) [
    | none ↦ none
    | some address ↦ some (some address)
  ]

  unfoldable pub find_author : Option ℕ → List AuthorityId → Option (Option (List ℕ))
  find_author none authorities = some none
  find_author (some author_index) authorities = truncated (get_elem? authorities author_index)

  -- An author that was found has an address of 20 bytes exactly if its index is in range, and the
  -- search panics otherwise, if an authority is encoded in 32 bytes.
  pub find_author_iff :
      ((a : AuthorityId) → length (encode a) ≡ 32)
      → (i : ℕ) (authorities : List AuthorityId)
      → (i < length authorities) ↔ (
          (address : List ℕ) × (find_author (some i) authorities ≡ some (some address))
          × (length address ≡ 20))
  unfolding find_author
  find_author_iff size i authorities = (
    λ inside.
        let (a, found) = get_elem?-lt authorities i inside in
        (
          take 20 (drop 4 (encode a)),
          ground (arith, size a),
          omega (arith, length-take 20 (drop 4 (encode a)), length-drop 4 (encode a), size a),
        ),
    λ (address, found, _). elim (Option-cases (get_elem? authorities i)) [
      | inl outside ↦ ground arith
      | inr (a, inside) ↦ get_elem?-ge authorities i a inside
    ],
  )
