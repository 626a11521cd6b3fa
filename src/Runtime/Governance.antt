-- ===== src/Runtime/Governance.antt =====
-- The origins of `pallet_democracy` in runtime/src/lib.rs: the root, or a share of the council.
-- `EnsureProportionAtLeast` accepts a motion whose ayes are at least that share of the seats.
use neuroweb.Prelude.{ℕ, ◌*◌, ◌≤◌, ◌≡◌, ◌↔◌, Bool, true, false, leb, arith}

-- An origin: root, a signed account, or the council with ayes of some seats.
pub data Origin (AccountId : Type 0) : Type 0 where
  root : Origin AccountId
  signed : AccountId → Origin AccountId
  members : (ayes seats : ℕ) → Origin AccountId

module _ {AccountId : Type 0} where
  -- `EitherOfDiverse<EnsureRoot, EnsureProportionAtLeast<N, D>>`
  unfoldable pub ensure_root_or : ℕ → ℕ → Origin AccountId → Bool
  ensure_root_or n d root = true
  ensure_root_or n d (signed who) = false
  ensure_root_or n d (members ayes seats) = leb (n * seats) (ayes * d)

  abbrev pub two_fifths_of_council : Origin AccountId → Bool
  two_fifths_of_council = ensure_root_or 2 5

  abbrev pub three_fifths_of_council : Origin AccountId → Bool
  three_fifths_of_council = ensure_root_or 3 5

  abbrev pub four_fifths_of_council : Origin AccountId → Bool
  four_fifths_of_council = ensure_root_or 4 5

-- What the democracy pallet asks an origin for.
pub data Power : Type 0 where
  external external_majority external_default fast_track instant cancellation cancel_proposal :
      Power

-- `impl pallet_democracy::Config for Runtime`
unfoldable pub accepts : {AccountId : Type 0} → Power → Origin AccountId → Bool
accepts external o = two_fifths_of_council o
accepts external_majority o = three_fifths_of_council o
accepts external_default o = three_fifths_of_council o
accepts fast_track o = three_fifths_of_council o
accepts instant o = four_fifths_of_council o
accepts cancellation o = three_fifths_of_council o
accepts cancel_proposal o = three_fifths_of_council o

-- `CouncilMaxMembers`
abbrev pub council_max_members : ℕ
council_max_members = 5

-- A motion of the full council.
abbrev pub full_council : (AccountId : Type 0) → ℕ → Origin AccountId
full_council AccountId ayes = members ayes council_max_members

-- The ayes that a full council needs.
abbrev pub votes_needed : Power → ℕ
votes_needed external = 2
votes_needed external_majority = 3
votes_needed external_default = 3
votes_needed fast_track = 3
votes_needed instant = 4
votes_needed cancellation = 3
votes_needed cancel_proposal = 3

-- A full council needs two votes to propose externally, four for an instant vote, and three for
-- everything else.
pub accepts_iff :
    (AccountId : Type 0) (power : Power) (ayes : ℕ)
    → (accepts power (full_council AccountId ayes) ≡ true) ↔ (votes_needed power ≤ ayes)
unfolding accepts ensure_root_or
accepts_iff AccountId external ayes = ground arith
accepts_iff AccountId external_majority ayes = ground arith
accepts_iff AccountId external_default ayes = ground arith
accepts_iff AccountId fast_track ayes = ground arith
accepts_iff AccountId instant ayes = ground arith
accepts_iff AccountId cancellation ayes = ground arith
accepts_iff AccountId cancel_proposal ayes = ground arith

module _ {AccountId : Type 0} where
  four→three :
      (o : Origin AccountId) → four_fifths_of_council o ≡ true → three_fifths_of_council o ≡ true
  unfolding ensure_root_or
  four→three root e = e
  four→three (signed who) e = ground arith
  four→three (members ayes seats) e = ground arith

  three→two :
      (o : Origin AccountId) → three_fifths_of_council o ≡ true → two_fifths_of_council o ≡ true
  unfolding ensure_root_or
  three→two root e = e
  three→two (signed who) e = ground arith
  three→two (members ayes seats) e = ground arith

  -- An origin that may force an instant vote may do everything else, and one that may do anything may
  -- propose externally.
  pub accepts-instant :
      (power : Power) (o : Origin AccountId)
      → (accepts instant o ≡ true → accepts power o ≡ true)
        × (accepts power o ≡ true → accepts external o ≡ true)
  unfolding accepts
  accepts-instant external o = (λ e. three→two o (four→three o e), λ e. e)
  accepts-instant external_majority o = (four→three o, three→two o)
  accepts-instant external_default o = (four→three o, three→two o)
  accepts-instant fast_track o = (four→three o, three→two o)
  accepts-instant instant o = (λ e. e, λ e. three→two o (four→three o e))
  accepts-instant cancellation o = (four→three o, three→two o)
  accepts-instant cancel_proposal o = (four→three o, three→two o)
