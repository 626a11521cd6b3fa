-- ===== src/Runtime/Merge.antt =====
-- `MergeAccountEvm` of runtime/src/lib.rs, and the claim of pallets/evm-accounts/src/lib.rs with
-- it. The balances are those of `pallet_balances`, a parameter. This runtime sets `OnKilledAccount
-- = ()`: no mapping goes with an account.
use neuroweb.Prelude.{
  ℕ, ◌+◌, ◌-◌, ◌≤◌, ◌<◌, ◌⊎◌, subst, ℕ-cases, ◌≡◌, ◌≢◌, sym, ap, ◌∙◌, inl, inr, false, Bool-cases,
  some, none, List, [], arith, bytes_instance,
}
use neuroweb.Storage.{get}
use neuroweb.Runtime.Weights.{existential_deposit}
use neuroweb.Dispatch.{Outcome, ok, err, Outcome-cases}
use neuroweb.EvmAccounts.{
  AccountId, EvmAddress, Error, Config, Pallet, padded_account, get_account_id, merge_padded,
  claim_account_call, kill_accounts,
}
use neuroweb.EvmAccounts.Claims.{claim_account-inversion}

-- What the runtime calls of `Balances`; a transfer fails or leaves the storage.
pub record Balances (W : Type 0) : Type 0 where
  pub free_balance : AccountId → W → ℕ
  pub reserved_balance : AccountId → W → ℕ
  pub unreserve : AccountId → ℕ → W → W
  pub transfer : AccountId → AccountId → ℕ → W → Outcome Error W

module _ {W : Type 0} (balances : Balances W) where
  -- `MergeAccountEvm::merge_account`; a failure leaves nothing of the storage layer.
  unfoldable pub merge_account : AccountId → AccountId → W → Outcome Error (W × List AccountId)
  merge_account source dest w =
      let w = balances.unreserve source (balances.reserved_balance source w) w in
      elim (balances.transfer source dest (balances.free_balance source w) w) [
        | ok w ↦ ok (w, [])
        | err e ↦ err e
      ]

  -- `impl pallet_evm_accounts::Config for Runtime`
  abbrev pub with_balances : Config W → Config W
  with_balances cfg = record cfg { merge_account = merge_account }

  -- All that an account has.
  abbrev pub wealth : AccountId → W → ℕ
  wealth who w = balances.free_balance who w + balances.reserved_balance who w

  -- An account holds nothing, or at least the existential deposit.
  abbrev pub IsSettled : AccountId → W → Type 0
  IsSettled who w = (wealth who w ≡ 0) ⊎ (existential_deposit ≤ wealth who w)

  -- The documented behaviour: what is unreserved of such an account becomes free; a transfer that succeeds
  -- between two accounts adds the amount to one and takes it from the other, which is reaped, and the rest
  -- lost, if less than the existential deposit is left; other accounts stay.
  pub record IsCurrency : Type 0 where
    pub unreserve_free :
        (who : AccountId) (v : ℕ) (w : W)
        → IsSettled who w
        → v ≤ balances.reserved_balance who w
        → balances.free_balance who (balances.unreserve who v w) ≡ balances.free_balance who w + v
    pub unreserve_reserved :
        (who : AccountId) (v : ℕ) (w : W)
        → IsSettled who w
        → v ≤ balances.reserved_balance who w
        → balances.reserved_balance who (balances.unreserve who v w)
          ≡ balances.reserved_balance who w - v
    pub unreserve_others :
        (who other : AccountId) (v : ℕ) (w : W)
        → other ≢ who
        → (balances.free_balance other (balances.unreserve who v w) ≡ balances.free_balance other w)
          × (balances.reserved_balance other (balances.unreserve who v w)
              ≡ balances.reserved_balance other w)
    pub transfer_covered :
        (source dest : AccountId) (v : ℕ) (w w' : W)
        → balances.transfer source dest v w ≡ ok w'
        → v ≤ balances.free_balance source w
    pub transfer_kept :
        (source dest : AccountId) (v : ℕ) (w w' : W)
        → source ≢ dest
        → balances.transfer source dest v w ≡ ok w'
        → existential_deposit + v ≤ wealth source w
        → (balances.free_balance source w' ≡ balances.free_balance source w - v)
          × (balances.reserved_balance source w' ≡ balances.reserved_balance source w)
    pub transfer_reaped :
        (source dest : AccountId) (v : ℕ) (w w' : W)
        → source ≢ dest
        → balances.transfer source dest v w ≡ ok w'
        → 1 ≤ v
        → wealth source w < existential_deposit + v
        → wealth source w' ≡ 0
    pub transfer_nothing :
        (source dest : AccountId) (w w' : W) → balances.transfer source dest 0 w ≡ ok w' → w' ≡ w
    pub transfer_given :
        (source dest : AccountId) (v : ℕ) (w w' : W)
        → source ≢ dest
        → balances.transfer source dest v w ≡ ok w'
        → (balances.free_balance dest w' ≡ balances.free_balance dest w + v)
          × (balances.reserved_balance dest w' ≡ balances.reserved_balance dest w)
    pub transfer_others :
        (source dest other : AccountId) (v : ℕ) (w w' : W)
        → other ≢ source
        → other ≢ dest
        → balances.transfer source dest v w ≡ ok w'
        → (balances.free_balance other w' ≡ balances.free_balance other w)
          × (balances.reserved_balance other w' ≡ balances.reserved_balance other w)

module _ {W : Type 0} (balances : Balances W) (law : IsCurrency balances) where
  merge_account-inversion :
      (source dest : AccountId) (w w' : W) (killed : List AccountId)
      → merge_account balances source dest w ≡ ok (w', killed)
      → (balances.transfer source dest
            (balances.free_balance source
              (balances.unreserve source (balances.reserved_balance source w) w))
            (balances.unreserve source (balances.reserved_balance source w) w)
          ≡ ok w')
        × (killed ≡ [])
  unfolding merge_account
  merge_account-inversion source dest w w' killed h = ground arith

  merge_account_pair :
      (source dest : AccountId) (w w' : W) (killed : List AccountId)
      → source ≢ dest
      → IsSettled balances source w
      → merge_account balances source dest w ≡ ok (w', killed)
      → (wealth balances source w' ≡ 0)
        × (balances.free_balance dest w' ≡ balances.free_balance dest w + wealth balances source w)
        × (balances.reserved_balance dest w' ≡ balances.reserved_balance dest w)
  merge_account_pair source dest w w' killed ne settled h =
      let all = balances.reserved_balance source w in
      let w1 = balances.unreserve source all w in
      let amount = balances.free_balance source w1 in
      let (moved, none_killed) = merge_account-inversion source dest w w' killed h in
      let freed = law.unreserve_free source all w settled (omega arith) in
      let released = law.unreserve_reserved source all w settled (omega arith) in
      let (dest_free, dest_reserved) = law.unreserve_others source dest all w (λ e. ne (sym e)) in
      let (given, kept) = law.transfer_given source dest amount w1 w' ne moved in
      let left : wealth balances source w' ≡ 0 = elim (ℕ-cases amount) [
        | inl nothing ↦
            let same : w' ≡ w1 =
              law.transfer_nothing source dest w1 w'
                (subst (λ v. balances.transfer source dest v w1 ≡ ok w') nothing moved) in
            ap (wealth balances source) same ∙ omega arith
        | inr some_left ↦
            law.transfer_reaped source dest amount w1 w' ne moved some_left (omega arith)
      ] in
      (left, omega arith, kept ∙ dest_reserved)

  merge_account_others :
      (source dest other : AccountId) (w w' : W) (killed : List AccountId)
      → other ≢ source
      → other ≢ dest
      → merge_account balances source dest w ≡ ok (w', killed)
      → wealth balances other w' ≡ wealth balances other w
  merge_account_others source dest other w w' killed os od h =
      let all = balances.reserved_balance source w in
      let w1 = balances.unreserve source all w in
      let amount = balances.free_balance source w1 in
      let (moved, none_killed) = merge_account-inversion source dest w w' killed h in
      let (other_free, other_reserved) = law.unreserve_others source other all w os in
      let (free_kept, reserved_kept) =
        law.transfer_others source dest other amount w1 w' os od moved in
      omega arith

  -- A merge of one account into another that succeeds leaves the first with nothing, and the second
  -- with all that the first had, free or reserved, on top of its own; all other accounts keep what they
  -- have, if the currency behaves as documented and the first holds nothing or at least the existential
  -- deposit.
  pub merge_account-moves :
      (source dest other : AccountId) (w w' : W) (killed : List AccountId)
      → source ≢ dest
      → other ≢ source
      → other ≢ dest
      → IsSettled balances source w
      → merge_account balances source dest w ≡ ok (w', killed)
      → (wealth balances source w' ≡ 0)
        × (balances.free_balance dest w' ≡ balances.free_balance dest w + wealth balances source w)
        × (balances.reserved_balance dest w' ≡ balances.reserved_balance dest w)
        × (wealth balances other w' ≡ wealth balances other w)
  merge_account-moves source dest other w w' killed ne os od settled h =
      let (left, given, kept) = merge_account_pair source dest w w' killed ne settled h in
      (left, given, kept, merge_account_others source dest other w w' killed os od h)

  account_id_padded :
      (a : EvmAddress) (s : Pallet W)
      → get a s.accounts ≡ none
      → get_account_id a s ≡ padded_account a
  unfolding get_account_id
  account_id_padded a s free = ground arith

  merge_padded_world :
      (cfg : Config W) (a : EvmAddress) (who : AccountId) (s m : Pallet W)
      → ((who : AccountId) (w : W) → cfg.account_exists who w ≡ false → wealth balances who w ≡ 0)
      → get a s.accounts ≡ none
      → padded_account a ≢ who
      → IsSettled balances (padded_account a) s.world
      → merge_padded (with_balances balances cfg) a who s ≡ ok m
      → (balances.free_balance who m.world
          ≡ balances.free_balance who s.world + wealth balances (padded_account a) s.world)
        × (wealth balances (padded_account a) m.world ≡ 0)
  unfolding merge_padded kill_accounts
  merge_padded_world cfg a who s m absent free ne settled h =
      let source = padded_account a in
      let here = account_id_padded a s free in
      elim (Bool-cases (cfg.account_exists source s.world)) [
        | inr missing ↦
            let nothing = absent source s.world missing in
            let same : m ≡ s = ground arith in (ground (arith, nothing), ground (arith, nothing))
        | inl present ↦ elim (Outcome-cases (merge_account balances source who s.world)) [
          | inl (e, failed) ↦ ground arith
          | inr ((w', killed), merged) ↦
              let (moved, none_killed) =
                merge_account-inversion source who s.world w' killed merged in
              let (left, given, kept) =
                merge_account_pair source who s.world w' killed ne settled merged in
              let same : m.world ≡ w' = ground arith in
              (ap (balances.free_balance who) same ∙ given, ap (wealth balances source) same ∙ left)
        ]
      ]

  -- A claim that succeeds brings the account all that the padded account of the address had, which
  -- is left with nothing, if the currency behaves as documented, an account that does not exist has
  -- nothing, the claiming account is not the padded one, and the padded account holds nothing or at
  -- least the existential deposit.
  pub claim_account-collects :
      (cfg : Config W) (who : AccountId) (a : EvmAddress) (sig : List ℕ) (s t : Pallet W)
      → ((who : AccountId) (w : W) → cfg.account_exists who w ≡ false → wealth balances who w ≡ 0)
      → padded_account a ≢ who
      → IsSettled balances (padded_account a) s.world
      → claim_account_call (with_balances balances cfg) (some who) a sig s ≡ ok t
      → (balances.free_balance who t.world
          ≡ balances.free_balance who s.world + wealth balances (padded_account a) s.world)
        × (wealth balances (padded_account a) t.world ≡ 0)
  claim_account-collects cfg who a sig s t absent ne settled h =
      let (hw, ha, signed, (m, merged, e)) =
        claim_account-inversion (with_balances balances cfg) who a sig s t h in
      let (given, left) = merge_padded_world cfg a who s m absent ha ne settled merged in
      let same : t.world ≡ m.world = ap (λ p. p.world) e in
      (
        ap (balances.free_balance who) same ∙ given,
        ap (wealth balances (padded_account a)) same ∙ left,
      )
