-- ===== src/Runtime/Fees/Shares.antt =====
-- What `DealWithFees` of runtime/src/lib.rs gives to each pot, and to all of them.
use neuroweb.Prelude.{ℕ, ◌+◌, ◌*◌, ◌^◌, ◌<◌, ◌≤◌, ◌≡◌, ◌≢◌, List, [], ◌∷◌, ap, ◌∙◌, arith}
use neuroweb.Runtime.Fees.{
  Pot, treasury, staking_pot, future_auctions_pot, dkg_incentives_pot, PotBalances, on_unbalanced,
  on_nonzero_unbalanced, on_unbalanceds, charged, IsRation, received, IsResolving, percent,
}

received_existing : (before amount : ℕ) → 1 ≤ before → received before amount ≡ before + amount
received_existing before amount h = ground arith

module _ {W : Type 0} (ration : ℕ → ℕ → ℕ → ℕ × ℕ) (balances : PotBalances W)
    (law : IsRation ration) (resolving : IsResolving balances) where
  abbrev balance : Pot → W → ℕ
  balance = balances.total_balance

  on_unbalanced-received :
      (pot : Pot) (amount : ℕ) (w : W)
      → balance pot w + amount < 2 ^ 128
      → balance pot (on_unbalanced ration balances pot amount w) ≡ received (balance pot w) amount
  on_unbalanced-received pot amount w fits = ground (arith, resolving.resolved pot amount w fits)

  on_unbalanced-others :
      (pot other : Pot) (amount : ℕ) (w : W)
      → other ≢ pot
      → balance other (on_unbalanced ration balances pot amount w) ≡ balance other w
  on_unbalanced-others pot other amount w ne =
      ground (arith, resolving.others pot other amount w ne)

  -- The part of the amount that the source names for a pot.
  abbrev pub share : Pot → ℕ → ℕ
  share treasury amount = (ration ((ration amount 60 40).1) 75 25).1
  share staking_pot amount = (ration ((ration amount 60 40).0) 50 50).1
  share future_auctions_pot amount = (ration ((ration amount 60 40).1) 75 25).0
  share dkg_incentives_pot amount = (ration ((ration amount 60 40).0) 50 50).0

  share-whole :
      (amount : ℕ)
      → 100 * amount < 2 ^ 128
      → share treasury amount
          + share staking_pot amount
          + share future_auctions_pot amount
          + share dkg_incentives_pot amount
        ≡ amount
  share-whole amount small =
      let split = ration amount 60 40 in
      let first = law amount 60 40 (omega arith) (omega arith) in
      omega (
        arith,
        first,
        law (split.0) 50 50 (omega arith) (omega (arith, first)),
        law (split.1) 75 25 (omega arith) (omega (arith, first)),
      )

  share-percent :
      (pot : Pot) (amount : ℕ)
      → 100 * amount < 2 ^ 128
      → (percent pot * amount ≤ 100 * (share pot amount + 2))
        × (100 * share pot amount ≤ percent pot * amount + 200)
  share-percent treasury amount small =
      let first = law amount 60 40 (omega arith) (omega arith) in
      let second = law ((ration amount 60 40).1) 75 25 (omega arith) (omega (arith, first)) in
      (omega (arith, first, second), omega (arith, first, second))
  share-percent staking_pot amount small =
      let first = law amount 60 40 (omega arith) (omega arith) in
      let second = law ((ration amount 60 40).0) 50 50 (omega arith) (omega (arith, first)) in
      (omega (arith, first, second), omega (arith, first, second))
  share-percent future_auctions_pot amount small =
      let first = law amount 60 40 (omega arith) (omega arith) in
      let second = law ((ration amount 60 40).1) 75 25 (omega arith) (omega (arith, first)) in
      (omega (arith, first, second), omega (arith, first, second))
  share-percent dkg_incentives_pot amount small =
      let first = law amount 60 40 (omega arith) (omega arith) in
      let second = law ((ration amount 60 40).0) 50 50 (omega arith) (omega (arith, first)) in
      (omega (arith, first, second), omega (arith, first, second))

  -- The pots are served one after the other, and none touches another.
  on_nonzero_unbalanced-received :
      (pot : Pot) (amount : ℕ) (w : W)
      → 100 * amount < 2 ^ 128
      → balance pot w + amount < 2 ^ 128
      → balance pot (on_nonzero_unbalanced ration balances amount w)
        ≡ received (balance pot w) (share pot amount)
  unfolding on_nonzero_unbalanced
  on_nonzero_unbalanced-received treasury amount w0 small fits =
      let whole = share-whole amount small in
      let pay = on_unbalanced ration balances in
      let w1 = pay treasury (share treasury amount) w0 in
      let w2 = pay staking_pot (share staking_pot amount) w1 in
      let w3 = pay future_auctions_pot (share future_auctions_pot amount) w2 in
      on_unbalanced-others dkg_incentives_pot treasury (share dkg_incentives_pot amount) w3
        (λ e. ground arith)
      ∙ on_unbalanced-others future_auctions_pot treasury (share future_auctions_pot amount) w2
          (λ e. ground arith)
      ∙ on_unbalanced-others staking_pot treasury (share staking_pot amount) w1 (λ e. ground arith)
      ∙ on_unbalanced-received treasury (share treasury amount) w0 (omega (arith, whole))
  on_nonzero_unbalanced-received staking_pot amount w0 small fits =
      let whole = share-whole amount small in
      let pay = on_unbalanced ration balances in
      let w1 = pay treasury (share treasury amount) w0 in
      let w2 = pay staking_pot (share staking_pot amount) w1 in
      let w3 = pay future_auctions_pot (share future_auctions_pot amount) w2 in
      let same =
        on_unbalanced-others treasury staking_pot (share treasury amount) w0 (λ e. ground arith) in
      on_unbalanced-others dkg_incentives_pot staking_pot (share dkg_incentives_pot amount) w3
        (λ e. ground arith)
      ∙ on_unbalanced-others future_auctions_pot staking_pot (share future_auctions_pot amount) w2
          (λ e. ground arith)
      ∙ on_unbalanced-received staking_pot (share staking_pot amount) w1
          (omega (arith, whole, same))
      ∙ ap (λ b. received b (share staking_pot amount)) same
  on_nonzero_unbalanced-received future_auctions_pot amount w0 small fits =
      let whole = share-whole amount small in
      let pay = on_unbalanced ration balances in
      let w1 = pay treasury (share treasury amount) w0 in
      let w2 = pay staking_pot (share staking_pot amount) w1 in
      let w3 = pay future_auctions_pot (share future_auctions_pot amount) w2 in
      let same =
        on_unbalanced-others staking_pot future_auctions_pot (share staking_pot amount) w1
          (λ e. ground arith)
        ∙ on_unbalanced-others treasury future_auctions_pot (share treasury amount) w0
            (λ e. ground arith) in
      on_unbalanced-others dkg_incentives_pot future_auctions_pot (share dkg_incentives_pot amount)
        w3 (λ e. ground arith)
      ∙ on_unbalanced-received future_auctions_pot (share future_auctions_pot amount) w2
          (omega (arith, whole, same))
      ∙ ap (λ b. received b (share future_auctions_pot amount)) same
  on_nonzero_unbalanced-received dkg_incentives_pot amount w0 small fits =
      let whole = share-whole amount small in
      let pay = on_unbalanced ration balances in
      let w1 = pay treasury (share treasury amount) w0 in
      let w2 = pay staking_pot (share staking_pot amount) w1 in
      let w3 = pay future_auctions_pot (share future_auctions_pot amount) w2 in
      let same =
        on_unbalanced-others future_auctions_pot dkg_incentives_pot
          (share future_auctions_pot amount) w2 (λ e. ground arith)
        ∙ on_unbalanced-others staking_pot dkg_incentives_pot (share staking_pot amount) w1
            (λ e. ground arith)
        ∙ on_unbalanced-others treasury dkg_incentives_pot (share treasury amount) w0
            (λ e. ground arith) in
      on_unbalanced-received dkg_incentives_pot (share dkg_incentives_pot amount) w3
        (omega (arith, whole, same))
      ∙ ap (λ b. received b (share dkg_incentives_pot amount)) same

  -- Each pot is given its percentage, up to two units: 30 for the incentives of the DKG, 30 for the
  -- collators, 30 for future auctions and 10 for the treasury; it has that on top of its own, or
  -- nothing if it is empty and that is below the existential deposit. This is if a hundred times
  -- the amount and the balance with the amount fit 128 bits, an imbalance is split by the ratio,
  -- rounded down, and the balances take what is resolved as documented.
  pub on_nonzero_unbalanced-shares :
      (pot : Pot) (amount : ℕ) (w : W)
      → 100 * amount < 2 ^ 128
      → balance pot w + amount < 2 ^ 128
      → (given : ℕ) × (percent pot * amount ≤ 100 * (given + 2))
        × (100 * given ≤ percent pot * amount + 200)
        × (balance pot (on_nonzero_unbalanced ration balances amount w)
            ≡ received (balance pot w) given)
  on_nonzero_unbalanced-shares pot amount w small fits =
      let (low, high) = share-percent pot amount small in
      (share pot amount, low, high, on_nonzero_unbalanced-received pot amount w small fits)

  abbrev pub total : W → ℕ
  total w =
      balance treasury w
      + balance staking_pot w
      + balance future_auctions_pot w
      + balance dkg_incentives_pot w

  on_nonzero_unbalanced-total :
      (amount : ℕ) (w : W)
      → 100 * amount < 2 ^ 128
      → ((pot : Pot) → balance pot w + amount < 2 ^ 128)
      → ((pot : Pot) → 1 ≤ balance pot w)
      → total (on_nonzero_unbalanced ration balances amount w) ≡ total w + amount
  on_nonzero_unbalanced-total amount w small fits exists =
      let whole = share-whole amount small in
      let gets = λ (pot : Pot).
        on_nonzero_unbalanced-received pot amount w small (fits pot)
        ∙ received_existing (balance pot w) (share pot amount) (exists pot) in
      omega (
        arith,
        whole,
        gets treasury,
        gets staking_pot,
        gets future_auctions_pot,
        gets dkg_incentives_pot,
      )

  -- All of the fees and tips, and no more, goes to the pots, if all pots hold something, a hundred
  -- times the sum and each balance with the sum fit 128 bits, an imbalance is split by the ratio,
  -- rounded down, and the balances take what is resolved as documented.
  pub on_unbalanceds-total :
      (amounts : List ℕ) (w : W)
      → 100 * charged amounts < 2 ^ 128
      → ((pot : Pot) → balance pot w + charged amounts < 2 ^ 128)
      → ((pot : Pot) → 1 ≤ balance pot w)
      → total (on_unbalanceds ration balances amounts w) ≡ total w + charged amounts
  unfolding on_unbalanceds
  on_unbalanceds-total [] w small fits exists = omega arith
  on_unbalanceds-total (fees ∷ []) w small fits exists =
      on_nonzero_unbalanced-total fees w small fits exists
  on_unbalanceds-total (fees ∷ (tips ∷ rest)) w small fits exists =
      on_nonzero_unbalanced-total (fees + tips) w small fits exists
