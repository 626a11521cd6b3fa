-- ===== src/Runtime/Fees.antt =====
-- `DealWithFees` of runtime/src/lib.rs: how fees and tips are shared among the pots. An imbalance is its
-- amount. `ration` is that of `frame_support`; the balances, those of `pallet_balances` on an abstract
-- storage, take what is resolved.
pub mod Shares
use neuroweb.Prelude.{
  ℕ, ◌+◌, ◌-◌, ◌*◌, ◌/◌, ◌^◌, ◌<◌, ◌≤◌, ◌≡◌, ◌≢◌, ◌⊎◌, inl, inr, refl, List, [], ◌∷◌, ltb, nat_eq,
  ◌&&◌, if◌then◌else◌, ℕ-cases, sym, ap, ◌∙◌, arith,
}
use neuroweb.Runtime.Weights.{existential_deposit}

pub data Pot : Type 0 where
  treasury staking_pot future_auctions_pot dkg_incentives_pot : Pot

-- What the runtime uses of `Balances` here: the total balance of the account of a pot, and
-- `resolve_creating` for it.
pub record PotBalances (W : Type 0) : Type 0 where
  pub total_balance : Pot → W → ℕ
  pub resolve_creating : Pot → ℕ → W → W

module _ {W : Type 0} (ration : ℕ → ℕ → ℕ → ℕ × ℕ) (balances : PotBalances W) where
  -- `OnUnbalanced::on_unbalanced` drops nothing, and resolves the rest to the pot.
  abbrev pub on_unbalanced : Pot → ℕ → W → W
  on_unbalanced pot amount w = if nat_eq amount 0 then w else balances.resolve_creating pot amount w

  -- `DealWithFees::on_nonzero_unbalanced`
  unfoldable pub on_nonzero_unbalanced : ℕ → W → W
  on_nonzero_unbalanced amount w0 =
      let split = ration amount 60 40 in
      let incentives = ration (split.0) 50 50 in
      let others = ration (split.1) 75 25 in
      let w1 = on_unbalanced treasury (others.1) w0 in
      let w2 = on_unbalanced staking_pot (incentives.1) w1 in
      let w3 = on_unbalanced future_auctions_pot (others.0) w2 in
      on_unbalanced dkg_incentives_pot (incentives.0) w3

  -- `on_unbalanceds`: the fees, and the tips if there are any, are shared together. What follows them is
  -- dropped.
  unfoldable pub on_unbalanceds : List ℕ → W → W
  on_unbalanceds [] w = w
  on_unbalanceds (fees ∷ []) w = on_nonzero_unbalanced fees w
  on_unbalanceds (fees ∷ (tips ∷ rest)) w = on_nonzero_unbalanced (fees + tips) w

-- Fees and tips.
abbrev pub charged : List ℕ → ℕ
charged [] = 0
charged (fees ∷ []) = fees
charged (fees ∷ (tips ∷ rest)) = fees + tips

-- `ration(first, second)` gives the first part its share, rounded down, and the second the rest, where the
-- product fits `u128`.
abbrev pub IsRation : (ℕ → ℕ → ℕ → ℕ × ℕ) → Type 0
IsRation ration =
    (amount first second : ℕ)
    → 1 ≤ first + second
    → amount * first < 2 ^ 128
    → ((ration amount first second).0 ≡ amount * first / (first + second))
      × ((ration amount first second).1 ≡ amount - amount * first / (first + second))

-- An account that has nothing and is given less than the existential deposit is not created, and the
-- amount is lost.
abbrev pub received : ℕ → ℕ → ℕ
received before amount =
    if nat_eq before 0 && ltb amount existential_deposit then before else before + amount

-- The documented behaviour of `resolve_creating` where the balance fits `u128`.
pub record IsResolving {W : Type 0} (balances : PotBalances W) : Type 0 where
  pub resolved :
      (pot : Pot) (amount : ℕ) (w : W)
      → balances.total_balance pot w + amount < 2 ^ 128
      → balances.total_balance pot (balances.resolve_creating pot amount w)
        ≡ received (balances.total_balance pot w) amount
  pub others :
      (pot other : Pot) (amount : ℕ) (w : W)
      → other ≢ pot
      → balances.total_balance other (balances.resolve_creating pot amount w)
        ≡ balances.total_balance other w

-- What each pot should get.
abbrev pub percent : Pot → ℕ
percent treasury = 10
percent staking_pot = 30
percent future_auctions_pot = 30
percent dkg_incentives_pot = 30
