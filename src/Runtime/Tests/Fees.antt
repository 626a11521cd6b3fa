-- ===== src/Runtime/Tests/Fees.antt =====
-- The shares of fees of runtime/src/lib.rs with concrete pots.
use neuroweb.Prelude.{
  ℕ, ◌+◌, ◌-◌, ◌*◌, ◌/◌, ◌≤◌, ◌≡◌, ◌≢◌, refl, Bool, true, false, [], ◌∷◌, if◌then◌else◌, arith,
}
use neuroweb.Runtime.Weights.{otp}
use neuroweb.Runtime.Fees.{
  Pot, treasury, staking_pot, future_auctions_pot, dkg_incentives_pot, PotBalances,
  on_nonzero_unbalanced, on_unbalanceds, IsRation, received, IsResolving,
}
use neuroweb.Runtime.Fees.Shares.{total, on_unbalanceds-total, on_nonzero_unbalanced-shares}

abbrev ration : ℕ → ℕ → ℕ → ℕ × ℕ
ration amount first second =
    (amount * first / (first + second), amount - amount * first / (first + second))

ration-IsRation : IsRation ration
ration-IsRation amount first second h small = (refl, refl)

abbrev Balances : Type 0
Balances = Pot → ℕ

abbrev is_pot : Pot → Pot → Bool
is_pot treasury treasury = true
is_pot treasury staking_pot = false
is_pot treasury future_auctions_pot = false
is_pot treasury dkg_incentives_pot = false
is_pot staking_pot treasury = false
is_pot staking_pot staking_pot = true
is_pot staking_pot future_auctions_pot = false
is_pot staking_pot dkg_incentives_pot = false
is_pot future_auctions_pot treasury = false
is_pot future_auctions_pot staking_pot = false
is_pot future_auctions_pot future_auctions_pot = true
is_pot future_auctions_pot dkg_incentives_pot = false
is_pot dkg_incentives_pot treasury = false
is_pot dkg_incentives_pot staking_pot = false
is_pot dkg_incentives_pot future_auctions_pot = false
is_pot dkg_incentives_pot dkg_incentives_pot = true

is_pot_self : (pot : Pot) → is_pot pot pot ≡ true
is_pot_self treasury = refl
is_pot_self staking_pot = refl
is_pot_self future_auctions_pot = refl
is_pot_self dkg_incentives_pot = refl

is_pot_other : (other pot : Pot) → other ≢ pot → is_pot other pot ≡ false
is_pot_other treasury treasury ne = ground (arith, ne refl)
is_pot_other treasury staking_pot ne = refl
is_pot_other treasury future_auctions_pot ne = refl
is_pot_other treasury dkg_incentives_pot ne = refl
is_pot_other staking_pot treasury ne = refl
is_pot_other staking_pot staking_pot ne = ground (arith, ne refl)
is_pot_other staking_pot future_auctions_pot ne = refl
is_pot_other staking_pot dkg_incentives_pot ne = refl
is_pot_other future_auctions_pot treasury ne = refl
is_pot_other future_auctions_pot staking_pot ne = refl
is_pot_other future_auctions_pot future_auctions_pot ne = ground (arith, ne refl)
is_pot_other future_auctions_pot dkg_incentives_pot ne = refl
is_pot_other dkg_incentives_pot treasury ne = refl
is_pot_other dkg_incentives_pot staking_pot ne = refl
is_pot_other dkg_incentives_pot future_auctions_pot ne = refl
is_pot_other dkg_incentives_pot dkg_incentives_pot ne = ground (arith, ne refl)

abbrev tills : PotBalances Balances
tills = record {
  total_balance = λ pot b. b pot;
  resolve_creating =
      λ pot amount b other. if is_pot other pot then received (b other) amount else b other;
}

tills-IsResolving : IsResolving tills
tills-IsResolving = record {
  resolved = λ pot amount b fits. rw (is_pot_self pot) refl;
  others = λ pot other amount b ne. rw (is_pot_other other pot ne) refl;
}

abbrev filled : Balances
filled pot = 5 * otp

-- A run: 1000 of fees and 7 of tips.
shared : on_unbalanceds ration tills (1000 ∷ 7 ∷ []) filled treasury ≡ 5 * otp + 101
unfolding on_unbalanceds on_nonzero_unbalanced
shared = refl

-- A run: pots that do not exist get nothing of so little.
lost : on_unbalanceds ration tills (1000 ∷ 7 ∷ []) (λ pot. 0) treasury ≡ 0
unfolding on_unbalanceds on_nonzero_unbalanced
lost = refl

on_unbalanceds-total_example :
    total ration tills ration-IsRation tills-IsResolving
      (on_unbalanceds ration tills (1000 ∷ 7 ∷ []) filled)
    ≡ 20 * otp + 1007
on_unbalanceds-total_example =
    on_unbalanceds-total ration tills ration-IsRation tills-IsResolving (1000 ∷ 7 ∷ []) filled
      (omega arith) (λ pot. omega arith) (λ pot. omega arith)

on_nonzero_unbalanced-shares_example :
    (given : ℕ) × (10 * 1000 ≤ 100 * (given + 2))
    × (100 * given ≤ 10 * 1000 + 200)
    × (on_nonzero_unbalanced ration tills 1000 filled treasury ≡ received (5 * otp) given)
on_nonzero_unbalanced-shares_example =
    on_nonzero_unbalanced-shares ration tills ration-IsRation tills-IsResolving treasury 1000 filled
      (omega arith) (omega arith)
