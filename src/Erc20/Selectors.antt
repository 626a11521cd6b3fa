-- ===== src/Erc20/Selectors.antt =====
-- Every selector leads back to its action: the conversion that `num_enum` derives for `Action` of
-- precompiles/assets-erc20/src/lib.rs.
use neuroweb.Prelude.{
  ℕ, ◌≡◌, refl, ap, ◌⊎◌, inl, inr, true, false, some, List, [], ◌∷◌, arith, nat_eq_iff,
}
use neuroweb.Erc20.{
  Action, total_supply, balance_of, allowance, transfer, approve, transfer_from, name, symbol,
  decimals, minimum_balance, mint, burn, increase_allowance, decrease_allowance, actions, action_in,
}

abbrev pub IsListed : Action → List Action → Type 0
IsListed a [] = true ≡ false
IsListed a (b ∷ rest) = (a ≡ b) ⊎ IsListed a rest

pub listed : (a : Action) → IsListed a actions
listed total_supply = inl refl
listed balance_of = inr (inl refl)
listed allowance = inr (inr (inl refl))
listed transfer = inr (inr (inr (inl refl)))
listed approve = inr (inr (inr (inr (inl refl))))
listed transfer_from = inr (inr (inr (inr (inr (inl refl)))))
listed name = inr (inr (inr (inr (inr (inr (inl refl))))))
listed symbol = inr (inr (inr (inr (inr (inr (inr (inl refl)))))))
listed decimals = inr (inr (inr (inr (inr (inr (inr (inr (inl refl))))))))
listed minimum_balance = inr (inr (inr (inr (inr (inr (inr (inr (inr (inl refl)))))))))
listed mint = inr (inr (inr (inr (inr (inr (inr (inr (inr (inr (inl refl))))))))))
listed burn = inr (inr (inr (inr (inr (inr (inr (inr (inr (inr (inr (inl refl)))))))))))
listed increase_allowance =
    inr (inr (inr (inr (inr (inr (inr (inr (inr (inr (inr (inr (inl refl))))))))))))
listed decrease_allowance =
    inr (inr (inr (inr (inr (inr (inr (inr (inr (inr (inr (inr (inr (inl refl)))))))))))))

-- The conversion from a selector finds the action whose selector it is.
pub action_in_lem :
    (selector : Action → ℕ) (l : List Action) (a : Action)
    → ((a b : Action) → selector a ≡ selector b → a ≡ b)
    → IsListed a l
    → action_in selector l (selector a) ≡ some a
action_in_lem selector [] a injective listed = cc
action_in_lem selector (b ∷ rest) a injective (inl same) =
    ground (arith, nat_eq_iff (selector a) (selector b), ap selector same)
action_in_lem selector (b ∷ rest) a injective (inr listed) = ground (
  arith,
  nat_eq_iff (selector a) (selector b),
  injective a b,
  action_in_lem selector rest a injective listed,
)
