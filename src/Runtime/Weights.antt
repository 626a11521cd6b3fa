-- ===== src/Runtime/Weights.antt =====
-- The constants and formulas of runtime/src/lib.rs for fees, weights, gas and deposits, with the
-- base weight of runtime/src/weights/extrinsic_weights.rs. `Perbill` and the evaluation of a fee
-- polynomial are those of Substrate, parameters.
use neuroweb.Prelude.{
  ℕ, ◌+◌, ◌-◌, ◌*◌, ◌/◌, ◌%◌, ◌^◌, ◌<◌, ◌≤◌, ◌≡◌, Bool, true, false, min, List, [], ◌∷◌, arith,
}

-- Units of the currency.
abbrev pub otp : ℕ
otp = 1000000000000

abbrev pub milliotp : ℕ
milliotp = 1000000000

abbrev pub microotp : ℕ
microotp = 1000000

abbrev pub existential_deposit : ℕ
existential_deposit = otp

-- Time in blocks.
abbrev pub millisecs_per_block : ℕ
millisecs_per_block = 12000

abbrev pub minutes : ℕ
minutes = 60000 / millisecs_per_block

abbrev pub hours : ℕ
hours = minutes * 60

abbrev pub days : ℕ
days = hours * 24

-- `WEIGHT_REF_TIME_PER_SECOND` and `WEIGHT_REF_TIME_PER_NANOS` of Substrate.
abbrev pub weight_ref_time_per_second : ℕ
weight_ref_time_per_second = 1000000000000

abbrev pub weight_ref_time_per_nanos : ℕ
weight_ref_time_per_nanos = 1000

-- The time of `ExtrinsicBaseWeight`.
abbrev pub extrinsic_base_weight : ℕ
extrinsic_base_weight = weight_ref_time_per_nanos * 125000

abbrev pub maximum_block_ref_time : ℕ
maximum_block_ref_time = weight_ref_time_per_second / 2

abbrev pub gas_per_second : ℕ
gas_per_second = 40000000

abbrev pub weight_per_gas : ℕ
weight_per_gas = weight_ref_time_per_second / gas_per_second

-- The sum of 128 bits overflows for no arguments of 32 bits.
unfoldable pub deposit : ℕ → ℕ → ℕ
deposit items bytes = items * 15 * milliotp + bytes * 6 * milliotp

pub deposit-bounded :
    (items bytes : ℕ) → items < 2 ^ 32 → bytes < 2 ^ 32 → deposit items bytes < 2 ^ 128
unfolding deposit
deposit-bounded items bytes small_items small_bytes = omega arith

-- `WeightToFeeCoefficient`; the fraction in parts of 10 ^ 9.
pub record Coefficient : Type 0 where
  pub degree : ℕ
  pub negative : Bool
  pub coeff_frac : ℕ
  pub coeff_integer : ℕ

abbrev pub p_of_fee : ℕ
p_of_fee = milliotp / 10

abbrev pub q_of_fee : ℕ
q_of_fee = 100 * extrinsic_base_weight

-- `WeightToFee::polynomial`
unfoldable pub polynomial : (ℕ → ℕ → ℕ) → List Coefficient
polynomial from_rational =
    record {
      degree = 1;
      negative = false;
      coeff_frac = from_rational (p_of_fee % q_of_fee) q_of_fee;
      coeff_integer = p_of_fee / q_of_fee;
    }
    ∷ []

-- The documented meaning of `Perbill::from_rational`, of the product with a `Perbill`, which rounds
-- to the nearest.
abbrev pub IsFromRational : (ℕ → ℕ → ℕ) → Type 0
IsFromRational from_rational = (p q : ℕ) → p ≤ q → 1 ≤ q → from_rational p q ≡ p * 1000000000 / q

abbrev pub IsNearest : (ℕ → ℕ → ℕ) → Type 0
IsNearest times =
    (parts n : ℕ)
    → (2 * (parts * n) ≤ (2 * times parts n + 1) * 1000000000)
      × (2 * times parts n * 1000000000 ≤ 2 * (parts * n) + 1000000000)

-- Balances saturate at 128 bits.
abbrev pub capped : ℕ → ℕ
capped n = min n (2 ^ 128 - 1)

module _ (times : ℕ → ℕ → ℕ) where
  -- A term of a fee, added to what the terms before it gave or taken from it.
  abbrev pub add_term : Bool → ℕ → ℕ → ℕ → ℕ
  add_term true frac integer acc = acc - frac - integer
  add_term false frac integer acc = capped (capped (acc + frac) + integer)

  abbrev pub sum_terms : List Coefficient → ℕ → ℕ → ℕ
  sum_terms [] w acc = acc
  sum_terms (c ∷ cs) w acc =
      let power = capped (w ^ c.degree) in
      sum_terms cs w
        (add_term c.negative (times c.coeff_frac power) (capped (c.coeff_integer * power)) acc)

  -- The documented meaning of `weight_to_fee` for the coefficients of a polynomial.
  abbrev pub IsWeightToFee : (List Coefficient → ℕ → ℕ) → Type 0
  IsWeightToFee weight_to_fee =
      (cs : List Coefficient) (w : ℕ) → w < 2 ^ 64 → weight_to_fee cs w ≡ sum_terms cs w 0

-- `NORMAL_DISPATCH_RATIO` in parts of 10 ^ 9.
abbrev pub normal_dispatch_ratio : ℕ
normal_dispatch_ratio = 750000000

-- The share of a block for normal calls, and what `RuntimeBlockWeights` reserves for operational ones.
module _ (times : ℕ → ℕ → ℕ) where
  unfoldable pub normal_max_total : ℕ
  normal_max_total = times normal_dispatch_ratio maximum_block_ref_time

  unfoldable pub operational_reserved : ℕ
  operational_reserved = maximum_block_ref_time - normal_max_total

  -- `BlockGasLimit`
  unfoldable pub block_gas_limit : ℕ
  block_gas_limit = times normal_dispatch_ratio maximum_block_ref_time / weight_per_gas

  -- The gas limit of a block is 15 000 000, the gas of the time that normal calls may use; they and
  -- the reserve share a block between them, if `Perbill` rounds as documented.
  pub block_gas_limit_lem :
      IsNearest times
      → (block_gas_limit ≡ 15000000)
        × (block_gas_limit * weight_per_gas ≡ normal_max_total)
        × (normal_max_total + operational_reserved ≡ maximum_block_ref_time)
  unfolding normal_max_total operational_reserved block_gas_limit
  block_gas_limit_lem nearest =
      let (low, high) = nearest normal_dispatch_ratio maximum_block_ref_time in
      (omega arith, omega arith, omega arith)
