-- ===== src/Pricing.antt =====
-- `PreconfPricer` (interstate-gateway/src/state/pricing.rs). A 64-bit float is its bit pattern, and
-- the hardware's operations on floats are the parameter `F64`.
use proposer_commitment_netw.Base.{
  ℕ, ◌+◌, ◌-◌, ap, sym, >>=-eq-ok, ◌/◌, ◌≤◌, ◌≡◌, ◌≢◌, ◌↔◌, Result, ok, ◌>>◌, ensure, ltb, leb,
  ◌==◌, not, arith,
}
use proposer_commitment_netw.Errors.{
  PricingError, exceeds_block_limit, insufficient_gas, invalid_gas_limit,
}

pub record F64 : Type 0 where
  pub of_u64 : ℕ → ℕ
  -- the saturating cast `as u64`
  pub to_u64 : ℕ → ℕ
  pub add : ℕ → ℕ → ℕ
  pub mul : ℕ → ℕ → ℕ
  pub div : ℕ → ℕ → ℕ
  pub ln : ℕ → ℕ
  -- the literals 1.0, 1e18, 0.019 and 1.02e-6
  pub one : ℕ
  pub ether : ℕ
  pub base_multiplier : ℕ
  pub gas_scalar : ℕ

pub record PreconfPricer : Type 0 where
  pub block_gas_limit : ℕ
  pub base_multiplier : ℕ
  pub gas_scalar : ℕ

unfoldable pub new : F64 → ℕ → PreconfPricer
new f block_gas_limit = record {
  block_gas_limit = block_gas_limit;
  base_multiplier = f.base_multiplier;
  gas_scalar = f.gas_scalar;
}

unfoldable pub validate_fee_inputs : ℕ → ℕ → ℕ → Result PricingError (Unit {0})
validate_fee_inputs incoming_gas preconfirmed_gas gas_limit = do
  ensure (ltb preconfirmed_gas gas_limit) (exceeds_block_limit preconfirmed_gas gas_limit)
  ensure (not (incoming_gas == 0)) (invalid_gas_limit incoming_gas)
  let remaining_gas = gas_limit - preconfirmed_gas
  ensure (leb incoming_gas remaining_gas) (insufficient_gas incoming_gas remaining_gas)

-- The tip of the whole bundle: base_multiplier * ln(fraction) * 1e18, as an integer.
unfoldable pub inclusion_tip_wei : F64 → PreconfPricer → ℕ → ℕ → ℕ
inclusion_tip_wei f p remaining_gas after_gas =
    let level = λ (gas : ℕ). f.add (f.mul p.gas_scalar (f.of_u64 gas)) f.one in
    let fraction = f.div (level remaining_gas) (level after_gas) in
    f.to_u64 (f.mul (f.mul p.base_multiplier (f.ln fraction)) f.ether)

-- The subtractions are those of ℕ: the check before them has bounded both.
unfoldable pub calculate_min_priority_fee : F64 → PreconfPricer → ℕ → ℕ → Result PricingError ℕ
calculate_min_priority_fee f p incoming_gas preconfirmed_gas = do
  validate_fee_inputs incoming_gas preconfirmed_gas p.block_gas_limit
  let remaining_gas = p.block_gas_limit - preconfirmed_gas
  let after_gas = remaining_gas - incoming_gas
  ok (inclusion_tip_wei f p remaining_gas after_gas / incoming_gas)

-- The inputs that a price is computed for: some gas, which fits under the block's limit.
abbrev pub FitsBlock : ℕ → ℕ → ℕ → Type 0
FitsBlock incoming_gas preconfirmed_gas gas_limit =
    (incoming_gas ≢ 0) × (preconfirmed_gas + incoming_gas ≤ gas_limit)

-- The check passes exactly for some gas that fits under the limit beside what is preconfirmed.
pub validate_fee_inputs_iff :
    (incoming_gas preconfirmed_gas gas_limit : ℕ)
    → (validate_fee_inputs incoming_gas preconfirmed_gas gas_limit ≡ ok tt)
      ↔ FitsBlock incoming_gas preconfirmed_gas gas_limit
unfolding validate_fee_inputs
validate_fee_inputs_iff i p g = ground arith

-- The levels at which the price is taken, without truncated subtraction.
abbrev pub IsPrice : F64 → PreconfPricer → ℕ → ℕ → ℕ → Type 0
IsPrice f p incoming_gas preconfirmed_gas fee =
    (remaining : ℕ) × (after : ℕ) × (remaining + preconfirmed_gas ≡ p.block_gas_limit)
    × (after + incoming_gas ≡ remaining)
    × (fee ≡ inclusion_tip_wei f p remaining after / incoming_gas)

module _ (f : F64) (p : PreconfPricer) (incoming_gas preconfirmed_gas fee : ℕ) where
  IsPrice-of_ok :
      calculate_min_priority_fee f p incoming_gas preconfirmed_gas ≡ ok fee
      → FitsBlock incoming_gas preconfirmed_gas p.block_gas_limit
        × IsPrice f p incoming_gas preconfirmed_gas fee
  unfolding calculate_min_priority_fee
  IsPrice-of_ok h =
      let (_, checked, priced) =
        >>=-eq-ok (validate_fee_inputs incoming_gas preconfirmed_gas p.block_gas_limit) _ h in
      let fits =
        (validate_fee_inputs_iff incoming_gas preconfirmed_gas p.block_gas_limit).0 checked in
      (
        fits,
        (
          p.block_gas_limit - preconfirmed_gas,
          p.block_gas_limit - preconfirmed_gas - incoming_gas,
          omega arith,
          omega arith,
          ground arith,
        ),
      )

  ok_of_price :
      FitsBlock incoming_gas preconfirmed_gas p.block_gas_limit
      → IsPrice f p incoming_gas preconfirmed_gas fee
      → calculate_min_priority_fee f p incoming_gas preconfirmed_gas ≡ ok fee
  unfolding calculate_min_priority_fee
  ok_of_price fits (remaining, after, e, k, priced) =
      let checked =
        (validate_fee_inputs_iff incoming_gas preconfirmed_gas p.block_gas_limit).1 fits in
      let e' : p.block_gas_limit - preconfirmed_gas ≡ remaining = omega arith in
      let k' : remaining - incoming_gas ≡ after = omega arith in
      rw (checked, e', k') (ap ok (sym priced))

  -- A price exists exactly where there is some gas and it fits under the block's limit; it is then
  -- the tip between the gas left before and after the request, divided by the request's gas. So
  -- no subtraction underflows and the division is never by zero.
  pub calculate_min_priority_fee_iff :
      (calculate_min_priority_fee f p incoming_gas preconfirmed_gas ≡ ok fee) ↔ (
        FitsBlock incoming_gas preconfirmed_gas p.block_gas_limit
        × IsPrice f p incoming_gas preconfirmed_gas fee)
  calculate_min_priority_fee_iff = (IsPrice-of_ok, λ (fits, priced). ok_of_price fits priced)
