-- ===== src/Errors.antt =====
-- The errors of pricing and of execution validation (interstate-gateway/src/state/pricing.rs,
-- interstate-gateway/src/state/execution.rs).
use Prim.Native.String.{String}
use proposer_commitment_netw.Base.{ℕ, Bool, true, false}

pub data PricingError : Type 0 where
  exceeds_block_limit : ℕ → ℕ → PricingError
  insufficient_gas : ℕ → ℕ → PricingError
  invalid_gas_limit : ℕ → PricingError
  tip_too_low : ℕ → ℕ → PricingError

pub data ValidationError : Type 0 where
  base_fee_too_low : ℕ → ValidationError
  blob_base_fee_too_low : ℕ → ValidationError
  blob_validation : ValidationError
  max_base_fee_calc_overflow : ValidationError
  nonce_too_low : ℕ → ℕ → ValidationError
  nonce_too_high : ℕ → ℕ → ValidationError
  account_has_code : ValidationError
  gas_limit_too_high : ValidationError
  transaction_size_too_high : ValidationError
  max_priority_fee_per_gas_too_high : ValidationError
  max_priority_fee_per_gas_too_low : ℕ → ℕ → ValidationError
  insufficient_balance : ValidationError
  pricing : PricingError → ValidationError
  eip4844_limit : ValidationError
  slot_too_low : ℕ → ValidationError
  max_commitments_reached_for_slot : ℕ → ℕ → ValidationError
  max_committed_gas_reached_for_slot : ℕ → ℕ → ValidationError
  signature : ValidationError
  recover_signer : ValidationError
  chain_id_mismatch : ValidationError
  internal : ValidationError

pub is_internal : ValidationError → Bool
is_internal internal = true
is_internal _ = false

pub to_tag_str : ValidationError → String
to_tag_str (base_fee_too_low _) = "base_fee_too_low"
to_tag_str (blob_base_fee_too_low _) = "blob_base_fee_too_low"
to_tag_str blob_validation = "blob_validation"
to_tag_str max_base_fee_calc_overflow = "max_base_fee_calc_overflow"
to_tag_str (nonce_too_low _ _) = "nonce_too_low"
to_tag_str (nonce_too_high _ _) = "nonce_too_high"
to_tag_str account_has_code = "account_has_code"
to_tag_str gas_limit_too_high = "gas_limit_too_high"
to_tag_str transaction_size_too_high = "transaction_size_too_high"
to_tag_str max_priority_fee_per_gas_too_high = "max_priority_fee_per_gas_too_high"
to_tag_str (max_priority_fee_per_gas_too_low _ _) = "max_priority_fee_per_gas_too_low"
to_tag_str insufficient_balance = "insufficient_balance"
to_tag_str (pricing _) = "pricing"
to_tag_str eip4844_limit = "eip4844_limit"
to_tag_str (slot_too_low _) = "slot_too_low"
to_tag_str (max_commitments_reached_for_slot _ _) = "max_commitments_reached_for_slot"
to_tag_str (max_committed_gas_reached_for_slot _ _) = "max_committed_gas_reached_for_slot"
to_tag_str signature = "signature"
to_tag_str recover_signer = "recover_signer"
to_tag_str chain_id_mismatch = "chain_id_mismatch"
to_tag_str internal = "internal"

-- The closure that `verify_el_tx` maps a pricing failure with.
unfoldable pub of_pricing : PricingError → ValidationError
of_pricing (tip_too_low tip min_priority_fee) =
    max_priority_fee_per_gas_too_low tip min_priority_fee
of_pricing other = pricing other
