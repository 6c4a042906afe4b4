-- ===== src/Tx/Cost.antt =====
-- What a transaction can cost and what `validate_transaction` promises
-- (interstate-gateway/src/utils/transactions.rs).
use proposer_commitment_netw.Base.{
  ℕ, ◌+◌, ◌*◌, ◌≤◌, ◌<◌, ◌≡◌, ◌↔◌, false, some, none, Option, ok, unwrap_or, Result-cases, inl, inr,
  arith, ap, sym, ◌∙◌, ◌%◌, ok-injective,
}
use native.Mathlib.Nat.{mul-le-mul}
use proposer_commitment_netw.Base.Words.{u128_mod, u256_mod}
use proposer_commitment_netw.Errors.{ValidationError}
use proposer_commitment_netw.Tx.{TxLib, TxEip4844, PooledTransactionsElement, gas_limit, value}
use proposer_commitment_netw.Tx.Fees.{
  AccountState, fee_cap, max_transaction_cost, validate_transaction,
}

-- What the blobs of a transaction add to the fee cap, over unbounded numbers.
abbrev pub blob_fee : TxLib → Option TxEip4844 → ℕ
blob_fee lib none = 0
blob_fee lib (some t) = t.max_fee_per_blob_gas + lib.blob_gas t

abbrev pub blob_gas_of : TxLib → Option TxEip4844 → ℕ
blob_gas_of lib none = 0
blob_gas_of lib (some t) = lib.blob_gas t

abbrev pub max_blob_price : Option TxEip4844 → ℕ
max_blob_price none = 0
max_blob_price (some t) = t.max_fee_per_blob_gas

-- What the blobs of a transaction can cost.
abbrev pub max_blob_cost : TxLib → Option TxEip4844 → ℕ
max_blob_cost lib o = blob_gas_of lib o * max_blob_price o

abbrev pub exact_fee_cap : TxLib → PooledTransactionsElement → ℕ
exact_fee_cap lib tx =
    lib.max_fee_per_gas tx
    + unwrap_or (lib.max_priority_fee_per_gas tx) 0
    + blob_fee lib (lib.as_eip4844 tx)

no_wrap : (a b : ℕ) → a < u128_mod → a + b < u256_mod → (a % u128_mod + b) % u256_mod ≡ a + b
no_wrap a b p q = omega arith

module _ (lib : TxLib) (tx : PooledTransactionsElement) where
  -- `validate_transaction` accepts exactly the transactions with the account's nonce whose maximal
  -- cost is computed and covered, from an account with no code.
  pub validate_transaction_iff :
      (s : AccountState)
      → (validate_transaction lib s tx ≡ ok tt) ↔ (
          (lib.nonce tx ≡ s.transaction_count)
          × (s.has_code ≡ false)
          × ((cost : ℕ) × (max_transaction_cost lib {E = ValidationError} tx ≡ ok cost)
              × (cost ≤ s.balance)))
  unfolding validate_transaction
  validate_transaction_iff s =
      elim (Result-cases (max_transaction_cost lib {E = ValidationError} tx)) [
        | inl (cost, e) ↦
            (λ h. (ground arith, ground arith, (cost, e, ground arith)), λ h. ground arith)
        | inr (inl (x, e)) ↦ (λ h. absurd (ground arith), λ h. absurd (ground arith))
        | inr (inr e) ↦ (λ h. absurd (ground arith), λ h. absurd (ground arith))
      ]

  fee_cap_exact : exact_fee_cap lib tx < u128_mod → fee_cap lib tx ≡ exact_fee_cap lib tx
  unfolding fee_cap
  fee_cap_exact h = ground arith

  -- Where neither the fees nor the products overflow, the cost is the gas limit times the fee
  -- cap (which counts the tip beside the maximal fee), plus the value.
  pub max_transaction_cost_exact {ℓ} :
      {E : Type ℓ} (gas v : ℕ)
      → gas_limit {E = E} tx ≡ ok gas
      → value {E = E} tx ≡ ok v
      → exact_fee_cap lib tx < u128_mod
      → gas * exact_fee_cap lib tx < u128_mod
      → gas * exact_fee_cap lib tx + v < u256_mod
      → max_transaction_cost lib {E = E} tx ≡ ok (gas * exact_fee_cap lib tx + v)
  unfolding max_transaction_cost
  max_transaction_cost_exact gas v g x p q r =
      rw (g, x, fee_cap_exact p) (ap ok (no_wrap (gas * exact_fee_cap lib tx) v q r))

  -- An accepted transaction can be paid for, its blobs included, if nothing overflows and its blobs
  -- cost at most what the check counts for them (always so without blobs): whatever gas it uses, up
  -- to its limit, at whatever price up to its maximal fee, and whatever its blob gas costs up to the
  -- maximal blob fee, the account covers all of that and the value.
  pub validate_transaction_can_pay :
      (s : AccountState) (gas v used price blob_price : ℕ)
      → gas_limit {E = ValidationError} tx ≡ ok gas
      → value {E = ValidationError} tx ≡ ok v
      → exact_fee_cap lib tx < u128_mod
      → gas * exact_fee_cap lib tx < u128_mod
      → gas * exact_fee_cap lib tx + v < u256_mod
      → max_blob_cost lib (lib.as_eip4844 tx)
        ≤ gas * (unwrap_or (lib.max_priority_fee_per_gas tx) 0 + blob_fee lib (lib.as_eip4844 tx))
      → used ≤ gas
      → price ≤ lib.max_fee_per_gas tx
      → blob_price ≤ max_blob_price (lib.as_eip4844 tx)
      → validate_transaction lib s tx ≡ ok tt
      → used * price + blob_gas_of lib (lib.as_eip4844 tx) * blob_price + v ≤ s.balance
  validate_transaction_can_pay s gas v used price blob_price g x p q r counted used_le price_le
        blob_le h =
      let (_, _, (cost, e, covered)) = (validate_transaction_iff s).0 h in
      let same : cost ≡ gas * exact_fee_cap lib tx + v =
        ok-injective (sym e ∙ max_transaction_cost_exact gas v g x p q r) in
      let bound : used * price ≤ gas * lib.max_fee_per_gas tx = mul-le-mul used_le price_le in
      let blobs : blob_gas_of lib (lib.as_eip4844 tx) * blob_price
          ≤ max_blob_cost lib (lib.as_eip4844 tx) =
        mul-le-mul (omega arith) blob_le in
      let tip = unwrap_or (lib.max_priority_fee_per_gas tx) 0 in
      let split : gas * exact_fee_cap lib tx
          ≡ gas * lib.max_fee_per_gas tx + gas * (tip + blob_fee lib (lib.as_eip4844 tx)) =
        grind arith in
      omega arith

  -- The blob fee is added to the fee per gas and not multiplied by the blob gas. Where nothing
  -- overflows, and the gas limit times the tip, the blob fee and the blob gas is below the blob gas
  -- times the blob fee, the cost that is checked is below what the transaction can spend.
  pub blob_underfunded {ℓ} :
      {E : Type ℓ} (t : TxEip4844) (gas v cost : ℕ)
      → lib.as_eip4844 tx ≡ some t
      → gas_limit {E = E} tx ≡ ok gas
      → value {E = E} tx ≡ ok v
      → exact_fee_cap lib tx < u128_mod
      → gas * exact_fee_cap lib tx < u128_mod
      → gas * exact_fee_cap lib tx + v < u256_mod
      → gas
          * (unwrap_or (lib.max_priority_fee_per_gas tx) 0
              + t.max_fee_per_blob_gas
              + lib.blob_gas t)
        < lib.blob_gas t * t.max_fee_per_blob_gas
      → max_transaction_cost lib {E = E} tx ≡ ok cost
      → cost < gas * lib.max_fee_per_gas tx + lib.blob_gas t * t.max_fee_per_blob_gas + v
  blob_underfunded {E} t gas v cost b g x p q r small h =
      let same : cost ≡ gas * exact_fee_cap lib tx + v =
        ok-injective {E = E} (sym h ∙ max_transaction_cost_exact gas v g x p q r) in
      let cap : exact_fee_cap lib tx
          ≡ lib.max_fee_per_gas tx
            + unwrap_or (lib.max_priority_fee_per_gas tx) 0
            + (t.max_fee_per_blob_gas + lib.blob_gas t) =
        rw b in
      omega (arith, ap (λ (c : ℕ). gas * c) cap)
