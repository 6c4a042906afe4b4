-- ===== src/Tx/Fees.antt =====
-- Fee bounds and the check of a transaction against its account
-- (interstate-gateway/src/utils/transactions.rs, `AccountState` of
-- interstate-gateway/src/state/account_state.rs). `max_basefee` is a u128, balances are U256.
use proposer_commitment_netw.Base.{
  ℕ, zero, suc, ◌-◌, ◌/◌, Bool, Option, none, some, Result, ok, ◌>>=◌, ◌>>◌, ensure, unwrap_or, ltb,
  leb, not, if◌then◌else◌,
}
use proposer_commitment_netw.Base.Words.{u128_mod, add_u128, mul_u128, add_u256}
use proposer_commitment_netw.Errors.{
  ValidationError, nonce_too_low, nonce_too_high, insufficient_balance, account_has_code,
}
use proposer_commitment_netw.Tx.{TxLib, TxEip4844, PooledTransactionsElement, gas_limit, value}

pub record AccountState : Type 0 where
  pub transaction_count : ℕ
  pub balance : ℕ
  pub has_code : Bool

abbrev pub multiplier : ℕ
multiplier = 1125

abbrev pub divisor : ℕ
divisor = 1000

-- The loop of `calculate_max_basefee`, over the rounds left; `none` is the early return.
unfoldable pub max_basefee_loop : ℕ → ℕ → Option ℕ
max_basefee_loop zero max_basefee = some max_basefee
max_basefee_loop (suc rounds) max_basefee =
    let rest = max_basefee_loop rounds (add_u128 (mul_u128 max_basefee multiplier / divisor) 1) in
    if ltb ((u128_mod - 1) / multiplier) max_basefee then none else rest

unfoldable pub calculate_max_basefee : ℕ → ℕ → Option ℕ
unfolding max_basefee_loop
calculate_max_basefee current block_diff = max_basefee_loop block_diff current

module _ (lib : TxLib) where
  -- `fee_cap += eip4844.max_fee_per_blob_gas + eip4844.blob_gas() as u128`
  unfoldable pub add_blob_fee : ℕ → Option TxEip4844 → ℕ
  add_blob_fee fee_cap none = fee_cap
  add_blob_fee fee_cap (some t) =
      add_u128 fee_cap (add_u128 t.max_fee_per_blob_gas (lib.blob_gas t))

  unfoldable pub fee_cap : PooledTransactionsElement → ℕ
  unfolding add_blob_fee
  fee_cap tx =
      add_blob_fee
        (add_u128 (lib.max_fee_per_gas tx) (unwrap_or (lib.max_priority_fee_per_gas tx) 0))
        (lib.as_eip4844 tx)

  unfoldable pub max_transaction_cost {ℓ} : {E : Type ℓ} → PooledTransactionsElement → Result E ℕ
  max_transaction_cost tx = do
    gas ← gas_limit tx
    v ← value tx
    ok (add_u256 (mul_u128 gas (fee_cap tx)) v)

  unfoldable pub validate_transaction :
      AccountState → PooledTransactionsElement → Result ValidationError (Unit {0})
  validate_transaction account_state tx =
      let nonce = lib.nonce tx in
      do
        ensure (leb account_state.transaction_count nonce)
            (nonce_too_low account_state.transaction_count nonce)
        ensure (leb nonce account_state.transaction_count)
            (nonce_too_high account_state.transaction_count nonce)
        cost ← max_transaction_cost tx
        ensure (leb cost account_state.balance) insufficient_balance
        ensure (not account_state.has_code) account_has_code
