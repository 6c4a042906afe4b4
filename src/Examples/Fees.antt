-- ===== src/Examples/Fees.antt =====
-- Concrete runs on fees, prices and requests.
use proposer_commitment_netw.Base.{
  [], ◌∷◌, ◌+◌, ◌*◌, ◌≤◌, ◌<◌, ◌≡◌, ◌↔◌, refl, true, false, ok, All, arith,
}
use proposer_commitment_netw.Errors.{ValidationError}
use proposer_commitment_netw.Tx
use proposer_commitment_netw.Tx.{
  TxEip4844, blob_transaction, TxLib, PooledTransactionsElement, effective_tip_per_gas,
}
use proposer_commitment_netw.Tx.Fees.{
  AccountState, calculate_max_basefee, max_basefee_loop, fee_cap, add_blob_fee,
  max_transaction_cost, validate_transaction,
}
use proposer_commitment_netw.Tx.Basefee.{calculate_max_basefee_covers}
use proposer_commitment_netw.Tx.Cost.{validate_transaction_can_pay, blob_underfunded}
use proposer_commitment_netw.Pricing.{PreconfPricer}
use proposer_commitment_netw.Request.{validate_min_priority_fee}
use proposer_commitment_netw.Request.Fees.{validate_min_priority_fee_iff, PaysWay}
use proposer_commitment_netw.Examples.{lib, float, blob, blob_payload, two_transfers}

calculate_max_basefee_covers_example : 1265 ≤ 1267
unfolding calculate_max_basefee max_basefee_loop
calculate_max_basefee_covers_example =
    calculate_max_basefee_covers 1000 2 1265 1267
      (1125, omega arith, (1265, omega arith, omega arith)) refl

abbrev rich : AccountState
rich = record { transaction_count = 3; balance = 1_000_000_000; has_code = false }

abbrev cheap_payload : TxEip4844
cheap_payload = record blob_payload { max_fee_per_blob_gas = 1_000 }

abbrev cheap_blob : PooledTransactionsElement
cheap_blob = blob_transaction (record {
  tx = cheap_payload;
  sidecar = record { blobs = 1 ∷ []; commitments = 2 ∷ []; proofs = 3 ∷ [] };
})

abbrev very_rich : AccountState
very_rich = record { transaction_count = 3; balance = 6_000_000_000; has_code = false }

validate_transaction_can_pay_example : 20_000 * 2_999 + 262_144 * 900 + 5 ≤ 6_000_000_000
unfolding validate_transaction max_transaction_cost fee_cap add_blob_fee Tx.gas_limit Tx.value
validate_transaction_can_pay_example =
    validate_transaction_can_pay lib cheap_blob very_rich 21_000 5 20_000 2_999 900 refl refl
      (omega arith) (omega arith) (omega arith) (omega arith) (omega arith) (omega arith)
      (omega arith) refl

blob_underfunded_example : 26_570_124_005 < 21_000 * 3000 + 262_144 * 1_000_000 + 5
unfolding max_transaction_cost fee_cap add_blob_fee Tx.gas_limit Tx.value
blob_underfunded_example =
    blob_underfunded lib blob {E = ValidationError} blob_payload 21_000 5 26_570_124_005 refl refl
      refl (omega arith) (omega arith) (omega arith) (omega arith) refl

abbrev pricer : PreconfPricer
pricer = record { block_gas_limit = 30_000_000; base_multiplier = 1; gas_scalar = 1 }

validate_min_priority_fee_iff_example :
    (validate_min_priority_fee lib float pricer 0 50 2000 two_transfers ≡ ok true)
    ↔ All (PaysWay lib float pricer 0 50 2000) two_transfers.txs
validate_min_priority_fee_iff_example =
    validate_min_priority_fee_iff lib float pricer 0 50 2000 two_transfers
