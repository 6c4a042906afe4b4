-- ===== src/Execution/Verify.antt =====
-- `verify_el_tx` of `ExecutionState` (interstate-gateway/src/state/execution.rs): the checks of the
-- whole request, in the order of the code, and then the loop over its transactions.
use proposer_commitment_netw.Base.{
  ℕ, ◌-◌, Option, none, some, [], Result, ok, ◌>>=◌, ◌>>◌, map_err, ensure, ok_or, ltb, leb,
}
use proposer_commitment_netw.Base.Assoc
use proposer_commitment_netw.Base.Assoc.{Assoc}
use proposer_commitment_netw.Base.Words.{add_u64}
use proposer_commitment_netw.Errors.{
  ValidationError, base_fee_too_low, max_base_fee_calc_overflow, gas_limit_too_high,
  transaction_size_too_high, max_priority_fee_per_gas_too_high, of_pricing, slot_too_low,
  max_committed_gas_reached_for_slot, chain_id_mismatch,
}
use proposer_commitment_netw.Tx.{TxLib}
use proposer_commitment_netw.Tx.Fees.{AccountState, calculate_max_basefee}
use proposer_commitment_netw.Pricing.{F64}
use proposer_commitment_netw.Request
use proposer_commitment_netw.Request.{PreconfRequest}
use proposer_commitment_netw.Template.{BlockTemplate, committed_gas}
use proposer_commitment_netw.Execution.{ExecutionState, and_then, verify_txs}

-- The gas that the template of the slot has committed; 0 with no template.
abbrev pub preconfirmed_in : Option BlockTemplate → Result ValidationError ℕ
preconfirmed_in none = ok 0
preconfirmed_in (some t) = committed_gas t

module _ (lib : TxLib) (f : F64) where
  -- The checks before the loop; the request has its signers already. The result is the largest
  -- base fee that the chain can reach by the target slot.
  unfoldable pub check_request : ExecutionState → PreconfRequest → Result ValidationError ℕ
  check_request st req = do
    on_chain ← Request.validate_chain_id req st.chain_id
    ensure on_chain chain_id_mismatch
    preconfirmed_gas ← preconfirmed_in (Assoc.lookup req.slot st.block_templates)
    gas ← Request.gas_limit req
    ensure (ltb (add_u64 preconfirmed_gas gas) st.limits.max_committed_gas_per_slot)
        (max_committed_gas_reached_for_slot st.slot st.limits.max_committed_gas_per_slot)
    init_code ← Request.validate_init_code_limit req st.validation_params.max_init_code_byte_size
    ensure init_code transaction_size_too_high
    ensure (leb gas st.validation_params.block_gas_limit) gas_limit_too_high
    size ← Request.validate_tx_size_limit lib req st.validation_params.max_tx_input_bytes
    ensure size transaction_size_too_high
    ensure (Request.validate_max_priority_fee lib req) max_priority_fee_per_gas_too_high
    max_basefee ←
        ok_or (calculate_max_basefee st.basefee (req.slot - st.slot)) max_base_fee_calc_overflow
    ensure (Request.validate_basefee lib req max_basefee) (base_fee_too_low max_basefee)
    covered ← map_err of_pricing (
        Request.validate_min_priority_fee lib f st.pricing preconfirmed_gas
          st.limits.min_inclusion_profit max_basefee req)
    ensure (leb st.slot req.slot) (slot_too_low st.slot)
    ok max_basefee

  -- The accounts that the loop read or fetched stay in the cache, also on an error.
  unfoldable pub verify_el_tx :
      (ℕ → Option AccountState)
      → ExecutionState
      → PreconfRequest
      → ExecutionState × Result ValidationError (Unit {0})
  verify_el_tx fetch st request =
      let req = Request.recover_signers lib request in
      let (cache, result) =
        and_then (st.account_states, check_request st req)
          λ cache max_basefee.
            and_then (verify_txs lib fetch st req.slot cache [] req.txs)
              λ cache' diffs. (cache', ok tt) in
      (record st { account_states = cache }, result)
