-- ===== src/State/Checks.antt =====
-- `validate_preconf_request` of `ConstraintState` (interstate-gateway/src/state/mod.rs), at the
-- time `now`.
use proposer_commitment_netw.Base.{
  ℕ, ◌+◌, Bool, true, Option, none, some, Result, ok, err, panic, ◌>>=◌, ◌>>◌, ensure, not, length,
  ltb, leb, ◌==◌, ◌&&◌,
}
use proposer_commitment_netw.Base.Assoc
use proposer_commitment_netw.Base.Words.{add_u64}
use proposer_commitment_netw.Errors.{ValidationError}
use proposer_commitment_netw.Tx.{TxLib}
use proposer_commitment_netw.Tx.Fees.{AccountState}
use proposer_commitment_netw.Pricing.{F64}
use proposer_commitment_netw.Request
use proposer_commitment_netw.Request.{PreconfRequest}
use proposer_commitment_netw.Execution.Verify.{verify_el_tx}
use proposer_commitment_netw.State.{
  StateError, invalid_slot, deadline_expired, invalid_chain_id, overflow_commitments_amount,
  overflow_gas_limit, overflow_input_bytes, overflow_code_bytes, overflow_priority_fee, slot_passed,
  execution_failed, Block, transactions_count, block_gas, ConstraintState,
  find_validator_pubkey_for_slot,
}
use proposer_commitment_netw.State.Head.{slots_per_epoch}

-- Room for more commitments in the block of the slot, if there is one.
abbrev pub has_room : Option Block → ℕ → ℕ → Bool
has_room none more limit = true
has_room (some b) more limit = ltb (transactions_count b + more) limit

abbrev pub gas_of : Option Block → Result StateError ℕ
gas_of none = ok 0
gas_of (some b) = block_gas b

module _ (lib : TxLib) where
  -- The checks before the execution state is asked; the result is the proposer's key.
  unfoldable pub check : ConstraintState → PreconfRequest → ℕ → Result StateError ℕ
  check st request now = do
    ensure (request.chain_id == st.chain_id) (invalid_chain_id st.chain_id request.chain_id)
    ensure
        (leb st.current_epoch.start_slot request.slot
          && ltb request.slot (add_u64 st.current_epoch.start_slot slots_per_epoch))
        (invalid_slot request.slot)
    ensure
        (not (
          request.slot == add_u64 st.latest_slot 1
          && ltb (st.latest_slot_timestamp + st.deadline_duration) now))
        deadline_expired
    public_key ← find_validator_pubkey_for_slot st request.slot
    ensure (ltb (length request.txs) st.max_commitments_in_block) overflow_commitments_amount
    ensure
        (has_room (Assoc.lookup request.slot st.blocks) (length request.txs)
          st.max_commitments_in_block)
        overflow_commitments_amount
    template_committed_gas ← gas_of (Assoc.lookup request.slot st.blocks)
    gas ← Request.gas_limit request
    ensure (leb (add_u64 template_committed_gas gas) st.max_commitment_gas) overflow_gas_limit
    size ← Request.validate_tx_size_limit lib request st.max_tx_input_bytes
    ensure size overflow_input_bytes
    init_code ← Request.validate_init_code_limit request st.max_init_code_byte_size
    ensure init_code overflow_code_bytes
    ensure (leb gas st.block_gas_limit) overflow_gas_limit
    ensure (Request.validate_max_priority_fee lib request) overflow_priority_fee
    ensure (ltb st.latest_slot request.slot) slot_passed
    ok public_key

  abbrev pub answer : ℕ → Result ValidationError (Unit {0}) → Result StateError ℕ
  answer public_key (ok _) = ok public_key
  answer public_key (err _) = err execution_failed
  answer public_key panic = panic

  module _ (f : F64) (fetch : ℕ → Option AccountState) where
    abbrev pub verify :
        ConstraintState
        → PreconfRequest
        → Result StateError ℕ
        → ConstraintState × Result StateError ℕ
    verify st request (ok public_key) =
        let (execution, result) = verify_el_tx lib f fetch st.execution request in
        (record st { execution = execution }, answer public_key result)
    verify st request (err e) = (st, err e)
    verify st request panic = (st, panic)

    unfoldable pub validate_preconf_request :
        ConstraintState → PreconfRequest → ℕ → ConstraintState × Result StateError ℕ
    validate_preconf_request st request now = verify st request (check st request now)
