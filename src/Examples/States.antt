-- ===== src/Examples/States.antt =====
-- Concrete runs of the constraint state and the gateway's handlers.
use proposer_commitment_netw.Base.{
  ◌<◌, ◌+◌, ◌*◌, length, ℕ, ◌≡◌, refl, false, Option, none, some, List, [], ◌∷◌, ◌++◌, ok,
  if◌then◌else◌, ◌==◌, arith,
}
use proposer_commitment_netw.Base.Assoc.{lookup, insert, modify}
use proposer_commitment_netw.Base.Int.{pos}
use proposer_commitment_netw.Constraints.{SignedConstraints}
use proposer_commitment_netw.Request
use proposer_commitment_netw.Request.{PreconfRequest}
use proposer_commitment_netw.Tx
use proposer_commitment_netw.Tx.Fees
use proposer_commitment_netw.Pricing
use proposer_commitment_netw.ScoreCache
use proposer_commitment_netw.Constraints
use proposer_commitment_netw.Gateway
use proposer_commitment_netw.Execution
use proposer_commitment_netw.Execution.{default_limits}
use proposer_commitment_netw.State
use proposer_commitment_netw.State.{
  StateError, failed_fetching_proposer_duties, ProposerDuty, ConstraintState, Poll, ready, pending,
  deadline, wait, block_at, add_constraint, add_constraints,
}
use proposer_commitment_netw.State.Head.{
  Attempt, failed, header, get_beacon_header_with_retry, header_loop, duties_loop, update_head,
}
use proposer_commitment_netw.State.Checks.{check, validate_preconf_request}
use proposer_commitment_netw.State.Epochs.{update_head-stale_duties}
use proposer_commitment_netw.Gateway.{
  DelegationMessage, Signer, Response, accepted, handle_preconfirmation_request, deadline_event,
}
use proposer_commitment_netw.Gateway.Amounts.{accepted-bounded, matching, accepted-length}
use proposer_commitment_netw.Gateway.Promises.{accepted-stored}
use proposer_commitment_netw.Examples.{lib, float, two_transfers, signed_by}

-- The second request is answered.
abbrev second_try : ℕ → ℕ → Attempt
second_try slot n = if n == 1 then header slot else failed

abbrev start : ConstraintState
start = State.new 8_000 (Execution.new float default_limits 30_000_000 1000 10 100 1) 1 0

abbrev duties : ℕ → Option (List ProposerDuty)
duties n = some (record { public_key = 55; slot = 40 } ∷ [])

update_head-stale_duties_example :
    let st' = (update_head (second_try 33) (λ _. none) 100 200 start 33).0 in
    let (st'', r) = update_head (second_try 34) duties 300 400 st' 34 in
    (r ≡ ok tt) × (st''.current_epoch.value ≡ 1) × (st''.current_epoch.proposer_duties ≡ [])
unfolding get_beacon_header_with_retry header_loop duties_loop State.new
update_head-stale_duties_example =
    update_head-stale_duties (second_try 33) (second_try 34) (λ _. none) duties 100 200 300 400
      start 33 34 33 34 refl (omega arith) refl refl refl

abbrev signed : SignedConstraints
signed = record {
  message = record { pubkey = 77; slot = 40; top = false; transactions = signed_by 9 3 ∷ [] };
  signature = 1;
}

abbrev head_33 : ConstraintState
head_33 = record start {
  current_epoch = record {
    value = 1;
    start_slot = 32;
    proposer_duties = record { public_key = 55; slot = 40 } ∷ [];
  };
  latest_slot = 33;
}

abbrev pub ready_33 : ConstraintState
ready_33 = record head_33 {
  execution = record {
    block_number = 100;
    slot = 33;
    basefee = 1000;
    blob_basefee = 10;
    account_states = record {
      map =
          (9, (record { transaction_count = 3; balance = 1_000_000_000; has_code = false }, pos 4))
          ∷ [];
      max_len = 16;
    };
    block_templates = [];
    chain_id = 1;
    limits = record default_limits { min_inclusion_profit = 0 };
    validation_params = Execution.params 30_000_000;
    pricing = record { block_gas_limit = 30_000_000; base_multiplier = 1; gas_scalar = 1 };
  };
}

abbrev promised : ℕ → SignedConstraints
promised nonce = record {
  message = record { pubkey = 77; slot = 40; top = false; transactions = signed_by 9 nonce ∷ [] };
  signature = 1;
}

abbrev pub delegations : Option (List DelegationMessage)
delegations = some (record { validator_pubkey = 55; delegatee_pubkey = 77 } ∷ [])

abbrev pub sign : Signer
sign message key = some 1

accepted-stored_example :
    (block_at
      (handle_preconfirmation_request lib float
        (λ _. none)
        sign
        (77 ∷ [])
        delegations
        ready_33
        two_transfers
        9_000).0.blocks
      40).signed_constraints_list
    ≡ (block_at ready_33.blocks 40).signed_constraints_list ++ (promised 3 ∷ promised 4 ∷ [])
unfolding check State.find_validator_pubkey_for_slot State.find_duty Request.gas_limit
    Request.sum_gas Request.validate_tx_size_limit Request.within_size
    Request.validate_init_code_limit Request.within_init_code Request.validate_max_priority_fee
    Request.tips_below_fee Tx.gas_limit Tx.size Tx.tx_kind Tx.input State.new Execution.new lookup
    insert modify State.add_constraint State.add_constraints State.Checks.validate_preconf_request
    Execution.Verify.verify_el_tx Execution.Verify.check_request Request.validate_chain_id
    Request.on_chain Tx.chain_id Execution.params Request.validate_basefee Request.fees_from
    Request.validate_min_priority_fee Request.tips_cover Request.recover_signers Request.with_signer
    Pricing.calculate_min_priority_fee Pricing.validate_fee_inputs Pricing.inclusion_tip_wei
    Tx.effective_tip_per_gas Fees.calculate_max_basefee Fees.max_basefee_loop Execution.verify_txs
    Execution.verify_tx Execution.find_diffs Execution.compute_diffs Execution.diffs_from
    Execution.account_of Execution.get_account Execution.verify_account Execution.check_blob
    ScoreCache.get Fees.validate_transaction Fees.max_transaction_cost Fees.fee_cap
    Fees.add_blob_fee Tx.value Gateway.sign_all Gateway.sign_txs Constraints.from_tx
    handle_preconfirmation_request
accepted-stored_example =
    accepted-stored lib float (λ _. none) sign (77 ∷ []) delegations ready_33 two_transfers 9_000
      (promised 3 ∷ promised 4 ∷ []) refl

abbrev two_delegations : List DelegationMessage
two_delegations =
    record { validator_pubkey = 55; delegatee_pubkey = 77 }
    ∷ record { validator_pubkey = 55; delegatee_pubkey = 78 }
    ∷ []

abbrev promised_for : ℕ → ℕ → SignedConstraints
promised_for key nonce = record {
  message = record { pubkey = key; slot = 40; top = false; transactions = signed_by 9 nonce ∷ [] };
  signature = 1;
}

abbrev four_promised : List SignedConstraints
four_promised = promised_for 77 3 ∷ promised_for 77 4 ∷ promised_for 78 3 ∷ promised_for 78 4 ∷ []

promised_twice :
    (handle_preconfirmation_request lib float
      (λ _. none)
      sign
      (77 ∷ 78 ∷ [])
      (some two_delegations)
      ready_33
      two_transfers
      9_000).1
    ≡ some (accepted four_promised)
unfolding check State.find_validator_pubkey_for_slot State.find_duty Request.gas_limit
    Request.sum_gas Request.validate_tx_size_limit Request.within_size
    Request.validate_init_code_limit Request.within_init_code Request.validate_max_priority_fee
    Request.tips_below_fee Tx.gas_limit Tx.size Tx.tx_kind Tx.input State.new Execution.new lookup
    insert modify State.add_constraint State.add_constraints State.Checks.validate_preconf_request
    Execution.Verify.verify_el_tx Execution.Verify.check_request Request.validate_chain_id
    Request.on_chain Tx.chain_id Execution.params Request.validate_basefee Request.fees_from
    Request.validate_min_priority_fee Request.tips_cover Request.recover_signers Request.with_signer
    Pricing.calculate_min_priority_fee Pricing.validate_fee_inputs Pricing.inclusion_tip_wei
    Tx.effective_tip_per_gas Fees.calculate_max_basefee Fees.max_basefee_loop Execution.verify_txs
    Execution.verify_tx Execution.find_diffs Execution.compute_diffs Execution.diffs_from
    Execution.account_of Execution.get_account Execution.verify_account Execution.check_blob
    ScoreCache.get Fees.validate_transaction Fees.max_transaction_cost Fees.fee_cap
    Fees.add_blob_fee Tx.value Gateway.sign_all Gateway.sign_txs Constraints.from_tx
    handle_preconfirmation_request
promised_twice = refl

-- Two delegations, so two constraints for each of the two transactions.
accepted-length_example :
    (pubkey : ℕ) × ((validate_preconf_request lib float (λ _. none) ready_33 two_transfers 9_000).1
      ≡ ok pubkey)
    × (length
          (block_at
            (handle_preconfirmation_request lib float
              (λ _. none)
              sign
              (77 ∷ 78 ∷ [])
              (some two_delegations)
              ready_33
              two_transfers
              9_000).0.blocks
            40).signed_constraints_list
        ≡ length (block_at ready_33.blocks 40).signed_constraints_list
          + matching sign 40 pubkey (77 ∷ 78 ∷ []) two_delegations * 2)
accepted-length_example =
    accepted-length lib float (λ _. none) sign (77 ∷ 78 ∷ []) two_delegations ready_33 two_transfers
      9_000 four_promised promised_twice

accepted-bounded_example :
    (pubkey : ℕ) × ((validate_preconf_request lib float (λ _. none) ready_33 two_transfers 9_000).1
      ≡ ok pubkey)
    × (length
            (block_at
              (handle_preconfirmation_request lib float
                (λ _. none)
                sign
                (77 ∷ 78 ∷ [])
                (some two_delegations)
                ready_33
                two_transfers
                9_000).0.blocks
              40).signed_constraints_list
          + 2
        < ready_33.max_commitments_in_block
          + matching sign 40 pubkey (77 ∷ 78 ∷ []) two_delegations * 2)
accepted-bounded_example =
    accepted-bounded lib float (λ _. none) sign (77 ∷ 78 ∷ []) two_delegations ready_33
      two_transfers 9_000 four_promised promised_twice
