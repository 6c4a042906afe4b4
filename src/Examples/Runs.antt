-- ===== src/Examples/Runs.antt =====
-- A run of the event loop: a head, a request for the second slot after it, the deadline, and a header
-- that the relay does not give.
use proposer_commitment_netw.Base.{
  ℕ, ◌≡◌, ◌⊎◌, refl, true, Option, none, some, List, [], ◌∷◌, ok, All, unwrap_or, bytes_eq,
  if◌then◌else◌, ◌==◌,
}
use proposer_commitment_netw.Base.Assoc.{lookup, insert, modify, remove}
use proposer_commitment_netw.Request
use proposer_commitment_netw.Tx
use proposer_commitment_netw.Tx.Fees
use proposer_commitment_netw.Pricing
use proposer_commitment_netw.ScoreCache
use proposer_commitment_netw.Constraints
use proposer_commitment_netw.Gateway
use proposer_commitment_netw.Execution
use proposer_commitment_netw.State
use proposer_commitment_netw.State.Checks.{check}
use proposer_commitment_netw.Base.Text.{contains, starts_with}
use proposer_commitment_netw.State.{
  get_transactions, parse_to_blobs_bundle, constraints_of, bundle_of,
}
use proposer_commitment_netw.Builder.Draft.{
  apply_hint, build_header_with_hints_and_context, default_hints,
}
use proposer_commitment_netw.Builder.Payload.{
  ExecutionPayloadHeader, create_execution_payload_header, create_consensus_execution_payload,
  convert_withdrawal_from_consensus_to_alloy, convert_withdrawal_from_reth_to_consensus,
}
use proposer_commitment_netw.Builder.Engine.{
  fetch_next_payload_hint, get_el_node_type, hint_of, geth_hint,
}
use proposer_commitment_netw.Builder.Sealing.{
  seal, proposed, seal_loop, draft_of, get_latest_block, block_loop, ask_engine, build_sealed_block,
}
use proposer_commitment_netw.Builder.Fallback.{
  GetPayloadResponse, SignedBuilderBid, get_cached_payload, execution_payload, bid_and_payload,
  create_signed_builder_bid, from, build_fallback_payload,
}
use proposer_commitment_netw.Proxy.{
  SignedBlindedBeaconBlock, get_header, get_payload, fetch_payload,
  check_locally_built_payload_integrity,
}
use proposer_commitment_netw.Proxy.Integrity.{Matches}
use proposer_commitment_netw.Examples.Proxies.{local_blinded, local_response, relay_fails}
use proposer_commitment_netw.Execution.{ExecutionState}
use proposer_commitment_netw.State.{ProposerDuty}
use proposer_commitment_netw.State.Head.{
  failed, header, update_head, get_beacon_header_with_retry, header_loop, apply_header,
  fetch_proposer_duties, duties_loop,
}
use proposer_commitment_netw.Gateway.{Signer, handle_head_event}
use proposer_commitment_netw.Gateway.EventLoop.{
  start, Task, preconfirmation_request, commitment_deadline, head_event, System, World, run_task,
  spawn, poll_deadline, ask_header, receive_request, reach_deadline, receive_head, request_header,
  run, Reach, here, next,
}
use proposer_commitment_netw.Gateway.EventLoop.Sent.{IsProper, Reach-IsProper}
use proposer_commitment_netw.Gateway.EventLoop.Kept.{IsKept, Reach-IsKept}
use proposer_commitment_netw.Gateway.EventLoop.Offered.{PayloadIsBuilt, Reach-PayloadIsBuilt}
use proposer_commitment_netw.Examples.{lib, float, two_transfers}
use proposer_commitment_netw.Examples.Builders.{builder_lib, node, fallback}
use proposer_commitment_netw.Examples.States.{ready_33, delegations, sign}

abbrev world : World
world = record {
  fetch = λ _. none;
  delegations = delegations;
  now = 9_000;
  started = 8_500;
  beacon_headers = λ n. if n == 1 then header 38 else failed;
  duties = λ n. some (record { public_key = 55; slot = 40 } ∷ []);
  receipts = λ _. true;
  update = none;
  node = node;
}

abbrev held : List ℕ
held = 77 ∷ []

abbrev perform : Task → System → System
perform t s = run_task lib float builder_lib sign held world t (record s { tasks = [] })

abbrev started : System
started = start ready_33.execution fallback 8_000 1 0

abbrev after_head : System
after_head = perform (head_event 38) (spawn (head_event 38) started)

abbrev after_request : System
after_request =
    perform (preconfirmation_request two_transfers)
      (spawn (preconfirmation_request two_transfers) after_head)

abbrev after_deadline : System
after_deadline = perform (commitment_deadline 40) (poll_deadline 16_500 after_request)

tasks_at_deadline : (poll_deadline 16_500 after_request).tasks ≡ commitment_deadline 40 ∷ []
unfolding poll_deadline spawn State.wait State.poll run_task start State.new update_head
    get_beacon_header_with_retry header_loop apply_header fetch_proposer_duties duties_loop
    State.deadline handle_head_event Execution.Head.update_head remove check
    State.find_validator_pubkey_for_slot State.find_duty Request.gas_limit Request.sum_gas
    Request.validate_tx_size_limit Request.within_size Request.validate_init_code_limit
    Request.within_init_code Request.validate_max_priority_fee Request.tips_below_fee Tx.gas_limit
    Tx.size Tx.tx_kind Tx.input lookup insert modify State.add_constraint State.add_constraints
    State.Checks.validate_preconf_request Execution.Verify.verify_el_tx
    Execution.Verify.check_request Request.validate_chain_id Request.on_chain Tx.chain_id
    Execution.params Request.validate_basefee Request.fees_from Request.validate_min_priority_fee
    Request.tips_cover Request.recover_signers Request.with_signer
    Pricing.calculate_min_priority_fee Pricing.validate_fee_inputs Pricing.inclusion_tip_wei
    Tx.effective_tip_per_gas Fees.calculate_max_basefee Fees.max_basefee_loop Execution.verify_txs
    Execution.verify_tx Execution.find_diffs Execution.compute_diffs Execution.diffs_from
    Execution.account_of Execution.get_account Execution.verify_account Execution.check_blob
    ScoreCache.get Fees.validate_transaction Fees.max_transaction_cost Fees.fee_cap
    Fees.add_blob_fee Tx.value Gateway.sign_all Gateway.sign_txs Constraints.from_tx
    Gateway.handle_preconfirmation_request Execution.Head.receipts_found
    Execution.Head.remove_block_templates_until Execution.Head.remove_slots
tasks_at_deadline = refl

run_to_deadline :
    Reach lib float builder_lib sign held
      (start ready_33.execution fallback 8_000 1 0)
      after_deadline
unfolding spawn run_task start
run_to_deadline =
    next
      (next
        (next
          (next (next (next here (receive_head 38)) (run world [] (head_event 38) [] refl))
            (receive_request two_transfers))
          (run world [] (preconfirmation_request two_transfers) [] refl))
        (reach_deadline 16_500))
      (run world [] (commitment_deadline 40) [] tasks_at_deadline)

Reach-IsKept_example : All (IsKept after_deadline) after_deadline.promises
Reach-IsKept_example =
    Reach-IsKept sign held lib float builder_lib ready_33.execution fallback 8_000 1 0
      after_deadline run_to_deadline

Reach-IsProper_example : All (IsProper sign held after_deadline.heads) after_deadline.sent
Reach-IsProper_example =
    Reach-IsProper sign held lib float builder_lib ready_33.execution fallback 8_000 1 0
      after_deadline run_to_deadline

-- The relay gives no header in time.
abbrev offered : System
offered = ask_header 40 none true after_deadline

abbrev bid_header : Option SignedBuilderBid → ExecutionPayloadHeader
bid_header none = local_blinded.execution_payload_header
bid_header (some bid) = bid.message.header

abbrev blinded : SignedBlindedBeaconBlock
blinded = record { execution_payload_header = bid_header offered.server.fallback_bid; rest = 0 }

abbrev payload : GetPayloadResponse
payload = unwrap_or offered.server.fallback_payload local_response

payload_given : get_payload offered.server (some (some blinded)) relay_fails ≡ ok payload
unfolding poll_deadline spawn State.wait State.poll run_task start State.new update_head
    get_beacon_header_with_retry header_loop apply_header fetch_proposer_duties duties_loop
    State.deadline handle_head_event Execution.Head.update_head remove check
    State.find_validator_pubkey_for_slot State.find_duty Request.gas_limit Request.sum_gas
    Request.validate_tx_size_limit Request.within_size Request.validate_init_code_limit
    Request.within_init_code Request.validate_max_priority_fee Request.tips_below_fee Tx.gas_limit
    Tx.size Tx.tx_kind Tx.input lookup insert modify State.add_constraint State.add_constraints
    State.Checks.validate_preconf_request Execution.Verify.verify_el_tx
    Execution.Verify.check_request Request.validate_chain_id Request.on_chain Tx.chain_id
    Execution.params Request.validate_basefee Request.fees_from Request.validate_min_priority_fee
    Request.tips_cover Request.recover_signers Request.with_signer
    Pricing.calculate_min_priority_fee Pricing.validate_fee_inputs Pricing.inclusion_tip_wei
    Tx.effective_tip_per_gas Fees.calculate_max_basefee Fees.max_basefee_loop Execution.verify_txs
    Execution.verify_tx Execution.find_diffs Execution.compute_diffs Execution.diffs_from
    Execution.account_of Execution.get_account Execution.verify_account Execution.check_blob
    ScoreCache.get Fees.validate_transaction Fees.max_transaction_cost Fees.fee_cap
    Fees.add_blob_fee Tx.value Gateway.sign_all Gateway.sign_txs Constraints.from_tx
    Gateway.handle_preconfirmation_request Execution.Head.receipts_found
    Execution.Head.remove_block_templates_until Execution.Head.remove_slots build_fallback_payload
    get_transactions constraints_of parse_to_blobs_bundle bundle_of bid_and_payload
    create_execution_payload_header create_consensus_execution_payload create_signed_builder_bid
    from build_sealed_block get_latest_block block_loop seal_loop seal proposed ask_engine
    fetch_next_payload_hint get_el_node_type hint_of geth_hint contains starts_with apply_hint
    convert_withdrawal_from_consensus_to_alloy convert_withdrawal_from_reth_to_consensus draft_of
    ask_header get_header fetch_payload get_payload check_locally_built_payload_integrity
    execution_payload bytes_eq get_cached_payload Gateway.handle_commitment_deadline
    State.remove_constraints_at_slot build_header_with_hints_and_context default_hints
payload_given = refl

Reach-PayloadIsBuilt_example :
    (relay_fails blinded ≡ ok payload)
    ⊎ (Matches blinded.execution_payload_header (execution_payload payload)
        × PayloadIsBuilt builder_lib offered.sent payload)
Reach-PayloadIsBuilt_example =
    Reach-PayloadIsBuilt builder_lib lib float sign held ready_33.execution fallback 8_000 1 0
      offered blinded relay_fails payload (next run_to_deadline (request_header 40 none true))
      payload_given
