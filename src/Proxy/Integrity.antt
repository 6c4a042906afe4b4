-- ===== src/Proxy/Integrity.antt =====
-- The check of a signed header against the local payload
-- (`check_locally_built_payload_integrity` of interstate-gateway/src/constraints/constraints_proxy_server.rs), and the pairs
-- that the fallback builder makes.
use proposer_commitment_netw.Base.{
  ℕ, all_of, ◌≡◌, refl, ◌↔◌, true, false, Bool, List, ok, >>=-eq-ok, unwrap_or, expect, ok_or,
  ensure, map, bytes_eq_refl, eq_of_bytes_eq, ==_refl, ==→eq, arith, Result, ◌>>◌, ok-injective,
  sym,
}
use proposer_commitment_netw.Tx.{BlobTransactionSidecar}
use proposer_commitment_netw.Builder.{Text, merkleization, BuilderLib, BuilderError, SealedBlock}
use proposer_commitment_netw.Builder.Payload.{
  unwrapped, consensus_withdrawals, ExecutionPayload, ExecutionPayloadHeader,
  create_execution_payload_header, create_consensus_execution_payload,
}
use proposer_commitment_netw.Builder.Fallback.{
  FallbackBuilder, GetPayloadResponse, PayloadAndBid, execution_payload, from,
  create_signed_builder_bid, bid_and_payload, bid_value,
}
use proposer_commitment_netw.Proxy.{check_locally_built_payload_integrity}

-- The header has the values of the payload.
pub record Matches (h : ExecutionPayloadHeader) (p : ExecutionPayload) : Type 0 where
  pub block_hash : h.block_hash ≡ p.block_hash
  pub block_number : h.block_number ≡ p.block_number
  pub state_root : h.state_root ≡ p.state_root
  pub receipts_root : h.receipts_root ≡ p.receipts_root
  pub prev_randao : h.prev_randao ≡ p.prev_randao
  pub gas_limit : h.gas_limit ≡ p.gas_limit
  pub gas_used : h.gas_used ≡ p.gas_used
  pub timestamp : h.timestamp ≡ p.timestamp
  pub extra_data : h.extra_data ≡ p.extra_data
  pub base_fee_per_gas : h.base_fee_per_gas ≡ p.base_fee_per_gas
  pub parent_hash : h.parent_hash ≡ p.parent_hash
  pub fee_recipient : h.fee_recipient ≡ p.fee_recipient
  pub logs_bloom : h.logs_bloom ≡ p.logs_bloom
  pub blob_gas_used : h.blob_gas_used ≡ unwrap_or p.blob_gas_used 0
  pub excess_blob_gas : h.excess_blob_gas ≡ unwrap_or p.excess_blob_gas 0

passed {ℓ} :
    {E : Type ℓ} (b : Bool) (e : E) (rest : Result E (Unit {0}))
    → (ensure b e >> rest) ≡ ok tt
    → (b ≡ true) × (rest ≡ ok tt)
passed true e rest h = (refl, h)
passed false e rest h = cc

check_sound :
    (h : ExecutionPayloadHeader) (r : GetPayloadResponse)
    → check_locally_built_payload_integrity h r ≡ ok tt
    → Matches h (execution_payload r)
unfolding check_locally_built_payload_integrity
check_sound h r e0 =
    let p = execution_payload r in
    let (a1, e1) = passed _ _ _ e0 in
    let (a2, e2) = passed _ _ _ e1 in
    let (a3, e3) = passed _ _ _ e2 in
    let (a4, e4) = passed _ _ _ e3 in
    let (a5, e5) = passed _ _ _ e4 in
    let (a6, e6) = passed _ _ _ e5 in
    let (a7, e7) = passed _ _ _ e6 in
    let (a8, e8) = passed _ _ _ e7 in
    let (a9, e9) = passed _ _ _ e8 in
    let (b1, f1) = passed _ _ _ e9 in
    let (b2, f2) = passed _ _ _ f1 in
    let (b3, f3) = passed _ _ _ f2 in
    let (b4, f4) = passed _ _ _ f3 in
    let (b5, f5) = passed _ _ _ f4 in
    record {
      block_hash = ==→eq _ _ a1;
      block_number = ==→eq _ _ a2;
      state_root = ==→eq _ _ a3;
      receipts_root = ==→eq _ _ a4;
      prev_randao = ==→eq _ _ a5;
      gas_limit = ==→eq _ _ a6;
      gas_used = ==→eq _ _ a7;
      timestamp = ==→eq _ _ a8;
      extra_data = eq_of_bytes_eq _ _ a9;
      base_fee_per_gas = ==→eq _ _ b1;
      parent_hash = ==→eq _ _ b2;
      fee_recipient = ==→eq _ _ b3;
      logs_bloom = ==→eq _ _ b4;
      blob_gas_used = ==→eq _ _ b5;
      excess_blob_gas = ground arith;
    }

check_complete :
    (h : ExecutionPayloadHeader) (r : GetPayloadResponse)
    → Matches h (execution_payload r)
    → check_locally_built_payload_integrity h r ≡ ok tt
unfolding check_locally_built_payload_integrity
check_complete h r m =
    rw
      (
        m.block_hash, m.block_number, m.state_root, m.receipts_root, m.prev_randao, m.gas_limit,
        m.gas_used, m.timestamp, m.extra_data, m.base_fee_per_gas, m.parent_hash, m.fee_recipient,
        m.logs_bloom, m.blob_gas_used, m.excess_blob_gas,
      )
      (simp (==_refl, bytes_eq_refl))

-- The check passes exactly when the signed header has the fifteen values of the local payload.
pub check_locally_built_payload_integrity_iff :
    (h : ExecutionPayloadHeader) (r : GetPayloadResponse)
    → (check_locally_built_payload_integrity h r ≡ ok tt) ↔ Matches h (execution_payload r)
check_locally_built_payload_integrity_iff h r = (check_sound h r, check_complete h r)

transport-Matches :
    (h₀ h : ExecutionPayloadHeader) (p₀ p : ExecutionPayload)
    → h₀ ≡ h
    → p₀ ≡ p
    → Matches h₀ p₀
    → Matches h p
transport-Matches h₀ h p₀ p e f m = rw (← e, ← f) m

abbrev encoded : BuilderLib → List ℕ → List Text
encoded lib txs = map (λ t. lib.encoded_2718 t) txs

converted-Matches :
    (lib : BuilderLib) (block : SealedBlock) (txs : List ℕ) (h : ExecutionPayloadHeader)
    (p : ExecutionPayload)
    → lib.body_blob_gas_used block.body.transactions ≡ unwrap_or block.header.blob_gas_used 0
    → create_execution_payload_header lib block txs ≡ ok h
    → create_consensus_execution_payload lib block ≡ ok p
    → Matches h p
unfolding create_execution_payload_header create_consensus_execution_payload
converted-Matches lib block txs h p gas eh ep =
    let (_, _, h1) =
      >>=-eq-ok (unwrapped lib (all_of lib.transaction_fits (encoded lib txs))) _ eh in
    let (_, _, h2) = >>=-eq-ok (expect (lib.transactions_ssz_root (encoded lib txs))) _ h1 in
    let (_, _, h3) =
      >>=-eq-ok (expect (lib.withdrawals_ssz_root (consensus_withdrawals lib block))) _ h2 in
    let (_, _, h4) = >>=-eq-ok (unwrapped lib (lib.extra_data_fits block.header.extra_data)) _ h3 in
    let (_, _, p1) =
      >>=-eq-ok (unwrapped lib (all_of lib.transaction_fits (encoded lib block.body.transactions)))
        _ ep in
    let (_, _, p2) = >>=-eq-ok (unwrapped lib (lib.extra_data_fits block.header.extra_data)) _ p1 in
    let (_, _, p3) =
      >>=-eq-ok (unwrapped lib (lib.transactions_fit (encoded lib block.body.transactions))) _ p2 in
    let (_, _, p4) =
      >>=-eq-ok (unwrapped lib (lib.withdrawals_fit (consensus_withdrawals lib block))) _ p3 in
    transport-Matches _ h _ p (ok-injective {E = BuilderError} h4)
      (ok-injective {E = BuilderError} p4)
      (record {
        block_hash = refl;
        block_number = refl;
        state_root = refl;
        receipts_root = refl;
        prev_randao = refl;
        gas_limit = refl;
        gas_used = refl;
        timestamp = refl;
        extra_data = refl;
        base_fee_per_gas = refl;
        parent_hash = refl;
        fee_recipient = refl;
        logs_bloom = refl;
        blob_gas_used = sym gas;
        excess_blob_gas = refl;
      })

deneb_response :
    (lib : BuilderLib) (block : SealedBlock) (p : ExecutionPayload)
    (bundle : BlobTransactionSidecar)
    → create_consensus_execution_payload lib block ≡ ok p
    → execution_payload (from (record { execution_payload = p; blobs_bundle = bundle })) ≡ p
unfolding create_consensus_execution_payload from execution_payload
deneb_response lib block p bundle ep =
    let (_, _, p1) =
      >>=-eq-ok (unwrapped lib (all_of lib.transaction_fits (encoded lib block.body.transactions)))
        _ ep in
    let (_, _, p2) = >>=-eq-ok (unwrapped lib (lib.extra_data_fits block.header.extra_data)) _ p1 in
    let (_, _, p3) =
      >>=-eq-ok (unwrapped lib (lib.transactions_fit (encoded lib block.body.transactions))) _ p2 in
    let (_, _, p4) =
      >>=-eq-ok (unwrapped lib (lib.withdrawals_fit (consensus_withdrawals lib block))) _ p3 in
    rw (← ok-injective {E = BuilderError} p4) refl

-- The header in the bid matches the payload that goes with it.
pub bid_and_payload-Matches :
    (lib : BuilderLib) (b : FallbackBuilder) (txs : List ℕ) (bundle : BlobTransactionSidecar)
    (block : SealedBlock) (p : PayloadAndBid)
    → lib.body_blob_gas_used block.body.transactions ≡ unwrap_or block.header.blob_gas_used 0
    → bid_and_payload lib b txs bundle block ≡ ok p
    → Matches p.bid.message.header (execution_payload p.payload)
unfolding bid_and_payload create_signed_builder_bid
bid_and_payload-Matches lib b txs bundle block p gas e =
    let (payload, ep, e1) = >>=-eq-ok (create_consensus_execution_payload lib block) _ e in
    let (header, eh, e2) = >>=-eq-ok (create_execution_payload_header lib block txs) _ e1 in
    let (bid, es, e3) =
      >>=-eq-ok (create_signed_builder_bid lib b bid_value header bundle.commitments) _ e2 in
    let (_, _, fits) = >>=-eq-ok (unwrapped lib (lib.commitments_fit bundle.commitments)) _ es in
    let (signature, _, e4) = >>=-eq-ok (ok_or (b.sign_builder_message _) merkleization) _ fits in
    let same_bid = ok-injective {E = BuilderError} e4 in
    let same = ok-injective {E = BuilderError} e3 in
    rw (← same, ← same_bid, deneb_response lib block payload bundle ep)
      (converted-Matches lib block txs header payload gas eh ep)
