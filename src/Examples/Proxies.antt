-- ===== src/Examples/Proxies.antt =====
-- Concrete runs of the proxy, with a block that the fallback builder has built.
use proposer_commitment_netw.Base.{
  ℕ, ◌≡◌, refl, true, none, some, List, [], ◌∷◌, Result, ok, err, bytes_eq,
}
use proposer_commitment_netw.Base.Text.{contains, starts_with}
use proposer_commitment_netw.State.{
  get_transactions, parse_to_blobs_bundle, constraints_of, bundle_of,
}
use proposer_commitment_netw.Constraints.{from_tx}
use proposer_commitment_netw.Builder.Draft.{default_extra_data, apply_hint}
use proposer_commitment_netw.Builder.Payload.{
  Fork, ExecutionPayload, create_execution_payload_header, create_consensus_execution_payload,
  convert_withdrawal_from_consensus_to_alloy, convert_withdrawal_from_reth_to_consensus,
}
use proposer_commitment_netw.Builder.Engine.{
  fetch_next_payload_hint, get_el_node_type, hint_of, geth_hint,
}
use proposer_commitment_netw.Builder.Sealing.{
  seal, proposed, seal_loop, draft_of, blob_gas_of, get_latest_block, block_loop, ask_engine,
  build_sealed_block,
}
use proposer_commitment_netw.Builder.Fallback.{
  GetPayloadResponse, PayloadAndBid, execution_payload, bid_and_payload, create_signed_builder_bid,
  from, build_fallback_payload,
}
use proposer_commitment_netw.Proxy.{
  ConstraintsApiProxyServer, SignedBlindedBeaconBlock, VersionedValue, CommitBoostError, new,
  get_header, get_payload, fetch_payload, check_locally_built_payload_integrity,
  failed_getting_payload,
}
use proposer_commitment_netw.Proxy.Requests.{built, local_round_trip}
use proposer_commitment_netw.Examples.Builders.{builder_lib, node, fallback, one_block}

abbrev pub relay_fails : SignedBlindedBeaconBlock → Result CommitBoostError GetPayloadResponse
relay_fails block = err failed_getting_payload

fallback_built : (build_fallback_payload builder_lib node fallback one_block 40).1 ≡ ok tt
unfolding build_fallback_payload get_transactions constraints_of parse_to_blobs_bundle bundle_of
    bid_and_payload create_execution_payload_header create_consensus_execution_payload
    create_signed_builder_bid from build_sealed_block get_latest_block block_loop seal_loop seal
    proposed ask_engine fetch_next_payload_hint get_el_node_type hint_of geth_hint contains
    starts_with apply_hint convert_withdrawal_from_consensus_to_alloy
    convert_withdrawal_from_reth_to_consensus draft_of from_tx
fallback_built = refl

blob_gas_counted : (txs : List ℕ) → builder_lib.body_blob_gas_used txs ≡ blob_gas_of builder_lib txs
unfolding blob_gas_of
blob_gas_counted txs = refl

local_round_trip_example :
    (p : PayloadAndBid) × (v : VersionedValue) × ((fetch_payload
        (built builder_lib node fallback one_block 40)
        true
        true).1
      ≡ some p)
    × ((get_header new 40 none (some p)).1 ≡ ok v)
    × (get_payload
          (get_header new 40 none (some p)).0
          (some (some (record { execution_payload_header = v.bid.message.header; rest = 0 })))
          relay_fails
        ≡ ok p.payload)
local_round_trip_example =
    local_round_trip builder_lib node fallback one_block 40 new 0 relay_fails blob_gas_counted
      fallback_built

abbrev local_payload : ExecutionPayload
local_payload = record {
  version = Fork.deneb;
  parent_hash = 70;
  fee_recipient = 11;
  state_root = 4;
  receipts_root = 3;
  logs_bloom = 2;
  prev_randao = 6;
  block_number = 9;
  gas_limit = 30_000_000;
  gas_used = 21_000;
  timestamp = 1_480;
  extra_data = default_extra_data;
  base_fee_per_gas = 7;
  block_hash = 22_000;
  transactions = (5 ∷ []) ∷ [];
  withdrawals = [];
  blob_gas_used = some 0;
  excess_blob_gas = some 0;
}

abbrev pub local_response : GetPayloadResponse
local_response = GetPayloadResponse.deneb (record {
  execution_payload = local_payload;
  blobs_bundle = record { blobs = []; commitments = []; proofs = [] };
})

abbrev pub local_blinded : SignedBlindedBeaconBlock
local_blinded = record {
  execution_payload_header = record {
    parent_hash = 70;
    fee_recipient = 11;
    state_root = 4;
    receipts_root = 3;
    logs_bloom = 2;
    prev_randao = 6;
    block_number = 9;
    gas_limit = 30_000_000;
    gas_used = 21_000;
    timestamp = 1_480;
    extra_data = default_extra_data;
    base_fee_per_gas = 7;
    block_hash = 22_000;
    blob_gas_used = 0;
    excess_blob_gas = 0;
    transactions_root = 1;
    withdrawals_root = 0;
  };
  rest = 0;
}

abbrev caching : ConstraintsApiProxyServer
caching = record {
  fallback_payload = some local_response;
  fallback_bid = some (record {
    message = record {
      header = local_blinded.execution_payload_header;
      blob_kzg_commitments = [];
      value = 1_000_000_000_000_000_000;
      public_key = 44;
    };
    signature = 45;
  });
}

local_answer : get_payload caching (some (some local_blinded)) relay_fails ≡ ok local_response
unfolding get_payload check_locally_built_payload_integrity execution_payload bytes_eq
local_answer = refl
