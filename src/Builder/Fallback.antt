-- ===== src/Builder/Fallback.antt =====
-- `FallbackBuilder` (interstate-gateway/src/constraints/builder.rs): the block built for a slot, with a
-- bid signed by the local builder, is kept until it is asked for.
use proposer_commitment_netw.Base.{
  ℕ, Option, none, some, List, map, Result, ok, err, panic, ◌>>=◌, ◌>>◌, ok_or,
}
use proposer_commitment_netw.Tx.{BlobTransactionSidecar}
use proposer_commitment_netw.State.{Block, get_transactions, parse_to_blobs_bundle}
use proposer_commitment_netw.Builder.{SealedBlock, BuilderError, BuilderLib, merkleization}
use proposer_commitment_netw.Builder.Payload.{
  Fork, ExecutionPayload, ExecutionPayloadHeader, create_execution_payload_header,
  create_consensus_execution_payload, unwrapped,
}
use proposer_commitment_netw.Builder.Sealing.{BlockBuilder, Node, build_sealed_block}

pub record PayloadAndBlobs : Type 0 where
  pub execution_payload : ExecutionPayload
  pub blobs_bundle : BlobTransactionSidecar

pub data GetPayloadResponse : Type 0 where
  bellatrix capella : ExecutionPayload → GetPayloadResponse
  deneb electra : PayloadAndBlobs → GetPayloadResponse

pub record BuilderBid : Type 0 where
  pub header : ExecutionPayloadHeader
  pub blob_kzg_commitments : List ℕ
  pub value : ℕ
  pub public_key : ℕ

pub record SignedBuilderBid : Type 0 where
  pub message : BuilderBid
  pub signature : ℕ

pub record PayloadAndBid : Type 0 where
  pub bid : SignedBuilderBid
  pub payload : GetPayloadResponse

-- The builder's key and what signs with it; `none` is a failure to compute the root of the bid.
pub record FallbackBuilder : Type 0 where
  pub public_key : ℕ
  pub sign_builder_message : BuilderBid → Option ℕ
  pub block_builder : BlockBuilder
  pub payload_and_bid : Option PayloadAndBid

unfoldable pub execution_payload : GetPayloadResponse → ExecutionPayload
execution_payload (GetPayloadResponse.capella payload) = payload
execution_payload (GetPayloadResponse.bellatrix payload) = payload
execution_payload (GetPayloadResponse.deneb payload) = payload.execution_payload
execution_payload (GetPayloadResponse.electra payload) = payload.execution_payload

unfoldable pub block_hash : GetPayloadResponse → ℕ
block_hash (GetPayloadResponse.capella payload) = payload.block_hash
block_hash (GetPayloadResponse.bellatrix payload) = payload.block_hash
block_hash (GetPayloadResponse.deneb payload) = payload.execution_payload.block_hash
block_hash (GetPayloadResponse.electra payload) = payload.execution_payload.block_hash

abbrev pub response_of : Fork → PayloadAndBlobs → GetPayloadResponse
response_of Fork.phase0 p = GetPayloadResponse.capella p.execution_payload
response_of Fork.altair p = GetPayloadResponse.capella p.execution_payload
response_of Fork.capella p = GetPayloadResponse.capella p.execution_payload
response_of Fork.bellatrix p = GetPayloadResponse.bellatrix p.execution_payload
response_of Fork.deneb p = GetPayloadResponse.deneb p
response_of Fork.electra p = GetPayloadResponse.electra p

-- `GetPayloadResponse::from`
unfoldable pub from : PayloadAndBlobs → GetPayloadResponse
from payload_and_blobs = response_of payload_and_blobs.execution_payload.version payload_and_blobs

abbrev pub bid_value : ℕ
bid_value = 1_000_000_000_000_000_000

unfoldable pub create_signed_builder_bid :
    BuilderLib
    → FallbackBuilder
    → ℕ
    → ExecutionPayloadHeader
    → List ℕ
    → Result BuilderError SignedBuilderBid
create_signed_builder_bid lib b value header blob_kzg_commitments =
    let message : BuilderBid = record {
      header = header;
      blob_kzg_commitments = blob_kzg_commitments;
      value = value;
      public_key = b.public_key;
    } in
    do
      unwrapped lib (lib.commitments_fit blob_kzg_commitments)
      signature ← ok_or (b.sign_builder_message message) merkleization
      ok (record { message = message; signature = signature })

-- The bid and the payload made of a sealed block.
unfoldable pub bid_and_payload :
    BuilderLib
    → FallbackBuilder
    → List ℕ
    → BlobTransactionSidecar
    → SealedBlock
    → Result BuilderError PayloadAndBid
unfolding create_signed_builder_bid from
bid_and_payload lib b transactions blobs_bundle sealed_block = do
  eth_payload ← create_consensus_execution_payload lib sealed_block
  eth_header ← create_execution_payload_header lib sealed_block transactions
  signed_bid ← create_signed_builder_bid lib b bid_value eth_header blobs_bundle.commitments
  ok (record {
    bid = signed_bid;
    payload = from (record { execution_payload = eth_payload; blobs_bundle = blobs_bundle });
  })

abbrev pub cached :
    FallbackBuilder
    → Result BuilderError PayloadAndBid
    → FallbackBuilder × Result BuilderError (Unit {0})
cached b (ok p) = (record b { payload_and_bid = some p }, ok tt)
cached b (err e) = (b, err e)
cached b panic = (b, panic)

unfoldable pub build_fallback_payload :
    BuilderLib
    → Node
    → FallbackBuilder
    → Block
    → ℕ
    → FallbackBuilder × Result BuilderError (Unit {0})
unfolding bid_and_payload
build_fallback_payload lib node b block slot =
    let transactions = map (λ tx. lib.into_transaction tx) (get_transactions block) in
    cached b do
      sealed_block ← build_sealed_block lib b.block_builder node transactions slot
      bid_and_payload lib b transactions (parse_to_blobs_bundle block) sealed_block

unfoldable pub get_cached_payload : FallbackBuilder → FallbackBuilder × Option PayloadAndBid
get_cached_payload b = (record b { payload_and_bid = none }, b.payload_and_bid)
