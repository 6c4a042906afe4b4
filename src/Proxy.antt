-- ===== src/Proxy.antt =====
-- `ConstraintsAPIProxyServer` (interstate-gateway/src/constraints/constraints_proxy_server.rs), between
-- the beacon node and the relay. What the relay answers is an argument: `none` for its header
-- is no answer in time. The two caches are read and written under their locks, one request at a time.
pub mod Integrity
pub mod Requests
use proposer_commitment_netw.Base.{
  ℕ, Bool, true, false, ◌&&◌, Option, none, some, List, [], ◌∷◌, Result, ok, err, panic, ◌>>=◌,
  ◌>>◌, ensure, unwrap_or, ◌==◌, bytes_eq, map_err, ok_or, if◌then◌else◌,
}
use proposer_commitment_netw.Builder.{Text}
use proposer_commitment_netw.Builder.Payload.{Fork, deneb, ExecutionPayload, ExecutionPayloadHeader}
use proposer_commitment_netw.Builder.Fallback.{
  GetPayloadResponse, SignedBuilderBid, PayloadAndBid, FallbackBuilder, execution_payload,
  get_cached_payload,
}

-- The field of a `FieldMismatch`; the two values in its message are left out.
pub data LocalPayloadIntegrityError : Type 0 where
  block_hash block_number state_root receipts_root prev_randao gas_limit gas_used timestamp
        extra_data base_fee_per_gas parent_hash fee_recipient logs_bloom blob_gas_used
        excess_blob_gas :
      LocalPayloadIntegrityError

pub data CommitBoostError : Type 0 where
  request_failed unreadable_body unreadable_block failed_getting_header failed_getting_payload
        failed_registering_validators :
      CommitBoostError
  failed_to_fetch_local_payload : ℕ → CommitBoostError
  integrity : LocalPayloadIntegrityError → CommitBoostError

unfoldable pub check_locally_built_payload_integrity :
    ExecutionPayloadHeader → GetPayloadResponse → Result LocalPayloadIntegrityError (Unit {0})
check_locally_built_payload_integrity header local =
    let p = execution_payload local in
    do
      ensure (header.block_hash == p.block_hash) block_hash
      ensure (header.block_number == p.block_number) block_number
      ensure (header.state_root == p.state_root) state_root
      ensure (header.receipts_root == p.receipts_root) receipts_root
      ensure (header.prev_randao == p.prev_randao) prev_randao
      ensure (header.gas_limit == p.gas_limit) gas_limit
      ensure (header.gas_used == p.gas_used) gas_used
      ensure (header.timestamp == p.timestamp) timestamp
      ensure (bytes_eq header.extra_data p.extra_data) extra_data
      ensure (header.base_fee_per_gas == p.base_fee_per_gas) base_fee_per_gas
      ensure (header.parent_hash == p.parent_hash) parent_hash
      ensure (header.fee_recipient == p.fee_recipient) fee_recipient
      ensure (header.logs_bloom == p.logs_bloom) logs_bloom
      ensure (header.blob_gas_used == unwrap_or p.blob_gas_used 0) blob_gas_used
      ensure (header.excess_blob_gas == unwrap_or p.excess_blob_gas 0) excess_blob_gas

pub record ConstraintsApiProxyServer : Type 0 where
  pub fallback_payload : Option GetPayloadResponse
  pub fallback_bid : Option SignedBuilderBid

unfoldable pub new : ConstraintsApiProxyServer
new = record { fallback_payload = none; fallback_bid = none }

pub record VersionedValue : Type 0 where
  pub version : Fork
  pub bid : SignedBuilderBid

-- The part of `get_header` after the relay: the fetched payload is cached with its bid.
abbrev pub local_header :
    ConstraintsApiProxyServer
    → ℕ
    → Option PayloadAndBid
    → ConstraintsApiProxyServer × Result CommitBoostError VersionedValue
local_header s slot none = (s, err (failed_to_fetch_local_payload slot))
local_header s slot (some p) = (
  record s { fallback_payload = some p.payload; fallback_bid = some p.bid },
  ok (record { version = deneb; bid = p.bid }),
)

-- `fetched` is what the payload fetcher would give.
unfoldable pub get_header :
    ConstraintsApiProxyServer
    → ℕ
    → Option (Result CommitBoostError VersionedValue)
    → Option PayloadAndBid
    → ConstraintsApiProxyServer × Result CommitBoostError VersionedValue
get_header s slot none fetched = local_header s slot fetched
get_header s slot (some (ok header)) fetched = (record s { fallback_payload = none }, ok header)
get_header s slot (some (err e)) fetched =
    local_header (record s { fallback_payload = none }) slot fetched
get_header s slot (some panic) fetched = (s, panic)

-- A signed blinded block, by the header in its body and the rest.
pub record SignedBlindedBeaconBlock : Type 0 where
  pub execution_payload_header : ExecutionPayloadHeader
  pub rest : ℕ

abbrev pub integrity_or :
    Result LocalPayloadIntegrityError (Unit {0})
    → GetPayloadResponse
    → Result CommitBoostError GetPayloadResponse
integrity_or r local = do map_err integrity r; ok local

-- The payload that both caches stand behind.
abbrev pub local_payload :
    Option GetPayloadResponse → Option SignedBuilderBid → Option GetPayloadResponse
local_payload (some payload) (some bid) = some payload
local_payload (some payload) none = none
local_payload none bid = none

abbrev pub payload_from :
    Option GetPayloadResponse
    → SignedBlindedBeaconBlock
    → (SignedBlindedBeaconBlock → Result CommitBoostError GetPayloadResponse)
    → Result CommitBoostError GetPayloadResponse
payload_from none block relay = relay block
payload_from (some local) block relay =
    integrity_or (check_locally_built_payload_integrity block.execution_payload_header local) local

-- `body` is what is read of the request, `block` what is parsed of that. No cache is changed.
unfoldable pub get_payload :
    ConstraintsApiProxyServer
    → Option (Option SignedBlindedBeaconBlock)
    → (SignedBlindedBeaconBlock → Result CommitBoostError GetPayloadResponse)
    → Result CommitBoostError GetPayloadResponse
unfolding check_locally_built_payload_integrity
get_payload s body relay = do
  read ← ok_or body unreadable_body
  block ← ok_or read unreadable_block
  payload_from (local_payload s.fallback_payload s.fallback_bid) block relay

-- `handle_local_payload_request` (interstate-gateway/src/main.rs): the payload is taken, and lost if
-- nobody waits for the response. The slot is only logged.
unfoldable pub handle_local_payload_request :
    FallbackBuilder → Bool → FallbackBuilder × Option PayloadAndBid
handle_local_payload_request b response_open =
    let (b', p) = get_cached_payload b in (b', if response_open then p else none)

-- `FallbackPayloadFetcher::fetch_payload`, over a channel to the event loop that may be closed.
unfoldable pub fetch_payload :
    FallbackBuilder → Bool → Bool → FallbackBuilder × Option PayloadAndBid
unfolding handle_local_payload_request
fetch_payload b false response_open = (b, none)
fetch_payload b true response_open = handle_local_payload_request b response_open
