-- ===== src/Proxy/Requests.antt =====
-- Sequences of requests to the proxy (interstate-gateway/src/constraints/constraints_proxy_server.rs),
-- with the payloads of the fallback builder (interstate-gateway/src/constraints/builder.rs).
use proposer_commitment_netw.Base.{
  ℕ, ◌≡◌, refl, ◌⊎◌, inl, inr, true, Option, none, some, List, map, Result, ok, Option-cases,
  Result-cases, arith,
}
use proposer_commitment_netw.State.{Block, get_transactions, parse_to_blobs_bundle}
use proposer_commitment_netw.Builder.{BuilderLib, SealedBlock}
use proposer_commitment_netw.Builder.Sealing.{Node, blob_gas_of, build_sealed_block}
use proposer_commitment_netw.Builder.Sealing.Built.{build_sealed_block-Follows}
use proposer_commitment_netw.Builder.Fallback.{
  FallbackBuilder, GetPayloadResponse, PayloadAndBid, execution_payload, bid_and_payload,
  build_fallback_payload, get_cached_payload,
}
use proposer_commitment_netw.Proxy.{
  CommitBoostError, ConstraintsApiProxyServer, SignedBlindedBeaconBlock, VersionedValue,
  check_locally_built_payload_integrity, get_header, get_payload, fetch_payload,
}
use proposer_commitment_netw.Proxy.Integrity.{
  Matches, check_locally_built_payload_integrity_iff, bid_and_payload-Matches,
}

-- A payload that is returned for a block is the relay's, or the cached one, which matches the header
-- of the block.
pub get_payload-cases :
    (s : ConstraintsApiProxyServer) (block : SignedBlindedBeaconBlock)
    (relay : SignedBlindedBeaconBlock → Result CommitBoostError GetPayloadResponse)
    (p : GetPayloadResponse)
    → get_payload s (some (some block)) relay ≡ ok p
    → (relay block ≡ ok p)
      ⊎ (Matches block.execution_payload_header (execution_payload p)
          × (s.fallback_payload ≡ some p))
unfolding get_payload
get_payload-cases s block relay p e = elim (Option-cases s.fallback_payload) [
  | inl n ↦ inl (ground arith)
  | inr (local, y) ↦ elim (Option-cases s.fallback_bid) [
    | inl n ↦ inl (ground arith)
    | inr (bid, z) ↦
        elim (Result-cases
          (check_locally_built_payload_integrity block.execution_payload_header local)) [
            | inl (u, c) ↦
                let same : local ≡ p = ground arith in
                let matched : Matches block.execution_payload_header (execution_payload local) =
                  (check_locally_built_payload_integrity_iff block.execution_payload_header local).0
                    c in
                inr (rw same at matched, ground arith)
            | inr (inl (x, c)) ↦ absurd (ground arith)
            | inr (inr c) ↦ absurd (ground arith)
          ]
  ]
]

-- A payload that is returned for a block is the relay's, or matches the header of the block.
pub get_payload-Matches :
    (s : ConstraintsApiProxyServer) (block : SignedBlindedBeaconBlock)
    (relay : SignedBlindedBeaconBlock → Result CommitBoostError GetPayloadResponse)
    (p : GetPayloadResponse)
    → get_payload s (some (some block)) relay ≡ ok p
    → (relay block ≡ ok p) ⊎ Matches block.execution_payload_header (execution_payload p)
get_payload-Matches s block relay p e = elim (get_payload-cases s block relay p e) [
  | inl given ↦ inl given
  | inr (matches, _) ↦ inr matches
]

-- After a header of the relay, a block is sent to the relay, whatever was cached.
pub get_payload_after_relay :
    (s : ConstraintsApiProxyServer) (slot : ℕ) (header : VersionedValue)
    (fetched : Option PayloadAndBid) (block : SignedBlindedBeaconBlock)
    (relay : SignedBlindedBeaconBlock → Result CommitBoostError GetPayloadResponse)
    → get_payload (get_header s slot (some (ok header)) fetched).0 (some (some block)) relay
      ≡ relay block
unfolding get_payload get_header
get_payload_after_relay s slot header fetched block relay = refl

build_fallback_payload_kept :
    (lib : BuilderLib) (node : Node) (b : FallbackBuilder) (block : Block) (slot : ℕ)
    → (build_fallback_payload lib node b block slot).1 ≡ ok tt
    → (p : PayloadAndBid) × ((get_cached_payload (build_fallback_payload lib node b block slot).0).1
        ≡ some p)
      × (sealed : SealedBlock) × (build_sealed_block lib b.block_builder node
            (map (λ tx. lib.into_transaction tx) (get_transactions block))
            slot
          ≡ ok sealed)
      × (bid_and_payload lib b
            (map (λ tx. lib.into_transaction tx) (get_transactions block))
            (parse_to_blobs_bundle block)
            sealed
          ≡ ok p)
unfolding build_fallback_payload get_cached_payload
build_fallback_payload_kept lib node b block slot e =
    let txs = map (λ tx. lib.into_transaction tx) (get_transactions block) in
    elim (Result-cases (build_sealed_block lib b.block_builder node txs slot)) [
      | inl (sealed, s) ↦
          elim (Result-cases (bid_and_payload lib b txs (parse_to_blobs_bundle block) sealed)) [
            | inl (p, q) ↦ (p, ground arith, sealed, s, q)
            | inr (inl (x, q)) ↦ absurd (ground arith)
            | inr (inr q) ↦ absurd (ground arith)
          ]
      | inr (inl (x, s)) ↦ absurd (ground arith)
      | inr (inr s) ↦ absurd (ground arith)
    ]

module _ (lib : BuilderLib) (node : Node) (b : FallbackBuilder) (block : Block) (slot : ℕ) where
  abbrev pub built : FallbackBuilder
  built = (build_fallback_payload lib node b block slot).0

  abbrev pub transactions : List ℕ
  transactions = map (λ tx. lib.into_transaction tx) (get_transactions block)

  -- If the builder has built a block, its payload and bid can be fetched; if the relay gives no header in time, the bid is returned with them fetched, and a signed block over its header is then answered with that payload. The blob gas of a block must be that of its transactions.
  pub local_round_trip :
      (s : ConstraintsApiProxyServer) (rest : ℕ)
      (relay : SignedBlindedBeaconBlock → Result CommitBoostError GetPayloadResponse)
      → ((txs : List ℕ) → lib.body_blob_gas_used txs ≡ blob_gas_of lib txs)
      → (build_fallback_payload lib node b block slot).1 ≡ ok tt
      → (p : PayloadAndBid) × (v : VersionedValue) × ((fetch_payload built true true).1 ≡ some p)
        × ((get_header s slot none (some p)).1 ≡ ok v)
        × (get_payload
              (get_header s slot none (some p)).0
              (some
                (some (record { execution_payload_header = v.bid.message.header; rest = rest })))
              relay
            ≡ ok p.payload)
  unfolding get_header get_payload fetch_payload
  local_round_trip s rest relay gas e =
      let (p, kept, sealed, sealed_ok, made) =
        build_fallback_payload_kept lib node b block slot e in
      let (f, (_, _, _, same, counted)) =
        build_sealed_block-Follows lib b.block_builder node transactions slot sealed sealed_ok in
      let matches =
        bid_and_payload-Matches lib b transactions (parse_to_blobs_bundle block) sealed p
          (rw (same, counted) (gas transactions)) made in
      (
        p,
        _,
        kept,
        refl,
        rw ((check_locally_built_payload_integrity_iff p.bid.message.header p.payload).1 matches)
            refl,
      )
