-- ===== src/Builder/Sealing/Built.antt =====
-- What `build_sealed_block` returns (interstate-gateway/src/constraints/block_builder.rs).
use proposer_commitment_netw.Base.{
  ℕ, ◌+◌, ◌<◌, ◌≡◌, refl, Option, none, some, List, Result, ok, >>=-eq-ok, expect, unwrap_or, arith,
}
use proposer_commitment_netw.Builder.{SealedBlock, LatestHeader, Withdrawal, BuilderLib}
use proposer_commitment_netw.Base.Words.{add_u64, mul_u64}
use proposer_commitment_netw.Builder.Draft.{default_hints, build_header_with_hints_and_context}
use proposer_commitment_netw.Builder.Payload.{create_alloy_execution_payload}
use proposer_commitment_netw.Builder.Sealing.{
  BlockBuilder, Node, Draft, context, blob_gas_of, get_latest_block, versioned_hashes,
  withdrawals_of, draft_of, seal, proposed, ask_engine, seal_loop, rounds, build_sealed_block,
}
use proposer_commitment_netw.Builder.Sealing.Rounds.{seal_loop_iff, seal_loop_ends}
use proposer_commitment_netw.Builder.Engine.Answers.{SaysValid, fetch_next_payload_hint_valid_iff}

-- What the node has said when the loop begins.
pub record Fetched (lib : BuilderLib) (b : BlockBuilder) (node : Node) (txs : List ℕ) (slot : ℕ)
    : Type 0 where
  pub latest : LatestHeader
  pub has_latest : get_latest_block node.latest ≡ ok latest
  pub withdrawals : List Withdrawal
  pub has_withdrawals : withdrawals_of lib node.expected_withdrawals ≡ ok withdrawals
  pub prev_randao : ℕ
  pub has_randao : node.randao ≡ some prev_randao
  pub parent_root : ℕ
  pub has_root : node.beacon_block_root ≡ some parent_root

expect-eq-ok :
    {E : Type 0} (o : Option ℕ) (n : ℕ) → ◌≡◌ {A = Result E ℕ} (expect o) (ok n) → o ≡ some n
expect-eq-ok (some m) n h = cc
expect-eq-ok none n h = cc

module _ (lib : BuilderLib) (b : BlockBuilder) (node : Node) (txs : List ℕ) (slot : ℕ) where
  abbrev pub draft : Fetched lib b node txs slot → Draft
  draft f = draft_of lib b txs slot f.latest f.withdrawals f.prev_randao f.parent_root

  build_sealed_block_looped :
      (block : SealedBlock)
      → build_sealed_block lib b node txs slot ≡ ok block
      → (f : Fetched lib b node txs slot) × (seal_loop lib
            (ask_engine lib node (versioned_hashes lib txs) f.parent_root)
            (draft f)
            (rounds lib)
            0
            default_hints
          ≡ some (ok block))
  unfolding build_sealed_block
  build_sealed_block_looped block h =
      let (latest, e, h1) = >>=-eq-ok (get_latest_block node.latest) _ h in
      let (ws, w, h2) = >>=-eq-ok (withdrawals_of lib node.expected_withdrawals) _ h1 in
      let (randao, r, h3) = >>=-eq-ok (expect node.randao) _ h2 in
      let (root, p, h4) = >>=-eq-ok (expect node.beacon_block_root) _ h3 in
      let f : Fetched lib b node txs slot = record {
        latest = latest;
        has_latest = e;
        withdrawals = ws;
        has_withdrawals = w;
        prev_randao = randao;
        has_randao = expect-eq-ok node.randao randao r;
        parent_root = root;
        has_root = expect-eq-ok node.beacon_block_root root p;
      } in
      let (result, s) =
        seal_loop_ends lib (ask_engine lib node (versioned_hashes lib txs) root) (draft f) in
      (f, ground arith)

  -- A block is returned only if a Geth node has called it valid, under some block hash, as one of the first 22 payloads, with the
  -- transactions' blob hashes and the beacon root of the head.
  pub build_sealed_block_valid :
      (block : SealedBlock)
      → build_sealed_block lib b node txs slot ≡ ok block
      → (f : Fetched lib b node txs slot) × (k : ℕ) × (k < rounds lib)
        × (hash : ℕ) × SaysValid lib
            (node.new_payload k
              (create_alloy_execution_payload lib block hash)
              (versioned_hashes lib txs)
              f.parent_root)
            (node.client_version k)
  unfolding ask_engine proposed
  build_sealed_block_valid block h =
      let (f, looped) = build_sealed_block_looped block h in
      let (k, l, (final, r, valid, same)) =
        (seal_loop_iff lib (ask_engine lib node (versioned_hashes lib txs) f.parent_root) (draft f)
            block).0
          looped in
      let zeroth : 0 + k ≡ k = omega arith in
      (
        f,
        k,
        l,
        unwrap_or final.block_hash (seal lib (draft f) final).hash,
        ((fetch_next_payload_hint_valid_iff lib _ _ _).0 (rw (zeroth, same) at valid)).1,
      )

  -- The block follows the latest one, at the slot's time after it, with the given transactions
  -- and their blob gas.
  abbrev pub Follows : LatestHeader → SealedBlock → Type 0
  Follows latest block =
      (block.header.parent_hash ≡ latest.hash)
      × (block.header.number ≡ add_u64 latest.number 1)
      × (block.header.timestamp ≡ add_u64 latest.timestamp (mul_u64 slot b.slot_time_in_seconds))
      × (block.body.transactions ≡ txs)
      × (block.header.blob_gas_used ≡ some (blob_gas_of lib txs))

  pub build_sealed_block-Follows :
      (block : SealedBlock)
      → build_sealed_block lib b node txs slot ≡ ok block
      → (f : Fetched lib b node txs slot) × Follows f.latest block
  unfolding seal draft_of context build_header_with_hints_and_context
  build_sealed_block-Follows block h =
      let (f, looped) = build_sealed_block_looped block h in
      let (k, l, (final, r, valid, same)) =
        (seal_loop_iff lib (ask_engine lib node (versioned_hashes lib txs) f.parent_root) (draft f)
            block).0
          looped in
      (f, rw (← same) (refl, refl, refl, refl, refl))
