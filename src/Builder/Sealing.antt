-- ===== src/Builder/Sealing.antt =====
-- `BlockBuilder::build_sealed_block` (interstate-gateway/src/constraints/block_builder.rs): a block
-- is proposed to the engine again and again, each time with the value that its last answer gave.
pub mod Rounds
pub mod Honest
pub mod Built
use proposer_commitment_netw.Base.{
  ℕ, zero, suc, ◌%◌, Bool, true, false, Option, none, some, List, [], ◌∷◌, ◌++◌, map, Result, ok,
  err, panic, ◌>>=◌, expect, map_err, unwrap_or, sum_by, ltb, if◌then◌else◌,
}
use proposer_commitment_netw.Base.Words.{u64_mod}
use proposer_commitment_netw.Builder.{
  LatestHeader, Header, BlockBody, SealedBlock, BuilderError, BuilderLib, Text, Withdrawal,
  ConsensusWithdrawal, beacon_api, too_many_iterations, timeout, rpc_error,
}
use proposer_commitment_netw.Builder.Draft.{
  Context, Hints, default_hints, EngineApiHint, apply_hint, build_header_with_hints_and_context,
}
use proposer_commitment_netw.Builder.Payload.{
  ExecutionPayloadV3, convert_withdrawal_from_consensus_to_alloy, create_alloy_execution_payload,
}
use proposer_commitment_netw.Builder.Engine.{fetch_next_payload_hint}

-- What one request of the latest block comes to.
pub data BlockAnswer : Type 0 where
  timed_out failed : BlockAnswer
  block : LatestHeader → BlockAnswer

abbrev pub max_retries : ℕ
max_retries = 5

abbrev pub block_of :
    BlockAnswer → Result BuilderError LatestHeader → Result BuilderError LatestHeader
block_of timed_out rest = rest
block_of failed rest = err rpc_error
block_of (block b) rest = ok b

-- Only a timeout is tried again.
unfoldable pub block_loop : (ℕ → BlockAnswer) → ℕ → ℕ → Result BuilderError LatestHeader
block_loop answer zero n = block_of (answer n) (err timeout)
block_loop answer (suc retries) n = block_of (answer n) (block_loop answer retries (suc n))

unfoldable pub get_latest_block : (ℕ → BlockAnswer) → Result BuilderError LatestHeader
unfolding block_loop
get_latest_block answer = block_loop answer max_retries 0

-- What is sent over the network: the answers to the `n`th request for the latest block, to those
-- for the withdrawals, the randao value and the beacon root (`none` for the last two is a panic), and
-- the engine's to the `n`th payload, with that on its version.
pub record Node : Type 0 where
  pub latest : ℕ → BlockAnswer
  pub expected_withdrawals : Option (List ConsensusWithdrawal)
  pub randao : Option ℕ
  pub beacon_block_root : Option ℕ
  pub jwt_is_valid : Bool
  pub new_payload : ℕ → ExecutionPayloadV3 → List ℕ → ℕ → Option Text
  pub client_version : ℕ → Option Text

-- The configuration of the builder.
pub record BlockBuilder : Type 0 where
  pub extra_data : Text
  pub fee_recipient : ℕ
  pub slot_time_in_seconds : ℕ

-- What stays the same in the rounds of one block.
pub record Draft : Type 0 where
  pub latest_block : LatestHeader
  pub genesis_time : ℕ
  pub slot : ℕ
  pub ctx : Context
  pub body : BlockBody

abbrev pub hashes_of : Option (List ℕ) → List ℕ → List ℕ
hashes_of none rest = rest
hashes_of (some hashes) rest = hashes ++ rest

module _ (lib : BuilderLib) where
  unfoldable pub versioned_hashes : List ℕ → List ℕ
  versioned_hashes [] = []
  versioned_hashes (tx ∷ txs) = hashes_of (lib.blob_versioned_hashes tx) (versioned_hashes txs)

  unfoldable pub blob_gas_of : List ℕ → ℕ
  blob_gas_of txs = sum_by (λ tx. unwrap_or (lib.blob_gas_used tx) 0) txs % u64_mod

  unfoldable pub context : BlockBuilder → LatestHeader → ℕ → ℕ → List Withdrawal → List ℕ → Context
  unfolding blob_gas_of
  context b latest prev_randao parent_root withdrawals txs = record {
    extra_data = b.extra_data;
    base_fee =
        lib.calc_next_block_base_fee latest.gas_used latest.gas_limit
          (unwrap_or latest.base_fee_per_gas 0)
        % u64_mod;
    blob_gas_used = blob_gas_of txs;
    excess_blob_gas =
        lib.calc_excess_blob_gas (unwrap_or latest.excess_blob_gas 0)
          (unwrap_or latest.blob_gas_used 0)
        % u64_mod;
    prev_randao = prev_randao;
    fee_recipient = b.fee_recipient;
    transactions_root = lib.calculate_transaction_root txs;
    withdrawals_root = lib.calculate_withdrawals_root withdrawals;
    parent_beacon_block_root = parent_root;
    slot_time_in_seconds = b.slot_time_in_seconds;
  }

  -- The block of a round.
  unfoldable pub seal : Draft → Hints → SealedBlock
  seal d hints =
      let header =
        build_header_with_hints_and_context d.latest_block d.genesis_time d.slot hints d.ctx in
      record { header = header; hash = lib.hash_slow header; body = d.body }

  unfoldable pub proposed : Draft → Hints → ExecutionPayloadV3
  unfolding seal
  proposed d hints =
      let sealed_block = seal d hints in
      create_alloy_execution_payload lib sealed_block (unwrap_or hints.block_hash sealed_block.hash)

  abbrev pub max_iterations : ℕ
  max_iterations = 20

  -- The rest of a round, after its hint: the block, the error, or the next round.
  abbrev pub after_hint :
      SealedBlock
      → ℕ
      → Option Hints
      → (Hints → Option (Result BuilderError SealedBlock))
      → Option (Result BuilderError SealedBlock)
  after_hint sealed_block i none next = some (ok sealed_block)
  after_hint sealed_block i (some hints) next =
      if ltb max_iterations i then some (err too_many_iterations) else next hints

  abbrev pub round :
      Result BuilderError EngineApiHint
      → SealedBlock
      → ℕ
      → Hints
      → (Hints → Option (Result BuilderError SealedBlock))
      → Option (Result BuilderError SealedBlock)
  round (ok hint) sealed_block i hints next = after_hint sealed_block i (apply_hint hints hint) next
  round (err e) sealed_block i hints next = some (err e)
  round panic sealed_block i hints next = some panic

  -- The loop from round `i` on; `none` is out of fuel. `ask` is the answer to a round's payload.
  unfoldable pub seal_loop :
      (ℕ → ExecutionPayloadV3 → Result BuilderError EngineApiHint)
      → Draft
      → ℕ
      → ℕ
      → Hints
      → Option (Result BuilderError SealedBlock)
  unfolding seal proposed
  seal_loop ask d zero i hints = none
  seal_loop ask d (suc fuel) i hints =
      round (ask i (proposed d hints)) (seal d hints) i hints
        λ next. seal_loop ask d fuel (suc i) next

  -- One round more than the counter is let to pass 20.
  abbrev pub rounds : ℕ
  rounds = 22

  unfoldable pub ask_engine :
      Node → List ℕ → ℕ → ℕ → ExecutionPayloadV3 → Result BuilderError EngineApiHint
  ask_engine node hashes parent_root n payload =
      fetch_next_payload_hint lib node.jwt_is_valid (node.new_payload n payload hashes parent_root)
        (node.client_version n)

  abbrev pub ended : Option (Result BuilderError SealedBlock) → Result BuilderError SealedBlock
  ended none = panic
  ended (some r) = r

  abbrev pub withdrawals_of :
      Option (List ConsensusWithdrawal) → Result BuilderError (List Withdrawal)
  withdrawals_of none = err beacon_api
  withdrawals_of (some ws) = ok (map (λ w. convert_withdrawal_from_consensus_to_alloy w) ws)

  unfoldable pub draft_of :
      BlockBuilder → List ℕ → ℕ → LatestHeader → List Withdrawal → ℕ → ℕ → Draft
  unfolding context
  draft_of b txs slot latest withdrawals prev_randao parent_root = record {
    latest_block = latest;
    genesis_time = latest.timestamp;
    slot = slot;
    ctx = context b latest prev_randao parent_root withdrawals txs;
    body = record { ommers = []; transactions = txs; withdrawals = some withdrawals };
  }

  unfoldable pub build_sealed_block :
      BlockBuilder → Node → List ℕ → ℕ → Result BuilderError SealedBlock
  unfolding get_latest_block versioned_hashes seal_loop draft_of ask_engine
  build_sealed_block b node txs slot = do
    latest ← get_latest_block node.latest
    withdrawals ← withdrawals_of node.expected_withdrawals
    prev_randao ← expect node.randao
    parent_root ← expect node.beacon_block_root
    ended (
        seal_loop (ask_engine node (versioned_hashes txs) parent_root)
          (draft_of b txs slot latest withdrawals prev_randao parent_root) rounds 0 default_hints)
