-- ===== src/Builder/Payload.antt =====
-- What is made of a sealed block (interstate-gateway/src/constraints/block_builder.rs): the payload
-- that the engine validates, the header of the bid and the payload of the answer to the proposer.
-- The conversions of words (`to_bytes32`, `as usize` on a 64-bit machine) keep the value.
use proposer_commitment_netw.Base.{
  ℕ, Bool, true, false, Option, some, List, [], map, Result, ok, panic, ◌>>=◌, ◌>>◌, expect,
  unwrap_or, all_of,
}
use proposer_commitment_netw.Builder.{
  Text, Withdrawal, ConsensusWithdrawal, SealedBlock, BuilderError, BuilderLib,
}

pub record ExecutionPayloadV1 : Type 0 where
  pub base_fee_per_gas : ℕ
  pub block_hash : ℕ
  pub block_number : ℕ
  pub extra_data : Text
  pub transactions : List Text
  pub fee_recipient : ℕ
  pub gas_limit : ℕ
  pub gas_used : ℕ
  pub logs_bloom : ℕ
  pub parent_hash : ℕ
  pub prev_randao : ℕ
  pub receipts_root : ℕ
  pub state_root : ℕ
  pub timestamp : ℕ

pub record ExecutionPayloadV2 : Type 0 where
  pub payload_inner : ExecutionPayloadV1
  pub withdrawals : List Withdrawal

pub record ExecutionPayloadV3 : Type 0 where
  pub blob_gas_used : ℕ
  pub excess_blob_gas : ℕ
  pub payload_inner : ExecutionPayloadV2

pub record ExecutionPayloadHeader : Type 0 where
  pub parent_hash : ℕ
  pub fee_recipient : ℕ
  pub state_root : ℕ
  pub receipts_root : ℕ
  pub logs_bloom : ℕ
  pub prev_randao : ℕ
  pub block_number : ℕ
  pub gas_limit : ℕ
  pub gas_used : ℕ
  pub timestamp : ℕ
  pub extra_data : Text
  pub base_fee_per_gas : ℕ
  pub block_hash : ℕ
  pub blob_gas_used : ℕ
  pub excess_blob_gas : ℕ
  pub transactions_root : ℕ
  pub withdrawals_root : ℕ

pub data Fork : Type 0 where
  phase0 altair bellatrix capella deneb electra : Fork

-- The payload of any fork; the blob fields are there from Deneb on.
pub record ExecutionPayload : Type 0 where
  pub version : Fork
  pub parent_hash : ℕ
  pub fee_recipient : ℕ
  pub state_root : ℕ
  pub receipts_root : ℕ
  pub logs_bloom : ℕ
  pub prev_randao : ℕ
  pub block_number : ℕ
  pub gas_limit : ℕ
  pub gas_used : ℕ
  pub timestamp : ℕ
  pub extra_data : Text
  pub base_fee_per_gas : ℕ
  pub block_hash : ℕ
  pub transactions : List Text
  pub withdrawals : List ConsensusWithdrawal
  pub blob_gas_used : Option ℕ
  pub excess_blob_gas : Option ℕ

unfoldable pub convert_withdrawal_from_consensus_to_alloy : ConsensusWithdrawal → Withdrawal
convert_withdrawal_from_consensus_to_alloy value = record {
  index = value.index;
  validator_index = value.validator_index;
  address = value.address;
  amount = value.amount;
}

unfoldable pub convert_withdrawal_from_reth_to_consensus : Withdrawal → ConsensusWithdrawal
convert_withdrawal_from_reth_to_consensus value = record {
  index = value.index;
  validator_index = value.validator_index;
  address = value.address;
  amount = value.amount;
}

module _ (lib : BuilderLib) where
  -- The engine's payload, with the given hash in place of the seal.
  unfoldable pub create_alloy_execution_payload : SealedBlock → ℕ → ExecutionPayloadV3
  create_alloy_execution_payload block block_hash = record {
    blob_gas_used = lib.body_blob_gas_used block.body.transactions;
    excess_blob_gas = unwrap_or block.header.excess_blob_gas 0;
    payload_inner = record {
      payload_inner = record {
        base_fee_per_gas = unwrap_or block.header.base_fee_per_gas 0;
        block_hash = block_hash;
        block_number = block.header.number;
        extra_data = block.header.extra_data;
        transactions = map (λ t. lib.encoded_2718 t) block.body.transactions;
        fee_recipient = block.header.beneficiary;
        gas_limit = block.header.gas_limit;
        gas_used = block.header.gas_used;
        logs_bloom = block.header.logs_bloom;
        parent_hash = block.header.parent_hash;
        prev_randao = block.header.mix_hash;
        receipts_root = block.header.receipts_root;
        state_root = block.header.state_root;
        timestamp = block.header.timestamp;
      };
      withdrawals = unwrap_or block.body.withdrawals [];
    };
  }

  -- `unwrap` of a conversion that can fail.
  abbrev pub unwrapped : Bool → Result BuilderError (Unit {0})
  unwrapped true = ok tt
  unwrapped false = panic

  abbrev pub consensus_withdrawals : SealedBlock → List ConsensusWithdrawal
  consensus_withdrawals block =
      map (λ w. convert_withdrawal_from_reth_to_consensus w) (unwrap_or block.body.withdrawals [])

  unfoldable pub create_execution_payload_header :
      SealedBlock → List ℕ → Result BuilderError ExecutionPayloadHeader
  create_execution_payload_header block transactions =
      let transactions_bytes = map (λ t. lib.encoded_2718 t) transactions in
      do
        unwrapped (all_of lib.transaction_fits transactions_bytes)
        transactions_root ← expect (lib.transactions_ssz_root transactions_bytes)
        withdrawals_root ← expect (lib.withdrawals_ssz_root (consensus_withdrawals block))
        unwrapped (lib.extra_data_fits block.header.extra_data)
        ok (record {
          parent_hash = block.header.parent_hash;
          fee_recipient = block.header.beneficiary;
          state_root = block.header.state_root;
          receipts_root = block.header.receipts_root;
          logs_bloom = block.header.logs_bloom;
          prev_randao = block.header.mix_hash;
          block_number = block.header.number;
          gas_limit = block.header.gas_limit;
          gas_used = block.header.gas_used;
          timestamp = block.header.timestamp;
          extra_data = block.header.extra_data;
          base_fee_per_gas = unwrap_or block.header.base_fee_per_gas 0;
          block_hash = block.hash;
          blob_gas_used = unwrap_or block.header.blob_gas_used 0;
          excess_blob_gas = unwrap_or block.header.excess_blob_gas 0;
          transactions_root = transactions_root;
          withdrawals_root = withdrawals_root;
        })

  unfoldable pub create_consensus_execution_payload :
      SealedBlock → Result BuilderError ExecutionPayload
  create_consensus_execution_payload value =
      let transactions = map (λ t. lib.encoded_2718 t) value.body.transactions in
      do
        unwrapped (all_of lib.transaction_fits transactions)
        unwrapped (lib.extra_data_fits value.header.extra_data)
        unwrapped (lib.transactions_fit transactions)
        unwrapped (lib.withdrawals_fit (consensus_withdrawals value))
        ok (record {
          version = deneb;
          parent_hash = value.header.parent_hash;
          fee_recipient = value.header.beneficiary;
          state_root = value.header.state_root;
          receipts_root = value.header.receipts_root;
          logs_bloom = value.header.logs_bloom;
          prev_randao = value.header.mix_hash;
          block_number = value.header.number;
          gas_limit = value.header.gas_limit;
          gas_used = value.header.gas_used;
          timestamp = value.header.timestamp;
          extra_data = value.header.extra_data;
          base_fee_per_gas = unwrap_or value.header.base_fee_per_gas 0;
          block_hash = value.hash;
          transactions = transactions;
          withdrawals = consensus_withdrawals value;
          blob_gas_used = some (lib.body_blob_gas_used value.body.transactions);
          excess_blob_gas = some (unwrap_or value.header.excess_blob_gas 0);
        })
