-- ===== src/Builder.antt =====
-- The fallback block builder (interstate-gateway/src/constraints/block_builder.rs, builder.rs): the
-- data it works on. Hashes, addresses, blooms and signed transactions are numbers; the libraries
-- that compute on them are `BuilderLib`, and what comes over the network is an argument.
pub mod Draft
pub mod Payload
pub mod Engine
pub mod Sealing
pub mod Fallback
use proposer_commitment_netw.Base.{ℕ, Bool, Option, List, Result}
use proposer_commitment_netw.Tx.{PooledTransactionsElement}

-- The code points of a text.
abbrev pub Text : Type 0
Text = List ℕ

pub record Withdrawal : Type 0 where
  pub index : ℕ
  pub validator_index : ℕ
  pub address : ℕ
  pub amount : ℕ

-- The withdrawal type of the consensus library.
pub record ConsensusWithdrawal : Type 0 where
  pub index : ℕ
  pub validator_index : ℕ
  pub address : ℕ
  pub amount : ℕ

-- The fields of the latest block's header that the builder reads.
pub record LatestHeader : Type 0 where
  pub hash : ℕ
  pub number : ℕ
  pub gas_limit : ℕ
  pub gas_used : ℕ
  pub timestamp : ℕ
  pub base_fee_per_gas : Option ℕ
  pub excess_blob_gas : Option ℕ
  pub blob_gas_used : Option ℕ

pub record Header : Type 0 where
  pub parent_hash : ℕ
  pub ommers_hash : ℕ
  pub beneficiary : ℕ
  pub state_root : ℕ
  pub transactions_root : ℕ
  pub receipts_root : ℕ
  pub withdrawals_root : Option ℕ
  pub logs_bloom : ℕ
  pub difficulty : ℕ
  pub number : ℕ
  pub gas_limit : ℕ
  pub gas_used : ℕ
  pub timestamp : ℕ
  pub mix_hash : ℕ
  pub nonce : ℕ
  pub base_fee_per_gas : Option ℕ
  pub blob_gas_used : Option ℕ
  pub excess_blob_gas : Option ℕ
  pub parent_beacon_block_root : Option ℕ
  pub requests_hash : Option ℕ
  pub extra_data : Text

pub record BlockBody : Type 0 where
  pub ommers : List ℕ
  pub transactions : List ℕ
  pub withdrawals : Option (List Withdrawal)

-- `hash` is the seal of the header.
pub record SealedBlock : Type 0 where
  pub header : Header
  pub hash : ℕ
  pub body : BlockBody

pub data BuilderError : Type 0 where
  parse json hex jwt reqwest transport merkleization beacon_api : BuilderError
  invalid_engine_hint : Text → BuilderError
  engine_unreachable engine_not_supported no_hint_parsed too_many_iterations : BuilderError
  timeout : BuilderError
  rpc_error : BuilderError

-- The libraries.
pub record BuilderLib : Type 0 where
  pub into_transaction : PooledTransactionsElement → ℕ
  pub hash_slow : Header → ℕ
  pub calc_next_block_base_fee : ℕ → ℕ → ℕ → ℕ
  pub calc_excess_blob_gas : ℕ → ℕ → ℕ
  pub calculate_transaction_root : List ℕ → ℕ
  pub calculate_withdrawals_root : List Withdrawal → ℕ
  -- of a transaction, if it carries blobs
  pub blob_gas_used : ℕ → Option ℕ
  pub blob_versioned_hashes : ℕ → Option (List ℕ)
  -- of a block's transactions together
  pub body_blob_gas_used : List ℕ → ℕ
  pub encoded_2718 : ℕ → Text
  -- `captures` of the regular expression of `parse_geth_response`
  pub capture_hint : Text → Option Text
  pub b256_from_hex : Text → Option ℕ
  pub bloom_from_hex : Text → Option ℕ
  -- the SSZ containers: what fits into them, and their roots
  pub transaction_fits : Text → Bool
  pub transactions_fit : List Text → Bool
  pub withdrawals_fit : List ConsensusWithdrawal → Bool
  pub extra_data_fits : Text → Bool
  pub commitments_fit : List ℕ → Bool
  pub transactions_ssz_root : List Text → Option ℕ
  pub withdrawals_ssz_root : List ConsensusWithdrawal → Option ℕ
