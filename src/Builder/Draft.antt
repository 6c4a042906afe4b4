-- ===== src/Builder/Draft.antt =====
-- The header that the builder proposes (interstate-gateway/src/constraints/block_builder.rs): what
-- the engine has hinted at so far, over the values that stay the same.
use proposer_commitment_netw.Base.{ℕ, Option, none, some, [], ◌∷◌, unwrap_or}
use proposer_commitment_netw.Base.Words.{add_u64, mul_u64}
use proposer_commitment_netw.Builder.{Text, LatestHeader, Header}

abbrev pub default_extra_data : Text
default_extra_data =
    0x53 ∷ 0x65 ∷ 0x6c ∷ 0x66 ∷ 0x2d ∷ 0x62 ∷ 0x75 ∷ 0x69 ∷ 0x6c ∷ 0x74 ∷ 0x20 ∷ 0x77 ∷ 0x69 ∷ 0x74
    ∷ 0x68 ∷ 0x20 ∷ 0x42 ∷ 0x6f ∷ 0x6c ∷ 0x74 ∷ []

pub record Context : Type 0 where
  pub extra_data : Text
  pub base_fee : ℕ
  pub blob_gas_used : ℕ
  pub excess_blob_gas : ℕ
  pub prev_randao : ℕ
  pub fee_recipient : ℕ
  pub transactions_root : ℕ
  pub withdrawals_root : ℕ
  pub parent_beacon_block_root : ℕ
  pub slot_time_in_seconds : ℕ

pub record Hints : Type 0 where
  pub gas_used : Option ℕ
  pub receipts_root : Option ℕ
  pub logs_bloom : Option ℕ
  pub state_root : Option ℕ
  pub block_hash : Option ℕ
  pub base_fee : Option ℕ

unfoldable pub default_hints : Hints
default_hints = record {
  gas_used = none;
  receipts_root = none;
  logs_bloom = none;
  state_root = none;
  block_hash = none;
  base_fee = none;
}

pub data EngineApiHint : Type 0 where
  block_hash gas_used state_root receipts_root logs_bloom : ℕ → EngineApiHint
  valid_payload : EngineApiHint
  base_fee : ℕ → EngineApiHint

-- The match on a hint; `none` is the valid payload, which ends the loop.
unfoldable pub apply_hint : Hints → EngineApiHint → Option Hints
apply_hint h (block_hash hash) = some (record h { block_hash = some hash })
apply_hint h (gas_used gas) = some (record h { gas_used = some gas; block_hash = none })
apply_hint h (state_root hash) = some (record h { state_root = some hash; block_hash = none })
apply_hint h (receipts_root hash) = some (record h { receipts_root = some hash; block_hash = none })
apply_hint h (logs_bloom bloom) = some (record h { logs_bloom = some bloom; block_hash = none })
apply_hint h (base_fee fee) = some (record h { base_fee = some fee; block_hash = none })
apply_hint h valid_payload = none

-- keccak256 of an empty list of uncles
abbrev pub empty_ommer_root_hash : ℕ
empty_ommer_root_hash = 0x1dcc4de8dec75d7aab85b567b6ccd41ad312451b948a7413f0a142fd40d49347

unfoldable pub build_header_with_hints_and_context : LatestHeader → ℕ → ℕ → Hints → Context → Header
build_header_with_hints_and_context latest genesis_time slot hints context = record {
  parent_hash = latest.hash;
  ommers_hash = empty_ommer_root_hash;
  beneficiary = context.fee_recipient;
  state_root = unwrap_or hints.state_root 0;
  transactions_root = context.transactions_root;
  receipts_root = unwrap_or hints.receipts_root 0;
  withdrawals_root = some context.withdrawals_root;
  logs_bloom = unwrap_or hints.logs_bloom 0;
  difficulty = 0;
  number = add_u64 latest.number 1;
  gas_limit = latest.gas_limit;
  gas_used = unwrap_or hints.gas_used 0;
  timestamp = add_u64 genesis_time (mul_u64 slot context.slot_time_in_seconds);
  mix_hash = context.prev_randao;
  nonce = 0;
  base_fee_per_gas = some context.base_fee;
  blob_gas_used = some context.blob_gas_used;
  excess_blob_gas = some context.excess_blob_gas;
  parent_beacon_block_root = some context.parent_beacon_block_root;
  requests_hash = none;
  extra_data = context.extra_data;
}
