-- ===== src/Examples/Builders.antt =====
-- Concrete runs of the fallback builder.
use proposer_commitment_netw.Base.{
  ℕ, ◌+◌, ◌<◌, ◌≡◌, ◌↔◌, refl, true, Option, none, some, [], ◌∷◌, ok, sum_by, length, unwrap_or,
  ◌%◌,
}
use proposer_commitment_netw.Base.Text.{Text, codes, contains, starts_with}
use proposer_commitment_netw.Base.Words.{u64_mod}
use proposer_commitment_netw.State.{Block}
use proposer_commitment_netw.Constraints.{from_tx}
use proposer_commitment_netw.Builder.{BuilderLib, LatestHeader, SealedBlock}
use proposer_commitment_netw.Builder.Draft.{
  default_hints, valid_payload, default_extra_data, apply_hint,
}
use proposer_commitment_netw.Builder.Payload.{
  create_alloy_execution_payload, convert_withdrawal_from_consensus_to_alloy,
}
use proposer_commitment_netw.Builder.Engine.{
  fetch_next_payload_hint, get_el_node_type, hint_of, geth_hint,
}
use proposer_commitment_netw.Builder.Engine.Answers.{SaysValid}
use proposer_commitment_netw.Builder.Sealing.{
  BlockAnswer, BlockBuilder, Node, Draft, seal, proposed, seal_loop, rounds, draft_of,
  versioned_hashes, get_latest_block, block_loop, ask_engine, build_sealed_block,
}
use proposer_commitment_netw.Builder.Sealing.Rounds.{Ask, ValidAt, seal_loop_iff}
use proposer_commitment_netw.Builder.Sealing.Honest.{
  Executed, first_wrong, Agrees, seal_loop_honest,
}
use proposer_commitment_netw.Builder.Sealing.Built.{Fetched, build_sealed_block_valid}
use proposer_commitment_netw.Builder.Fallback.{FallbackBuilder}
use proposer_commitment_netw.Examples.{signed_by}

abbrev no_blobs : ℕ → Option ℕ
no_blobs _ = none

-- A hash of a header is its gas, and a transaction has no blobs.
abbrev pub builder_lib : BuilderLib
builder_lib = record {
  into_transaction = λ tx. 5;
  hash_slow = λ h. 1_000 + h.gas_used;
  calc_next_block_base_fee = λ used limit fee. fee;
  calc_excess_blob_gas = λ excess used. excess;
  calculate_transaction_root = λ txs. length txs;
  calculate_withdrawals_root = λ ws. length ws;
  blob_gas_used = no_blobs;
  blob_versioned_hashes = λ tx. none;
  body_blob_gas_used = λ txs. sum_by (λ tx. unwrap_or (no_blobs tx) 0) txs % u64_mod;
  encoded_2718 = λ tx. tx ∷ [];
  capture_hint = λ text. none;
  b256_from_hex = λ text. some 9;
  bloom_from_hex = λ text. some 9;
  transaction_fits = λ bytes. true;
  transactions_fit = λ bytes. true;
  withdrawals_fit = λ ws. true;
  extra_data_fits = λ bytes. true;
  commitments_fit = λ commitments. true;
  transactions_ssz_root = λ bytes. some 3;
  withdrawals_ssz_root = λ ws. some 4;
}

abbrev geth : Text
geth = codes "{\"result\":\"Geth/v1\"}"

abbrev valid : Text
valid = codes "{\"status\":\"VALID\"}"

abbrev head : LatestHeader
head = record {
  hash = 70;
  number = 8;
  gas_limit = 30_000_000;
  gas_used = 21_000;
  timestamp = 1_000;
  base_fee_per_gas = some 7;
  excess_blob_gas = some 0;
  blob_gas_used = none;
}

abbrev pub node : Node
node = record {
  latest = λ n. BlockAnswer.block head;
  expected_withdrawals =
      some (record { index = 1; validator_index = 2; address = 3; amount = 4 } ∷ []);
  randao = some 6;
  beacon_block_root = some 7;
  jwt_is_valid = true;
  new_payload = λ n payload hashes root. some valid;
  client_version = λ n. some geth;
}

abbrev block_builder : BlockBuilder
block_builder = record {
  extra_data = default_extra_data;
  fee_recipient = 11;
  slot_time_in_seconds = 12;
}

abbrev pub fallback : FallbackBuilder
fallback = record {
  public_key = 44;
  sign_builder_message = λ bid. some 45;
  block_builder = block_builder;
  payload_and_bid = none;
}

abbrev pub one_block : Block
one_block = record {
  signed_constraints_list = record { message = from_tx 77 40 (signed_by 9 3); signature = 1 } ∷ [];
}

abbrev answers_valid : Ask
answers_valid i payload = ok valid_payload

abbrev draft_40 : Draft
draft_40 = record {
  latest_block = head;
  genesis_time = 1_000;
  slot = 40;
  ctx = record {
    extra_data = default_extra_data;
    base_fee = 7;
    blob_gas_used = 0;
    excess_blob_gas = 0;
    prev_randao = 6;
    fee_recipient = 11;
    transactions_root = 1;
    withdrawals_root = 0;
    parent_beacon_block_root = 7;
    slot_time_in_seconds = 12;
  };
  body = record { ommers = []; transactions = 5 ∷ []; withdrawals = none };
}

abbrev results : Executed
results = record { gas_used = 21_000; logs_bloom = 2; receipts_root = 3; state_root = 4 }

abbrev executes : Ask
executes i payload = ok (first_wrong results payload.payload_inner.payload_inner)

seal_loop_honest_example :
    (b : SealedBlock) × (seal_loop builder_lib executes draft_40
        (rounds builder_lib)
        0
        default_hints
      ≡ some (ok b))
    × Agrees results b
seal_loop_honest_example =
    seal_loop_honest builder_lib results executes draft_40 (λ i payload. refl)

seal_loop_iff_example :
    (seal_loop builder_lib executes draft_40 (rounds builder_lib) 0 default_hints
      ≡ some (ok (seal builder_lib draft_40 default_hints)))
    ↔ ((k : ℕ) × (k < rounds builder_lib)
        × ValidAt builder_lib executes draft_40 0 default_hints k
            (seal builder_lib draft_40 default_hints))
seal_loop_iff_example =
    seal_loop_iff builder_lib executes draft_40 (seal builder_lib draft_40 default_hints)

abbrev block_40 : SealedBlock
block_40 =
    seal builder_lib
      (draft_of builder_lib block_builder (5 ∷ []) 40 head
        (record { index = 1; validator_index = 2; address = 3; amount = 4 } ∷ []) 6 7)
      default_hints

block_40_built : build_sealed_block builder_lib block_builder node (5 ∷ []) 40 ≡ ok block_40
unfolding build_sealed_block get_latest_block block_loop seal_loop seal proposed ask_engine
    fetch_next_payload_hint get_el_node_type hint_of geth_hint contains starts_with apply_hint
    convert_withdrawal_from_consensus_to_alloy draft_of default_hints
block_40_built = refl

build_sealed_block_valid_example :
    (f : Fetched builder_lib block_builder node (5 ∷ []) 40) × (k : ℕ) × (k < rounds builder_lib)
    × (hash : ℕ) × SaysValid builder_lib
        (node.new_payload k
          (create_alloy_execution_payload builder_lib block_40 hash)
          (versioned_hashes builder_lib (5 ∷ []))
          f.parent_root)
        (node.client_version k)
build_sealed_block_valid_example =
    build_sealed_block_valid builder_lib block_builder node (5 ∷ []) 40 block_40 block_40_built
