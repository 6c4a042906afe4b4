-- ===== src/Examples/Caches.antt =====
-- Concrete runs of the score cache, the templates and the execution state.
use proposer_commitment_netw.Base.{
  List, ◌%◌, ℕ, ◌<◌, ◌≡◌, ◌≢◌, ◌⊎◌, refl, true, false, Option, none, some, [], ◌∷◌, ok, length, ltb,
  ◌||◌, if◌then◌else◌, arith,
}
use proposer_commitment_netw.Base.Assoc.{Assoc, lookup, insert, modify}
use proposer_commitment_netw.Base.Int.{ℤ, pos}
use proposer_commitment_netw.Base.Words.{u256_mod}
use proposer_commitment_netw.Errors.{ValidationError}
use proposer_commitment_netw.Tx
use proposer_commitment_netw.Tx.{Constraint}
use proposer_commitment_netw.Tx.Fees.{
  AccountState, max_transaction_cost, validate_transaction, fee_cap, add_blob_fee,
}
use proposer_commitment_netw.ScoreCache
use proposer_commitment_netw.ScoreCache.{ScoreCache, clear_stales, clear_loop, value_of}
use proposer_commitment_netw.ScoreCache.Eviction.{clear_stales_ends, clear_stales_diverges, Evicts}
use proposer_commitment_netw.ScoreCache.Reads.{IsValid, insert_keeps}
use proposer_commitment_netw.Constraints.{SignedConstraints}
use proposer_commitment_netw.Template
use proposer_commitment_netw.Template.{BlockTemplate}
use proposer_commitment_netw.Template.Retain.{
  costs_of, some_nonce_below, sum, retain_lem, own_transactions, without,
}
use proposer_commitment_netw.Execution
use proposer_commitment_netw.Execution.{
  ExecutionState, default_limits, verify_txs, verify_tx, find_diffs, compute_diffs, diffs_from,
  account_of, get_account, verify_account, check_blob,
}
use proposer_commitment_netw.Execution.Head.{update_head}
use proposer_commitment_netw.Execution.Bundle.{verify_txs-CountUp, CountUp}
use proposer_commitment_netw.Execution.Reach.{at_start, head, Reach-Frozen}
use proposer_commitment_netw.Examples.{lib, float, signed_by, two_transfers}

abbrev two_entries : ScoreCache ℕ
two_entries = record { map = (5, (50, pos 4)) ∷ (6, (60, pos 1)) ∷ []; max_len = 2 }

two_entries-IsValid : IsValid two_entries
two_entries-IsValid = record {
  distinct = (refl, (refl, tt));
  bounded = omega arith;
  scores = ((omega arith, omega arith), ((omega arith, omega arith), tt));
}

clear_stales_ends_example :
    (r : Assoc (ℕ × ℤ)) × (clear_stales two_entries ≡ some (record { map = r; max_len = 2 }))
    × (length r < 2)
    × ((r ≡ two_entries.map) ⊎ Evicts 2 0 two_entries.map r)
clear_stales_ends_example = clear_stales_ends two_entries (omega arith)

abbrev no_room : ScoreCache ℕ
no_room = record { map = (5, (50, pos 4)) ∷ []; max_len = 0 }

clear_stales_diverges_example :
    (clear_loop 0 1000 0 no_room.map ≡ none) × (clear_stales no_room ≡ none)
clear_stales_diverges_example = clear_stales_diverges no_room 1000 refl

insert_keeps_example :
    (c' : ScoreCache ℕ) × (old : Option ℕ) × (ScoreCache.insert
        (pos 4)
        (pos 4)
        (pos 1)
        two_entries
        7
        70
      ≡ some (c', old))
    × IsValid c'
    × (value_of (lookup 7 c'.map) ≡ some 70)
    × ((j : ℕ) (w : ℕ)
        → j ≢ 7
        → value_of (lookup j c'.map) ≡ some w
        → value_of (lookup j two_entries.map) ≡ some w)
insert_keeps_example =
    insert_keeps (pos 4) (pos 4) (pos 1) two_entries 7 70 (omega arith) (omega arith, omega arith)
      two_entries-IsValid

abbrev signed_transfer : ℕ → ℕ → SignedConstraints
signed_transfer sender nonce = record {
  message = record {
    pubkey = 77;
    slot = 40;
    top = false;
    transactions = signed_by sender nonce ∷ [];
  };
  signature = 1;
}

abbrev template : BlockTemplate
template = record {
  state_diff = (9, (1, 65_100_005)) ∷ [];
  signed_constraints_list = signed_transfer 9 3 ∷ signed_transfer 8 0 ∷ [];
}

abbrev past : AccountState
past = record { transaction_count = 4; balance = 1_000_000_000; has_code = false }

abbrev template_after : BlockTemplate
template_after = record {
  state_diff = (9, (0, 0)) ∷ [];
  signed_constraints_list = signed_transfer 8 0 ∷ [];
}

retain_lem_example :
    (costs : List ℕ) × (costs_of {E = ValidationError} lib
        (own_transactions 9 template.signed_constraints_list)
      ≡ ok costs)
    × (template_after.signed_constraints_list ≡ (
        if ltb 1_000_000_000 (sum costs % u256_mod)
          || some_nonce_below lib 4 (own_transactions 9 template.signed_constraints_list)
        then without 9 template.signed_constraints_list
        else template.signed_constraints_list))
unfolding Template.retain Template.constraints_with_address Template.any_sender
    Template.filter_sender Template.cost_and_nonce Template.remove_rev
    Template.remove_constraints_at_index Template.settle Template.settle_one Template.remove_at
    lookup modify max_transaction_cost fee_cap add_blob_fee Tx.gas_limit Tx.value
retain_lem_example =
    retain_lem {E = ValidationError} lib template template_after 9 past (omega arith) refl

abbrev start : ExecutionState
start = Execution.new float default_limits 30_000_000 1000 10 100 1

Reach-Frozen_example :
    ((update_head lib (λ _. true) none start 33).0.block_templates ≡ [])
    × ((update_head lib (λ _. true) none start 33).0.blob_basefee ≡ 10)
Reach-Frozen_example =
    Reach-Frozen lib float default_limits 30_000_000 1000 10 100 1
      (update_head lib (λ _. true) none start 33).0 (head (λ _. true) none 33 at_start)

abbrev cached_start : ExecutionState
cached_start = record {
  block_number = 100;
  slot = 33;
  basefee = 1000;
  blob_basefee = 10;
  account_states = record {
    map =
        (9, (record { transaction_count = 3; balance = 1_000_000_000; has_code = false }, pos 4))
        ∷ [];
    max_len = 16;
  };
  block_templates = [];
  chain_id = 1;
  limits = default_limits;
  validation_params = Execution.params 30_000_000;
  pricing = record { block_gas_limit = 30_000_000; base_multiplier = 1; gas_scalar = 1 };
}

verify_txs-CountUp_example : CountUp lib 3 two_transfers.txs
unfolding verify_txs verify_tx find_diffs compute_diffs diffs_from account_of get_account
    verify_account check_blob lookup insert modify ScoreCache.get validate_transaction
    max_transaction_cost fee_cap add_blob_fee Tx.gas_limit Tx.value
verify_txs-CountUp_example =
    verify_txs-CountUp lib cached_start 40 (λ _. none) two_transfers.txs 9
      (record { transaction_count = 3; balance = 1_000_000_000; has_code = false })
      ((9, (2, 130_200_010)) ∷ []) (refl, (refl, tt)) (pos 4, refl) (omega arith) refl
