-- ===== src/State.antt =====
-- `ConstraintState` (interstate-gateway/src/state/mod.rs): the constraints per slot, the head, the
-- proposers of the epoch and the commitment deadline. The clock and the answers of the beacon node
-- are arguments.
pub mod Head
pub mod Checks
pub mod Listener
pub mod Epochs
pub mod Blocks
use proposer_commitment_netw.Base.{
  ℕ, zero, suc, ◌+◌, ◌-◌, ◌*◌, ◌/◌, ◌<◌, ◌≤◌, Bool, true, false, Option, none, some, List, [], ◌∷◌,
  ◌++◌, map, Result, ok, err, panic, ◌>>=◌, ◌>>◌, ensure, ok_or, not, length, ltb, leb, ◌==◌, ◌&&◌,
  ◌||◌, if◌then◌else◌,
}
use proposer_commitment_netw.Base.Assoc
use proposer_commitment_netw.Base.Assoc.{Assoc}
use proposer_commitment_netw.Base.Words.{add_u64, mul_u64}
use proposer_commitment_netw.Tx
use proposer_commitment_netw.Tx.{PooledTransactionsElement, BlobTransactionSidecar, Constraint}
use proposer_commitment_netw.Template.{gas_from}
use proposer_commitment_netw.Constraints.{SignedConstraints}
use proposer_commitment_netw.Execution.{ExecutionState}

pub data StateError : Type 0 where
  invalid_slot : ℕ → StateError
  deadline_expired no_validator_in_slot failed_fetching_proposer_duties : StateError
  max_retries_exceeded timeout : StateError
  invalid_chain_id : ℕ → ℕ → StateError
  overflow_commitments_amount overflow_gas_limit overflow_input_bytes : StateError
  overflow_code_bytes overflow_priority_fee slot_passed execution_failed : StateError

pub record ProposerDuty : Type 0 where
  pub public_key : ℕ
  pub slot : ℕ

pub record Epoch : Type 0 where
  pub value : ℕ
  pub start_slot : ℕ
  pub proposer_duties : List ProposerDuty

pub record Block : Type 0 where
  pub signed_constraints_list : List SignedConstraints

abbrev pub default_block : Block
default_block = record { signed_constraints_list = [] }

-- The methods of `Block`.
unfoldable pub add_constraints : SignedConstraints → Block → Block
add_constraints c b = record { signed_constraints_list = b.signed_constraints_list ++ (c ∷ []) }

unfoldable pub replace_constraints : List SignedConstraints → Block → Block
replace_constraints cs b = record { signed_constraints_list = cs }

unfoldable pub transactions_count : Block → ℕ
transactions_count b = length b.signed_constraints_list

unfoldable pub block_gas {ℓ} : {E : Type ℓ} → Block → Result E ℕ
block_gas b = gas_from 0 b.signed_constraints_list

unfoldable pub constraints_of : List SignedConstraints → List Constraint
constraints_of [] = []
constraints_of (sc ∷ scs) = sc.message.transactions ++ constraints_of scs

unfoldable pub get_transactions : Block → List PooledTransactionsElement
get_transactions b = map (λ c. c.tx) (constraints_of b.signed_constraints_list)

abbrev pub add_sidecar :
    Option BlobTransactionSidecar → BlobTransactionSidecar → BlobTransactionSidecar
add_sidecar none rest = rest
add_sidecar (some s) rest = record {
  blobs = s.blobs ++ rest.blobs;
  commitments = s.commitments ++ rest.commitments;
  proofs = s.proofs ++ rest.proofs;
}

unfoldable pub bundle_of : List Constraint → BlobTransactionSidecar
bundle_of [] = record { blobs = []; commitments = []; proofs = [] }
bundle_of (c ∷ cs) = add_sidecar (Tx.blob_sidecar c.tx) (bundle_of cs)

unfoldable pub parse_to_blobs_bundle : Block → BlobTransactionSidecar
parse_to_blobs_bundle b = bundle_of (constraints_of b.signed_constraints_list)

-- `CommitmentDeadline`: `sleep` is the time at which it is over, `none` once it was waited for.
pub record CommitmentDeadline : Type 0 where
  pub slot : ℕ
  pub sleep : Option ℕ

unfoldable pub deadline : ℕ → ℕ → ℕ → CommitmentDeadline
deadline slot duration now = record { slot = slot; sleep = some (now + duration) }

pub data Poll : Type 0 where
  ready : Option ℕ → Poll
  pending : Poll

unfoldable pub poll_sleep : ℕ → Option ℕ → ℕ → Poll
poll_sleep slot none now = ready none
poll_sleep slot (some at) now = if leb at now then ready (some slot) else pending

unfoldable pub poll : CommitmentDeadline → ℕ → Poll
unfolding poll_sleep
poll d now = poll_sleep d.slot d.sleep now

abbrev pub waited : CommitmentDeadline → Poll → CommitmentDeadline × Poll
waited d (ready o) = (record d { sleep = none }, ready o)
waited d pending = (d, pending)

-- `wait`, polled at the time `now`.
unfoldable pub wait : CommitmentDeadline → ℕ → CommitmentDeadline × Poll
wait d now = waited d (poll d now)

pub record ConstraintState : Type 0 where
  pub blocks : Assoc Block
  pub commitment_deadline : CommitmentDeadline
  pub deadline_duration : ℕ
  pub latest_slot : ℕ
  pub latest_slot_timestamp : ℕ
  pub current_epoch : Epoch
  -- the slot of `header`
  pub header : ℕ
  pub max_commitments_in_block : ℕ
  pub max_commitment_gas : ℕ
  pub block_gas_limit : ℕ
  pub max_tx_input_bytes : ℕ
  pub max_init_code_byte_size : ℕ
  -- the chain's id in `config`
  pub chain_id : ℕ
  pub execution : ExecutionState

-- Times are in milliseconds.
unfoldable pub new : ℕ → ExecutionState → ℕ → ℕ → ConstraintState
new commitment_deadline_duration execution chain_id now = record {
  blocks = [];
  commitment_deadline = deadline 0 100 now;
  deadline_duration = commitment_deadline_duration;
  latest_slot = 0;
  latest_slot_timestamp = now;
  current_epoch = record { value = 0; start_slot = 0; proposer_duties = [] };
  header = 0;
  max_commitments_in_block = 128;
  max_commitment_gas = 10_000_000;
  block_gas_limit = 30_000_000;
  max_tx_input_bytes = 4 * 32 * 1024;
  max_init_code_byte_size = 2 * 24576;
  chain_id = chain_id;
  execution = execution;
}

abbrev pub block_or_default : Option Block → Block
block_or_default none = default_block
block_or_default (some b) = b

abbrev pub block_at : Assoc Block → ℕ → Block
block_at blocks slot = block_or_default (Assoc.lookup slot blocks)

unfoldable pub add_constraint : ConstraintState → ℕ → SignedConstraints → ConstraintState
add_constraint st slot c = record st {
  blocks = Assoc.insert slot (add_constraints c (block_at st.blocks slot)) st.blocks;
}

unfoldable pub replace : ConstraintState → ℕ → List SignedConstraints → ConstraintState
replace st slot cs = record st {
  blocks = Assoc.insert slot (replace_constraints cs (block_at st.blocks slot)) st.blocks;
}

unfoldable pub remove_constraints_at_slot : ConstraintState → ℕ → ConstraintState × Option Block
remove_constraints_at_slot st slot =
    (record st { blocks = Assoc.remove slot st.blocks }, Assoc.lookup slot st.blocks)

unfoldable pub find_duty : ℕ → List ProposerDuty → Option ℕ
find_duty slot [] = none
find_duty slot (d ∷ ds) = if d.slot == slot then some d.public_key else find_duty slot ds

unfoldable pub find_validator_pubkey_for_slot : ConstraintState → ℕ → Result StateError ℕ
find_validator_pubkey_for_slot st slot =
    ok_or (find_duty slot st.current_epoch.proposer_duties) no_validator_in_slot
