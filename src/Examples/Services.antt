-- ===== src/Examples/Services.antt =====
-- Concrete runs of the commitment server's handler, the state fetcher, the store of constraints and
-- the timing of the requests to a relay.
use proposer_commitment_netw.Base.{
  ℕ, zero, suc, ◌≡◌, ◌↔◌, refl, Bool, true, false, Option, none, some, List, [], ◌∷◌, Result, ok,
  err, All, length, arith,
}
use proposer_commitment_netw.Base.Assoc.{Assoc, lookup, insert, modify}
use proposer_commitment_netw.Base.Int.{pos}
use proposer_commitment_netw.Tx.Fees.{AccountState}
use proposer_commitment_netw.Execution.Head.{StateUpdate}
use proposer_commitment_netw.Fetcher.{
  TransportError, AccountAnswers, FeeHistory, account_state, get_state_update, nonce_pass,
  balance_pass, code_pass, pass, get_basefee, get_blob_basefee,
}
use proposer_commitment_netw.Fetcher.Updates.{get_state_update-account_state}
use proposer_commitment_netw.Commitment.{EventLoop, handle_commitment_request}
use proposer_commitment_netw.Commitment.Admission.{SignedBy, handle_commitment_request_iff}
use proposer_commitment_netw.Digest.{request_digest}
use proposer_commitment_netw.Pbs.Message.{ConstraintsMessage}
use proposer_commitment_netw.Pbs.Store.{ConstraintStore, total_constraints}
use proposer_commitment_netw.Pbs.Store.Invariant.{IsValid}
use proposer_commitment_netw.Pbs.Store.Lookup.{stored}
use proposer_commitment_netw.Pbs.Store.Refinement.{
  Call, add, take, clean, run, spec_run, run_refines,
}
use proposer_commitment_netw.Pbs.Server.Timing.{RelayConfig, Sending, requests, delay_of}
use proposer_commitment_netw.Pbs.Server.Timing.Deadlines.{EndsAt, Spaced, requests_end}
use proposer_commitment_netw.Examples.{lib, pbs_lib, two_transfers}

abbrev message : ConstraintsMessage
message = record { pubkey = 77; slot = 40; top = false; transactions = (2 ∷ 9 ∷ []) ∷ [] }

abbrev empty : ConstraintStore
empty = record { cache = []; gauge = pos 0 }

empty-IsValid : IsValid empty
unfolding total_constraints
empty-IsValid = record { distinct = tt; slots = tt; counted = refl }

abbrev calls : List Call
calls = add 40 message ∷ add 40 message ∷ add 41 message ∷ take 40 ∷ clean 41 ∷ []

run_refines_example :
    IsValid (run pbs_lib empty calls)
    × (stored (run pbs_lib empty calls) ≡ spec_run pbs_lib (stored empty) calls)
run_refines_example = run_refines pbs_lib empty calls empty-IsValid

-- A signature recovers to account 9.
abbrev recover : ℕ → ℕ → Option ℕ
recover signature digest = some 9

abbrev event_loop : EventLoop
event_loop = record { has_room = true; respond = λ request. some (ok none) }

handle_commitment_request_iff_example :
    ((handle_commitment_request lib length recover event_loop two_transfers).0 ≡ some two_transfers)
    ↔ ((recover 0 (request_digest lib length two_transfers) ≡ some 9)
        × All (SignedBy lib 9) two_transfers.txs
        × (◌≡◌ {A = Bool} true true))
handle_commitment_request_iff_example =
    handle_commitment_request_iff lib length recover event_loop two_transfers

abbrev batch : Assoc AccountAnswers
batch =
    (9, record { nonce = some 3; balance = some 100; code = some [] })
    ∷ (7, record { nonce = some 1; balance = some 0; code = some (96 ∷ []) })
    ∷ []

abbrev fees : FeeHistory
fees = record { latest_block_base_fee = some 50; latest_block_blob_base_fee = none }

abbrev state_update : StateUpdate
state_update = record {
  account_states =
      (9, record { transaction_count = 3; balance = 100; has_code = false })
      ∷ (7, record { transaction_count = 1; balance = 0; has_code = true })
      ∷ [];
  min_basefee = 50;
  min_blob_basefee = 0;
  block_number = 12;
}

fetched : get_state_update none (some 12) (some batch) (some fees) (some fees) ≡ ok state_update
unfolding get_state_update nonce_pass balance_pass code_pass pass get_basefee get_blob_basefee
    lookup insert modify
fetched = refl

get_state_update-account_state_example :
    ((k : ℕ) (answers : AccountAnswers)
      → lookup k batch ≡ some answers
      → (a : AccountState) × (account_state (some answers) ≡ ok a)
        × (lookup k state_update.account_states ≡ some a))
    × ((k : ℕ) → lookup k batch ≡ none → lookup k state_update.account_states ≡ none)
get_state_update-account_state_example =
    get_state_update-account_state none (some 12) batch (some fees) (some fees) state_update
      (refl, (refl, tt)) fetched

abbrev nine : AccountState
nine = record { transaction_count = 3; balance = 100; has_code = false }

-- The first try fails.
abbrev tries : ℕ → Result TransportError AccountState
tries zero = err TransportError.transport
tries (suc n) = ok nine

abbrev games : RelayConfig
games = record {
  enable_timing_games = true;
  target_first_request_ms = some 200;
  frequency_get_header_ms = some 300;
}

requests_end_example :
    (sendings : List Sending) × (requests 951 games 150 950 ≡ some sendings)
    × All (EndsAt 950) sendings
    × Spaced 300 (delay_of (some 200) 150) sendings
requests_end_example = requests_end games 300 150 950 refl refl (omega arith) (omega arith)
