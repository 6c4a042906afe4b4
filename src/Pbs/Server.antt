-- ===== src/Pbs/Server.antt =====
-- The handlers of the PBS module (interstate-pbs-module/src/server.rs). The beacon node, the clock
-- and the relays' answers are arguments; logging and metrics of latency are left out.
pub mod Bids
pub mod Timing
use proposer_commitment_netw.Base.{
  ℕ, zero, suc, ◌+◌, ◌-◌, ◌*◌, ◌<◌, ◌≤◌, Bool, true, false, Option, none, some, List, [], ◌∷◌, ◌++◌,
  Result, ok, err, panic, ◌>>=◌, ◌>>◌, ensure, not, min, ltb, leb, ◌==◌, if◌then◌else◌,
}
use proposer_commitment_netw.Base.Words.{add_u64, mul_u64}
use proposer_commitment_netw.Pbs.Message.{ConstraintsMessage, ConstraintsWithProofData, PbsLib}
use proposer_commitment_netw.Pbs.Store.{
  ConstraintStore, StoreError, add_constraints, remove_constraints,
}
use proposer_commitment_netw.Pbs.Proofs.{
  InclusionProofs, ProofValidationError, validate_multiproofs,
}

pub data PbsClientError : Type 0 where
  no_response no_payload bad_request : PbsClientError

unfoldable pub status_code : PbsClientError → ℕ
status_code no_response = 503
status_code no_payload = 502
status_code bad_request = 400

pub record VerifiedConstraints : Type 0 where
  pub message : ConstraintsMessage
  pub signature : ℕ

abbrev pub epoch_slots : ℕ
epoch_slots = 32

abbrev pub stop_on_error :
    ConstraintStore × Result StoreError (Unit {0})
    → (ConstraintStore → ConstraintStore × Result PbsClientError (Unit {0}))
    → ConstraintStore × Result PbsClientError (Unit {0})
stop_on_error (s, ok _) rest = rest s
stop_on_error (s, err _) rest = (s, err bad_request)
stop_on_error (s, panic) rest = (s, panic)

-- The loop of `submit_constraints`. What was stored before an error stays stored.
unfoldable pub save_all :
    PbsLib
    → ℕ
    → ConstraintStore
    → List VerifiedConstraints
    → ConstraintStore × Result PbsClientError (Unit {0})
save_all lib current_slot s [] = (s, ok tt)
save_all lib current_slot s (c ∷ cs) =
    let rest = λ (s' : ConstraintStore). save_all lib current_slot s' cs in
    if ltb (add_u64 current_slot (epoch_slots * 2)) c.message.slot
    then (s, err bad_request)
    else stop_on_error (add_constraints lib s c.message.slot c.message) rest

-- Some relay answered with status 200.
unfoldable pub relay_post_request : List (Option ℕ) → Result PbsClientError (Unit {0})
relay_post_request [] = err no_response
relay_post_request (none ∷ answers) = relay_post_request answers
relay_post_request (some status ∷ answers) =
    if status == 200 then ok tt else relay_post_request answers

abbrev pub then_relay :
    ConstraintStore × Result PbsClientError (Unit {0})
    → List (Option ℕ)
    → ConstraintStore × Result PbsClientError (Unit {0})
then_relay (s, ok _) answers = (s, relay_post_request answers)
then_relay (s, err e) answers = (s, err e)
then_relay (s, panic) answers = (s, panic)

-- `current_slot` is `none` if the beacon node does not give it.
unfoldable pub submit_constraints :
    PbsLib
    → Option ℕ
    → List (Option ℕ)
    → ConstraintStore
    → List VerifiedConstraints
    → ConstraintStore × Result PbsClientError (Unit {0})
submit_constraints lib none answers s constraints = (s, err bad_request)
submit_constraints lib (some current_slot) answers s constraints =
    then_relay (save_all lib current_slot s constraints) answers

abbrev pub seconds_per_slot : ℕ
seconds_per_slot = 12

abbrev pub millis_per_second : ℕ
millis_per_second = 1_000

unfoldable pub timestamp_of_slot_start_millis : ℕ → ℕ → ℕ
timestamp_of_slot_start_millis slot genesis =
    mul_u64 (add_u64 genesis (mul_u64 slot seconds_per_slot)) millis_per_second

unfoldable pub ms_into_slot : ℕ → ℕ → ℕ → ℕ
unfolding timestamp_of_slot_start_millis
ms_into_slot utcnow_ms slot genesis = utcnow_ms - timestamp_of_slot_start_millis slot genesis

-- The time that `get_header_with_proofs` gives the relays; 0 skips them.
unfoldable pub max_timeout_ms : ℕ → ℕ → ℕ → ℕ
max_timeout_ms timeout_get_header_ms late_in_slot_time_ms ms =
    min timeout_get_header_ms (late_in_slot_time_ms - ms)

pub record Header : Type 0 where
  pub block_hash : ℕ
  pub parent_hash : ℕ
  pub transactions_root : ℕ
  pub value : ℕ
  pub pubkey : ℕ

pub data HeaderError : Type 0 where
  empty_blockhash : HeaderError
  parent_hash_mismatch : ℕ → ℕ → HeaderError
  empty_tx_root : HeaderError
  bid_too_low : ℕ → ℕ → HeaderError
  pubkey_mismatch : ℕ → ℕ → HeaderError

-- `empty_tx_root_hash` is a constant of the PBS library.
unfoldable pub validate_header : ℕ → Header → ℕ → ℕ → ℕ → Result HeaderError (Unit {0})
validate_header empty_tx_root_hash h expected_relay_pubkey parent_hash minimum_bid_wei = do
  ensure (not (h.block_hash == 0)) empty_blockhash
  ensure (parent_hash == h.parent_hash) (parent_hash_mismatch parent_hash h.parent_hash)
  ensure (not (h.transactions_root == empty_tx_root_hash)) empty_tx_root
  ensure (ltb minimum_bid_wei h.value) (bid_too_low minimum_bid_wei h.value)
  ensure (expected_relay_pubkey == h.pubkey) (pubkey_mismatch expected_relay_pubkey h.pubkey)

-- A relay's header with its proofs.
pub record Bid : Type 0 where
  pub header : Header
  pub proofs : InclusionProofs

-- `if let Some(ref constraints)`: with no saved constraints a bid needs no proof.
unfoldable pub is_proven : PbsLib → Option (List ConstraintsWithProofData) → Bid → Bool
is_proven lib none bid = true
is_proven lib (some constraints) bid =
    elim (validate_multiproofs lib constraints bid.proofs bid.header.transactions_root) [
      | ok _ ↦ true
      | err _ ↦ false
      | panic ↦ false
    ]

-- The loop over the relays' results, where `none` is no header or an error.
unfoldable pub collect_bids :
    PbsLib → Option (List ConstraintsWithProofData) → List (Option Bid) → List Header
collect_bids lib constraints [] = []
collect_bids lib constraints (none ∷ results) = collect_bids lib constraints results
collect_bids lib constraints (some bid ∷ results) =
    if is_proven lib constraints bid
    then bid.header ∷ collect_bids lib constraints results
    else collect_bids lib constraints results

-- `max_by_key` returns the last of several maxima.
abbrev pub later_max : Header → Option Header → Header
later_max h none = h
later_max h (some best) = if ltb best.value h.value then h else best

unfoldable pub max_by_value : List Header → Option Header
max_by_value [] = none
max_by_value (h ∷ hs) = some (later_max h (max_by_value hs))

-- From the relays' results on: the constraints of the slot are taken, and the best proven bid is
-- the answer (`none` is NO_CONTENT).
unfoldable pub choose_header :
    PbsLib → ConstraintStore → ℕ → List (Option Bid) → ConstraintStore × Option Header
choose_header lib s slot results =
    let (s', maybe_constraints) = remove_constraints s slot in
    (s', max_by_value (collect_bids lib maybe_constraints results))

-- `get_header_with_proofs`; with no time left the relays are not asked and nothing is taken.
unfoldable pub get_header_with_proofs :
    PbsLib → ℕ → ConstraintStore → ℕ → List (Option Bid) → ConstraintStore × Option Header
unfolding choose_header
get_header_with_proofs lib timeout s slot results =
    if timeout == 0 then (s, none) else choose_header lib s slot results
