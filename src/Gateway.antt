-- ===== src/Gateway.antt =====
-- The handlers of the gateway's event loop (interstate-gateway/src/main.rs). Each holds the lock of
-- the constraint state from start to end, so a run is a sequence of handlers. Delegations, signing
-- and what the relay and the builder do with a block are arguments.
pub mod Deadline
pub mod Promises
pub mod Amounts
pub mod EventLoop
use proposer_commitment_netw.Base.{
  ℕ, ◌+◌, Bool, true, false, Option, none, some, List, [], ◌∷◌, ◌++◌, Result, ok, err, panic, ◌==◌,
  ◌&&◌, any_of, if◌then◌else◌,
}
use proposer_commitment_netw.Base.Words.{add_u64}
use proposer_commitment_netw.Tx.{TxLib, Constraint}
use proposer_commitment_netw.Tx.Fees.{AccountState}
use proposer_commitment_netw.Pricing.{F64}
use proposer_commitment_netw.Request.{PreconfRequest}
use proposer_commitment_netw.Constraints.{ConstraintsMessage, SignedConstraints, from_tx}
use proposer_commitment_netw.Execution
use proposer_commitment_netw.Execution.Head.{StateUpdate}
use proposer_commitment_netw.State.{
  StateError, ProposerDuty, Block, ConstraintState, CommitmentDeadline, Poll, ready, pending, wait,
  add_constraint, remove_constraints_at_slot,
}
use proposer_commitment_netw.State
use proposer_commitment_netw.State.Head.{Attempt}
use proposer_commitment_netw.State.Checks.{validate_preconf_request}

pub record DelegationMessage : Type 0 where
  pub validator_pubkey : ℕ
  pub delegatee_pubkey : ℕ

-- What a request is answered: the signed constraints, the error of the validation, or nothing, if
-- the signer fails.
pub data Response : Type 0 where
  accepted : List SignedConstraints → Response
  rejected : StateError → Response
  unanswered : Response

abbrev pub Signer : Type 0
Signer = ConstraintsMessage → ℕ → Option ℕ

-- The inner loop, over the transactions: a constraint for each, until the signer fails.
abbrev pub Signing : Type 0
Signing = ConstraintState × Option (List SignedConstraints)

abbrev pub then_sign : Signing → (ConstraintState → List SignedConstraints → Signing) → Signing
then_sign (st, none) k = (st, none)
then_sign (st, some list) k = k st list

module _ (sign : Signer) (slot : ℕ) where
  abbrev pub commit :
      ConstraintState → List SignedConstraints → ConstraintsMessage → Option ℕ → Signing
  commit st list message none = (st, none)
  commit st list message (some signature) =
      let signed : SignedConstraints = record { message = message; signature = signature } in
      (add_constraint st slot signed, some (list ++ (signed ∷ [])))

  unfoldable pub sign_txs : ℕ → ConstraintState → List SignedConstraints → List Constraint → Signing
  sign_txs delegatee st list [] = (st, some list)
  sign_txs delegatee st list (tx ∷ txs) =
      let message = from_tx delegatee slot tx in
      then_sign (commit st list message (sign message delegatee))
        λ st' list'. sign_txs delegatee st' list' txs

  abbrev pub concerns : ℕ → List ℕ → DelegationMessage → Bool
  concerns pubkey pubkeys d =
      d.validator_pubkey == pubkey && any_of (λ k. k == d.delegatee_pubkey) pubkeys

  -- The outer loop, over the delegations of the slot.
  unfoldable pub sign_all :
      ℕ
      → List ℕ
      → ConstraintState
      → List SignedConstraints
      → List DelegationMessage
      → List Constraint
      → Signing
  sign_all pubkey pubkeys st list [] txs = (st, some list)
  sign_all pubkey pubkeys st list (d ∷ ds) txs =
      let rest = λ (st' : ConstraintState) (list' : List SignedConstraints).
        sign_all pubkey pubkeys st' list' ds txs in
      if concerns pubkey pubkeys d
      then then_sign (sign_txs d.delegatee_pubkey st list txs) rest
      else rest st list

  abbrev pub answered : Signing → ConstraintState × Response
  answered (st, none) = (st, unanswered)
  answered (st, some list) = (st, accepted list)

-- `none` for the delegations is a failure to get them, `none` for the response a panic of the
-- handler.
abbrev pub respond :
    Signer
    → ℕ
    → List ℕ
    → Option (List DelegationMessage)
    → List Constraint
    → ConstraintState × Result StateError ℕ
    → ConstraintState × Option Response
respond sign slot pubkeys none txs (st, ok pubkey) = (st, none)
respond sign slot pubkeys (some delegations) txs (st, ok pubkey) =
    let (st', r) = answered sign slot (sign_all sign slot pubkey pubkeys st [] delegations txs) in
    (st', some r)
respond sign slot pubkeys delegations txs (st, err e) = (st, some (rejected e))
respond sign slot pubkeys delegations txs (st, panic) = (st, none)

unfoldable pub handle_preconfirmation_request :
    TxLib
    → F64
    → (ℕ → Option AccountState)
    → Signer
    → List ℕ
    → Option (List DelegationMessage)
    → ConstraintState
    → PreconfRequest
    → ℕ
    → ConstraintState × Option Response
handle_preconfirmation_request lib f fetch sign pubkeys delegations st req now =
    respond sign req.slot pubkeys delegations req.txs
      (validate_preconf_request lib f fetch st req now)

-- The block that is sent to the relay and built as the fallback payload, if there is one.
unfoldable pub handle_commitment_deadline : ConstraintState → ℕ → ConstraintState × Option Block
handle_commitment_deadline st slot = remove_constraints_at_slot st slot

abbrev pub on_deadline :
    ConstraintState → CommitmentDeadline × Poll → ConstraintState × Option Block
on_deadline st (d, ready (some slot)) =
    handle_commitment_deadline (record st { commitment_deadline = d }) (add_u64 slot 1)
on_deadline st (d, ready none) = (record st { commitment_deadline = d }, none)
on_deadline st (d, pending) = (record st { commitment_deadline = d }, none)

-- The branch of the event loop that waits for the deadline, at the time `now`.
unfoldable pub deadline_event : ConstraintState → ℕ → ConstraintState × Option Block
deadline_event st now = on_deadline st (wait st.commitment_deadline now)

abbrev pub set_execution :
    ConstraintState × Result StateError (Unit {0})
    → TxLib
    → (List ℕ → Bool)
    → Option StateUpdate
    → ℕ
    → ConstraintState
set_execution (st, result) lib receipts update slot = record st {
  execution = (Execution.Head.update_head lib receipts update st.execution slot).0;
}

-- Both updates are made, whatever the first comes to; their errors are logged.
unfoldable pub handle_head_event :
    TxLib
    → (ℕ → Attempt)
    → (ℕ → Option (List ProposerDuty))
    → (List ℕ → Bool)
    → Option StateUpdate
    → ℕ
    → ℕ
    → ConstraintState
    → ℕ
    → ConstraintState
handle_head_event lib headers duties receipts update started now st slot =
    set_execution (State.Head.update_head headers duties started now st slot) lib receipts update
      slot
