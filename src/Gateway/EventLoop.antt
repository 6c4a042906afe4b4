-- ===== src/Gateway/EventLoop.antt =====
-- The event loop (interstate-gateway/src/main.rs) as steps of a system: the constraint state, the
-- fallback builder, the proxy and the handlers that were spawned and have not run. The loop holds the
-- lock of the constraint state while it waits, and each handler holds it from start to end, so they
-- run one after the other, but in any order. Four logs, which no code reads, say what happened.
pub mod Blocks
pub mod Heads
pub mod Sent
pub mod Offered
pub mod Kept
use proposer_commitment_netw.Base.{
  ℕ, ◌≡◌, Bool, true, false, Option, none, some, List, [], ◌∷◌, ◌++◌, Result, ok, err, panic,
}
use proposer_commitment_netw.Base.Words.{add_u64}
use proposer_commitment_netw.Tx.{TxLib}
use proposer_commitment_netw.Tx.Fees.{AccountState}
use proposer_commitment_netw.Pricing.{F64}
use proposer_commitment_netw.Request.{PreconfRequest}
use proposer_commitment_netw.Constraints.{SignedConstraints}
use proposer_commitment_netw.Execution.Head.{StateUpdate}
use proposer_commitment_netw.Execution.{ExecutionState}
use proposer_commitment_netw.State
use proposer_commitment_netw.Proxy
use proposer_commitment_netw.State.{
  StateError, ProposerDuty, Block, ConstraintState, CommitmentDeadline, Poll, ready, pending, wait,
}
use proposer_commitment_netw.State.Head.{Attempt, get_beacon_header_with_retry}
use proposer_commitment_netw.Builder.{BuilderLib}
use proposer_commitment_netw.Builder.Sealing.{Node}
use proposer_commitment_netw.Builder.Fallback.{
  FallbackBuilder, PayloadAndBid, build_fallback_payload,
}
use proposer_commitment_netw.Proxy.{
  ConstraintsApiProxyServer, CommitBoostError, VersionedValue, get_header, fetch_payload,
}
use proposer_commitment_netw.Gateway.{
  DelegationMessage, Response, accepted, rejected, unanswered, Signer,
  handle_preconfirmation_request, handle_commitment_deadline, handle_head_event,
}

-- A handler that was spawned.
pub data Task : Type 0 where
  preconfirmation_request : PreconfRequest → Task
  commitment_deadline head_event : ℕ → Task

pub record System : Type 0 where
  pub constraint_state : ConstraintState
  pub fallback_builder : FallbackBuilder
  pub server : ConstraintsApiProxyServer
  pub tasks : List Task
  -- the accepted requests, by slot and constraints
  pub promises : List (ℕ × List SignedConstraints)
  -- the blocks whose constraints were given to the relay's client
  pub sent : List (ℕ × Block)
  -- the heads that were handled, and the slots of the headers fetched for them
  pub heads : List ℕ
  pub headers : List ℕ

-- The state at the start of the loop.
unfoldable pub start : ExecutionState → FallbackBuilder → ℕ → ℕ → ℕ → System
start execution builder commitment_deadline_duration chain_id now = record {
  constraint_state = State.new commitment_deadline_duration execution chain_id now;
  fallback_builder = record builder { payload_and_bid = none };
  server = Proxy.new;
  tasks = [];
  promises = [];
  sent = [];
  heads = [];
  headers = [];
}

-- What a handler meets outside: the execution client, the delegations of the relay, the clock, the
-- beacon node and the engine.
pub record World : Type 0 where
  pub fetch : ℕ → Option AccountState
  pub delegations : Option (List DelegationMessage)
  pub now : ℕ
  pub started : ℕ
  pub beacon_headers : ℕ → Attempt
  pub duties : ℕ → Option (List ProposerDuty)
  pub receipts : List ℕ → Bool
  pub update : Option StateUpdate
  pub node : Node

abbrev pub log_promise : ℕ → Option Response → System → System
log_promise slot (some (accepted list)) s = record s { promises = (slot, list) ∷ s.promises }
log_promise slot (some (rejected e)) s = s
log_promise slot (some unanswered) s = s
log_promise slot none s = s

abbrev pub log_header : Result StateError ℕ → List ℕ → List ℕ
log_header (ok slot) slots = slot ∷ slots
log_header (err e) slots = slots
log_header panic slots = slots

module _ (lib : TxLib) (f : F64) (builder_lib : BuilderLib) (sign : Signer) (pubkeys : List ℕ) where
  -- The rest of `handle_commitment_deadline`, once a block was taken out.
  abbrev pub send_and_build : World → ℕ → ConstraintState × Option Block → System → System
  send_and_build w slot (st, none) s = record s { constraint_state = st }
  send_and_build w slot (st, some block) s = record s {
    constraint_state = st;
    sent = (slot, block) ∷ s.sent;
    fallback_builder = (build_fallback_payload builder_lib w.node s.fallback_builder block slot).0;
  }

  unfoldable pub run_task : World → Task → System → System
  run_task w (preconfirmation_request req) s =
      let (st, response) =
        handle_preconfirmation_request lib f w.fetch sign pubkeys w.delegations s.constraint_state
          req w.now in
      log_promise req.slot response (record s { constraint_state = st })
  run_task w (commitment_deadline slot) s =
      send_and_build w slot (handle_commitment_deadline s.constraint_state slot) s
  run_task w (head_event slot) s = record s {
    constraint_state =
        handle_head_event lib w.beacon_headers w.duties w.receipts w.update w.started w.now
          s.constraint_state slot;
    heads = slot ∷ s.heads;
    headers = log_header (get_beacon_header_with_retry w.beacon_headers) s.headers;
  }

-- The branches of `select!` spawn a handler, or none, if the deadline was waited for before.
unfoldable pub spawn : Task → System → System
spawn t s = record s { tasks = s.tasks ++ (t ∷ []) }

abbrev pub spawn_deadline : System → CommitmentDeadline × Poll → System
spawn_deadline s (d, ready (some slot)) =
    spawn (commitment_deadline (add_u64 slot 1))
      (record s { constraint_state = record s.constraint_state { commitment_deadline = d } })
spawn_deadline s (d, ready none) = record s {
  constraint_state = record s.constraint_state { commitment_deadline = d };
}
spawn_deadline s (d, pending) = s

unfoldable pub poll_deadline : ℕ → System → System
unfolding spawn
poll_deadline now s = spawn_deadline s (wait s.constraint_state.commitment_deadline now)

-- A header that the proxy is asked for. Only if the relay gives none is the payload of the builder
-- fetched, by a message that the loop handles at once.
abbrev pub is_given : Option (Result CommitBoostError VersionedValue) → Bool
is_given (some (ok header)) = true
is_given (some panic) = true
is_given (some (err e)) = false
is_given none = false

abbrev pub fetched_unless : Bool → FallbackBuilder → Bool → FallbackBuilder × Option PayloadAndBid
fetched_unless true b response_open = (b, none)
fetched_unless false b response_open = fetch_payload b true response_open

unfoldable pub ask_header :
    ℕ → Option (Result CommitBoostError VersionedValue) → Bool → System → System
ask_header slot relay response_open s =
    let (b, fetched) = fetched_unless (is_given relay) s.fallback_builder response_open in
    record s { fallback_builder = b; server = (get_header s.server slot relay fetched).0 }

module _ (lib : TxLib) (f : F64) (builder_lib : BuilderLib) (sign : Signer) (pubkeys : List ℕ) where
  pub data Step (s : System) : System → Type 0 where
    receive_request : (req : PreconfRequest) → Step s (spawn (preconfirmation_request req) s)
    reach_deadline : (now : ℕ) → Step s (poll_deadline now s)
    receive_head : (slot : ℕ) → Step s (spawn (head_event slot) s)
    request_header :
        (slot : ℕ) (relay : Option (Result CommitBoostError VersionedValue)) (response_open : Bool)
        → Step s (ask_header slot relay response_open s)
    run :
        (w : World) (before : List Task) (t : Task) (after : List Task)
        → s.tasks ≡ before ++ (t ∷ after)
        → Step s
            (run_task lib f builder_lib sign pubkeys w t (record s { tasks = before ++ after }))

  pub data Reach (s : System) : System → Type 0 where
    here : Reach s s
    next : {t u : System} → Reach s t → Step t u → Reach s u
