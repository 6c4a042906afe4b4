-- ===== src/Commitment.antt =====
-- The commitment server's handler (`CommitmentRequestHandler` of
-- interstate-gateway/src/commitment/request.rs, `handle_preconfirmation` and the status codes of
-- interstate-gateway/src/commitment/mod.rs). The recovery of a signer, the state of the channel to
-- the event loop and its answer are arguments.
pub mod Admission
use proposer_commitment_netw.Base.{
  ℕ, Bool, true, false, Option, none, some, List, [], ◌∷◌, Result, ok, err, panic, ◌>>=◌, ◌>>◌,
  ensure, ok_or, all_of, unwrap_or, ◌==◌, if◌then◌else◌,
}
use proposer_commitment_netw.Tx.{TxLib, Constraint, validate}
use proposer_commitment_netw.Request.{PreconfRequest}
use proposer_commitment_netw.Constraints.{SignedConstraints}
use proposer_commitment_netw.Digest.{request_digest}

-- The first six are `Custom`, by their message; the last of them is the event loop's.
pub data CommitmentRequestError : Type 0 where
  signer_not_recovered invalid_signature invalid_sender overloaded no_response rejected :
      CommitmentRequestError
  parse : CommitmentRequestError
  not_allowed_ip : CommitmentRequestError

unfoldable pub status_code : CommitmentRequestError → ℕ
status_code parse = 400
status_code not_allowed_ip = 401
status_code _ = 500

-- What the event loop's answer holds under the name `signed_contraints_list`, if it can be read.
abbrev pub Answer : Type 0
Answer = Option (List SignedConstraints)

-- The channel has room for the event; `none` is a response channel that was closed.
pub record EventLoop : Type 0 where
  pub has_room : Bool
  pub respond : PreconfRequest → Option (Result CommitmentRequestError Answer)

-- The event that was sent, if one was, and the result.
abbrev pub Handled : Type 0
Handled = Option PreconfRequest × Result CommitmentRequestError Answer

module _ (lib : TxLib) (keccak256 : List ℕ → ℕ) (recover : ℕ → ℕ → Option ℕ) where
  -- The checks before the event is sent.
  unfoldable pub check_request : PreconfRequest → Result CommitmentRequestError (Unit {0})
  check_request request = do
    recovered_signer ←
        ok_or (recover request.signature (request_digest lib keccak256 request))
          signer_not_recovered
    ensure (recovered_signer == request.sender) invalid_signature
    ensure (all_of (λ tx. validate lib tx request.sender) request.txs) invalid_sender

  abbrev pub received :
      Option (Result CommitmentRequestError Answer) → Result CommitmentRequestError Answer
  received none = err no_response
  received (some response) = response

  abbrev pub try_send : EventLoop → PreconfRequest → Handled
  try_send loop request =
      if loop.has_room
      then (some request, received (loop.respond request))
      else (none, err overloaded)

  abbrev pub after_check :
      Result CommitmentRequestError (Unit {0}) → EventLoop → PreconfRequest → Handled
  after_check (ok _) loop request = try_send loop request
  after_check (err e) loop request = (none, err e)
  after_check panic loop request = (none, panic)

  unfoldable pub handle_commitment_request : EventLoop → PreconfRequest → Handled
  unfolding check_request
  handle_commitment_request loop request = after_check (check_request request) loop request

  -- `handle_preconfirmation`: the list of the response, or the status of the error.
  abbrev pub response_of : Result CommitmentRequestError Answer → Result ℕ (List SignedConstraints)
  response_of (ok answer) = ok (unwrap_or answer [])
  response_of (err e) = err (status_code e)
  response_of panic = panic

  unfoldable pub handle_preconfirmation :
      EventLoop → PreconfRequest → Option PreconfRequest × Result ℕ (List SignedConstraints)
  unfolding handle_commitment_request status_code
  handle_preconfirmation loop request =
      let (event, r) = handle_commitment_request loop request in (event, response_of r)
