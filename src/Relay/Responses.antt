-- ===== src/Relay/Responses.antt =====
-- `CommitBoostError` and its HTTP response (interstate-gateway/src/errors/mod.rs). A response is its
-- status, without its body.
use proposer_commitment_netw.Base.{
  ℕ, ◌≤◌, ◌<◌, ◌≡◌, ◌↔◌, ◌⊎◌, Result, ok, panic, ltb, leb, ◌&&◌, inl, inr, if◌then◌else◌, arith,
}
use proposer_commitment_netw.Base.Text.{Text}

pub record ErrorResponse : Type 0 where
  pub code : ℕ
  pub message : Text

pub data CommitBoostError : Type 0 where
  failed_registering_validators failed_getting_header failed_getting_payload
        failed_submitting_constraints failed_delegating failed_revoking :
      ErrorResponse → CommitBoostError
  failed_to_fetch_local_payload : ℕ → CommitBoostError
  axum_error json_error reqwest_error timeout local_payload_integrity : CommitBoostError
  invalid_fork generic unauthorized : Text → CommitBoostError

-- `StatusCode::from_u16`, of a library, takes the codes of three digits; the code unwraps.
unfoldable pub status_from : ErrorResponse → Result (Unit {0}) ℕ
status_from error = if leb 100 error.code && ltb error.code 1_000 then ok error.code else panic

unfoldable pub into_response : CommitBoostError → Result (Unit {0}) ℕ
unfolding status_from
into_response (failed_registering_validators error) = status_from error
into_response (failed_getting_header error) = status_from error
into_response (failed_getting_payload error) = status_from error
into_response (failed_submitting_constraints error) = status_from error
into_response (failed_delegating error) = status_from error
into_response (failed_revoking error) = status_from error
into_response axum_error = ok 400
into_response json_error = ok 400
into_response (failed_to_fetch_local_payload slot) = ok 204
into_response reqwest_error = ok 500
into_response timeout = ok 504
into_response (invalid_fork message) = ok 400
into_response (generic message) = ok 500
into_response local_payload_integrity = ok 400
into_response (unauthorized message) = ok 401

-- The code that the relay has put into the body of an error.
abbrev pub relay_code : CommitBoostError → ℕ
relay_code (failed_registering_validators error) = error.code
relay_code (failed_getting_header error) = error.code
relay_code (failed_getting_payload error) = error.code
relay_code (failed_submitting_constraints error) = error.code
relay_code (failed_delegating error) = error.code
relay_code (failed_revoking error) = error.code
relay_code _ = 500

-- A code has not three digits.
abbrev pub Unfit : ℕ → Type 0
Unfit code = (code < 100) ⊎ (1_000 ≤ code)

status_from_iff : (error : ErrorResponse) → (status_from error ≡ panic) ↔ Unfit error.code
unfolding status_from
status_from_iff error = (λ h. ground arith, λ h. ground arith)

never : (status : ℕ) → (◌≡◌ {A = Result (Unit {0}) ℕ} (ok status) panic) ↔ Unfit 500
never status =
    (λ h. absurd (cc), λ u. elim u [ inl h ↦ absurd (omega arith) | inr h ↦ absurd (omega arith) ])

-- The response panics exactly if it passes on a relay's code that has not three digits.
pub into_response-panic : (e : CommitBoostError) → (into_response e ≡ panic) ↔ Unfit (relay_code e)
unfolding into_response
into_response-panic (failed_registering_validators error) = status_from_iff error
into_response-panic (failed_getting_header error) = status_from_iff error
into_response-panic (failed_getting_payload error) = status_from_iff error
into_response-panic (failed_submitting_constraints error) = status_from_iff error
into_response-panic (failed_delegating error) = status_from_iff error
into_response-panic (failed_revoking error) = status_from_iff error
into_response-panic axum_error = never _
into_response-panic json_error = never _
into_response-panic (failed_to_fetch_local_payload slot) = never _
into_response-panic reqwest_error = never _
into_response-panic timeout = never _
into_response-panic (invalid_fork message) = never _
into_response-panic (generic message) = never _
into_response-panic local_payload_integrity = never _
into_response-panic (unauthorized message) = never _
