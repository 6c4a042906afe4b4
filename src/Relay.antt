-- ===== src/Relay.antt =====
-- `CommitBoostApi` (interstate-gateway/src/constraints/mod.rs): the requests to the relay. The answer
-- to a request is an argument, `none` if there is none; the bodies that are sent can always be
-- written.
pub mod Responses
pub mod Retries
use proposer_commitment_netw.Base.{
  ℕ, zero, suc, Bool, true, false, Option, none, some, List, Result, ok, err, panic, ◌>>=◌, ◌>>◌,
  ensure, ok_or, ◌==◌, if◌then◌else◌,
}
use proposer_commitment_netw.Builder.Payload.{
  Fork, deneb, phase0, altair, bellatrix, capella, electra,
}
use proposer_commitment_netw.Builder.Fallback.{SignedBuilderBid, GetPayloadResponse}
use proposer_commitment_netw.Proxy.{VersionedValue}

-- The error that the relay describes in its body, as a number.
pub data ApiError : Type 0 where
  reqwest : ApiError
  failed_registering_validators failed_getting_header failed_getting_payload
        failed_submitting_constraints failed_delegating failed_revoking :
      ℕ → ApiError
  invalid_fork : Fork → ApiError
  timeout : ApiError

-- An answer: its status, its body read as an error, and read as what is asked for.
pub record Response {ℓ} (A : Type ℓ) : Type ℓ where
  pub status : ℕ
  pub error : Option ℕ
  pub body : Option A

-- A status other than 200 is an error.
abbrev pub accepted {ℓ} : {A : Type ℓ} → (ℕ → ApiError) → Response A → Result ApiError (Unit {0})
accepted failed r =
    if r.status == 200 then ok tt else (do error ← ok_or r.error reqwest; err (failed error))

unfoldable pub submit : (ℕ → ApiError) → Option (Response (Unit {0})) → Result ApiError (Unit {0})
submit failed response = do r ← ok_or response reqwest; accepted failed r

unfoldable pub status : Option ℕ → Result ApiError ℕ
status response = ok_or response reqwest

unfoldable pub register_validators : Option (Response (Unit {0})) → Result ApiError (Unit {0})
unfolding submit
register_validators = submit failed_registering_validators

unfoldable pub get_header : Option (Response SignedBuilderBid) → Result ApiError SignedBuilderBid
get_header response = do
  r ← ok_or response reqwest
  accepted failed_getting_header r
  ok_or r.body reqwest

unfoldable pub get_payload :
    Option (Response GetPayloadResponse) → Result ApiError GetPayloadResponse
get_payload response = do
  r ← ok_or response reqwest
  accepted failed_getting_payload r
  ok_or r.body reqwest

abbrev pub is_deneb : Fork → Bool
is_deneb deneb = true
is_deneb _ = false

unfoldable pub get_header_with_proofs :
    Option (Response VersionedValue) → Result ApiError VersionedValue
get_header_with_proofs response = do
  r ← ok_or response reqwest
  accepted failed_getting_header r
  header ← ok_or r.body reqwest
  ensure (is_deneb header.version) (invalid_fork header.version)
  ok header

unfoldable pub delegate : Option (Response (Unit {0})) → Result ApiError (Unit {0})
unfolding submit
delegate = submit failed_delegating

unfoldable pub revoke : Option (Response (Unit {0})) → Result ApiError (Unit {0})
unfolding submit
revoke = submit failed_revoking

unfoldable pub send_constraints_inner : Option (Response (Unit {0})) → Result ApiError (Unit {0})
unfolding submit
send_constraints_inner = submit failed_submitting_constraints

unfoldable pub send_constraints_to_be_collected :
    Option (Response (Unit {0})) → Result ApiError (Unit {0})
unfolding submit
send_constraints_to_be_collected = submit failed_submitting_constraints

-- A try: `none` if it is not over in time, or what comes back.
abbrev pub Try : Type 0
Try = Option (Option (Response (Unit {0})))

abbrev pub unless_late : Try → Result ApiError (Unit {0}) → Result ApiError (Unit {0})
unless_late none rest = rest
unless_late (some response) rest = send_constraints_inner response

abbrev pub max_retries : ℕ
max_retries = 5

-- The loop of `send_constraints` from the `n`th try on; only a late try is made again.
unfoldable pub send_loop : (ℕ → Try) → ℕ → ℕ → Result ApiError (Unit {0})
unfolding send_constraints_inner
send_loop answer zero n = unless_late (answer n) (err timeout)
send_loop answer (suc retries) n = unless_late (answer n) (send_loop answer retries (suc n))

unfoldable pub send_constraints : (ℕ → Try) → Result ApiError (Unit {0})
unfolding send_loop
send_constraints answer = send_loop answer max_retries 0
