-- ===== src/Pbs/Server/Timing.antt =====
-- How the PBS module asks one relay for a header (`send_timed_get_header` and `send_one_get_header`
-- of interstate-pbs-module/src/server.rs). Times are milliseconds; a relay's answer to each request
-- is an argument.
pub mod Deadlines
use proposer_commitment_netw.Base.{
  ℕ, zero, suc, ◌+◌, ◌-◌, Bool, true, false, ◌&&◌, Option, none, some, List, [], ◌∷◌, map, Result,
  ok, err, panic, ◌>>=◌, ◌>>◌, ensure, ok_or, map_err, ltb, leb, ◌==◌, if◌then◌else◌,
}
use proposer_commitment_netw.Pbs.Server.{Bid, HeaderError, validate_header}

pub data PbsError : Type 0 where
  timed_out request_failed json_decode no_headers_received : PbsError
  relay_response : ℕ → PbsError
  validation : HeaderError → PbsError

-- What a request comes to: an error, which may be a timeout, or an answer with its status, whether
-- its body could be read, and the header that is parsed from it.
pub data HttpAnswer : Type 0 where
  send_error : Bool → HttpAnswer
  answer : ℕ → Bool → Option Bid → HttpAnswer

-- What the header is validated against.
pub record Validation : Type 0 where
  pub empty_tx_root_hash : ℕ
  pub relay_pubkey : ℕ
  pub parent_hash : ℕ
  pub min_bid_wei : ℕ

abbrev pub Started : Type 0
Started = ℕ × Option Bid

abbrev pub parsed : Validation → ℕ → Option Bid → Result PbsError Started
parsed v start none = err json_decode
parsed v start (some bid) = do
  map_err validation
      (validate_header v.empty_tx_root_hash bid.header v.relay_pubkey v.parent_hash v.min_bid_wei)
  ok (start, some bid)

unfoldable pub send_one_get_header : Validation → ℕ → HttpAnswer → Result PbsError Started
send_one_get_header v start (send_error true) = err timed_out
send_one_get_header v start (send_error false) = err request_failed
send_one_get_header v start (answer code readable bid) = do
  ensure readable request_failed
  ensure (leb 200 code && ltb code 300) (relay_response code)
  if code == 204 then ok (start, none) else parsed v start bid

-- A request: its time after the first one, and its timeout.
pub record Sending : Type 0 where
  pub start : ℕ
  pub timeout_ms : ℕ

abbrev pub sent_before : Sending → Option (List Sending) → Option (List Sending)
sent_before s none = none
sent_before s (some rest) = some (s ∷ rest)

-- The loop that sends a request every `send_freq_ms`; `none` is out of fuel.
unfoldable pub send_loop : ℕ → ℕ → ℕ → ℕ → Option (List Sending)
send_loop zero send_freq_ms start timeout_left_ms = none
send_loop (suc fuel) send_freq_ms start timeout_left_ms =
    let this : Sending = record { start = start; timeout_ms = timeout_left_ms } in
    let rest =
      send_loop fuel send_freq_ms (start + send_freq_ms) (timeout_left_ms - send_freq_ms) in
    if ltb send_freq_ms timeout_left_ms then sent_before this rest else some (this ∷ [])

-- The relay's configuration of the timing games.
pub record RelayConfig : Type 0 where
  pub enable_timing_games : Bool
  pub target_first_request_ms : Option ℕ
  pub frequency_get_header_ms : Option ℕ

-- The wait before the first request.
abbrev pub delay_of : Option ℕ → ℕ → ℕ
delay_of none ms_into_slot = 0
delay_of (some target_ms) ms_into_slot = target_ms - ms_into_slot

-- The requests that are sent, after `delay`.
unfoldable pub requests : ℕ → RelayConfig → ℕ → ℕ → Option (List Sending)
unfolding send_loop
requests fuel config ms_into_slot timeout_left_ms =
    let delay = delay_of config.target_first_request_ms ms_into_slot in
    if config.enable_timing_games
    then elim config.frequency_get_header_ms [
      | none ↦ some (record { start = delay; timeout_ms = timeout_left_ms - delay } ∷ [])
      | some freq ↦ send_loop fuel freq delay (timeout_left_ms - delay)
    ]
    else some (record { start = 0; timeout_ms = timeout_left_ms } ∷ [])

-- `max_by_key` on the start: the last of several maxima. Errors are skipped.
abbrev pub later : Result PbsError Started → Option Started → Option Started
later (ok a) none = some a
later (ok a) (some b) = if ltb b.0 a.0 then some a else some b
later (err e) best = best
later panic best = best

unfoldable pub latest : List (Result PbsError Started) → Option Started
latest [] = none
latest (r ∷ rs) = later r (latest rs)

-- The result of repeated requests.
unfoldable pub latest_header : List (Result PbsError Started) → Result PbsError (Option Bid)
unfolding latest
latest_header results = elim (latest results) [ none ↦ err no_headers_received | some s ↦ ok s.1 ]
