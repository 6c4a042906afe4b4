-- ===== src/Pbs/Server/Timing/Deadlines.antt =====
-- When the repeated requests are sent (interstate-pbs-module/src/server.rs).
use proposer_commitment_netw.Base.{
  ℕ, zero, suc, ◌+◌, ◌-◌, ◌*◌, ◌≤◌, ◌<◌, ◌≡◌, refl, none, some, List, [], ◌∷◌, All, length, ltb,
  Bool-cases, inl, inr, true, arith,
}
use proposer_commitment_netw.Pbs.Server.Timing.{Sending, RelayConfig, send_loop, requests, delay_of}

-- The request times out at the given time.
abbrev pub EndsAt : ℕ → Sending → Type 0
EndsAt finish s = s.start + s.timeout_ms ≡ finish

-- Each request is sent `freq` after the one before.
abbrev pub Spaced : ℕ → ℕ → List Sending → Type 0
Spaced freq start [] = Unit
Spaced freq start (s ∷ rest) = (s.start ≡ start) × Spaced freq (start + freq) rest

send_loop_ends :
    (fuel freq start left : ℕ)
    → 0 < freq
    → left < fuel
    → (sendings : List Sending) × (send_loop fuel freq start left ≡ some sendings)
      × All (EndsAt (start + left)) sendings
      × Spaced freq start sendings
      × (length sendings * freq ≤ left + freq)
unfolding send_loop
send_loop_ends zero freq start left p l = absurd (omega arith)
send_loop_ends (suc fuel) freq start left p l = elim (Bool-cases (ltb freq left)) [
  | inl e ↦
      let (rest, r, ends, spaced, bound) =
        send_loop_ends fuel freq (start + freq) (left - freq) p (ground arith) in
      let same : start + freq + (left - freq) ≡ start + left = ground arith in
      (
        record { start = start; timeout_ms = left } ∷ rest,
        rw (e, r) refl,
        (refl, rw same at ends),
        (refl, spaced),
        ground arith,
      )
  | inr e ↦ (
    record { start = start; timeout_ms = left } ∷ [],
    rw e refl,
    (refl, tt),
    (refl, tt),
    omega arith,
  )
]

-- With the timing games on, a frequency that is not 0, and a delay that fits into the time that is left, the repeated requests end: they are sent at that frequency from the delay on, and all time out when the time is over.
pub requests_end :
    (config : RelayConfig) (freq ms_into_slot left : ℕ)
    → config.enable_timing_games ≡ true
    → config.frequency_get_header_ms ≡ some freq
    → 0 < freq
    → delay_of config.target_first_request_ms ms_into_slot ≤ left
    → (sendings : List Sending) × (requests (suc left) config ms_into_slot left ≡ some sendings)
      × All (EndsAt left) sendings
      × Spaced freq (delay_of config.target_first_request_ms ms_into_slot) sendings
unfolding requests
requests_end config freq ms_into_slot left g f p d =
    let delay = delay_of config.target_first_request_ms ms_into_slot in
    let (sendings, r, ends, spaced, _) =
      send_loop_ends (suc left) freq delay (left - delay) p (omega arith) in
    let same : delay + (left - delay) ≡ left = omega arith in
    (sendings, rw (g, f) r, rw same at ends, spaced)

-- With the frequency 0 and time left the loop never ends, whatever the fuel.
pub send_loop_diverges : (fuel start left : ℕ) → 0 < left → send_loop fuel 0 start left ≡ none
unfolding send_loop
send_loop_diverges zero start left p = refl
send_loop_diverges (suc fuel) start left p =
    let rest = send_loop_diverges fuel (start + 0) (left - 0) (omega arith) in ground (arith, rest)
