-- ===== src/Relay/Retries.antt =====
-- The tries of `send_constraints` (interstate-gateway/src/constraints/mod.rs).
use proposer_commitment_netw.Base.{
  ℕ, zero, suc, ◌≤◌, ◌≡◌, refl, ◌⊎◌, inl, inr, Option, none, some, err, Option-cases, arith,
}
use proposer_commitment_netw.Relay.{
  timeout, Response, Try, send_constraints_inner, send_loop, send_constraints, max_retries,
}

-- The first try that is over in time, `k` tries after the `n`th.
abbrev pub FirstInTime : (ℕ → Try) → ℕ → ℕ → Option (Response (Unit {0})) → Type 0
FirstInTime answer n zero r = answer n ≡ some r
FirstInTime answer n (suc k) r = (answer n ≡ none) × FirstInTime answer (suc n) k r

-- All tries from the `n`th to the one `k` after it are late.
abbrev pub AllLate : (ℕ → Try) → ℕ → ℕ → Type 0
AllLate answer n zero = answer n ≡ none
AllLate answer n (suc k) = (answer n ≡ none) × AllLate answer (suc n) k

send_loop-cases :
    (answer : ℕ → Try) (retries n : ℕ)
    → ((k : ℕ) × (k ≤ retries)
        × (r : Option (Response (Unit {0}))) × FirstInTime answer n k r
        × (send_loop answer retries n ≡ send_constraints_inner r))
      ⊎ (AllLate answer n retries × (send_loop answer retries n ≡ err timeout))
unfolding send_loop
send_loop-cases answer zero n = elim (Option-cases (answer n)) [
  | inl late ↦ inr (late, rw late refl)
  | inr (r, e) ↦ inl (0, omega arith, r, e, rw e refl)
]
send_loop-cases answer (suc retries) n = elim (Option-cases (answer n)) [
  | inl late ↦ elim (send_loop-cases answer retries (suc n)) [
    | inl (k, l, r, f, same) ↦ inl (suc k, omega arith, r, (late, f), rw late same)
    | inr (all, same) ↦ inr ((late, all), rw late same)
  ]
  | inr (r, e) ↦ inl (0, omega arith, r, e, rw e refl)
]

-- Either one of six tries is over in time, and the first such decides, or all six are late, and
-- the result is the timeout.
pub send_constraints-cases :
    (answer : ℕ → Try)
    → ((k : ℕ) × (k ≤ max_retries)
        × (r : Option (Response (Unit {0}))) × FirstInTime answer 0 k r
        × (send_constraints answer ≡ send_constraints_inner r))
      ⊎ (AllLate answer 0 max_retries × (send_constraints answer ≡ err timeout))
unfolding send_constraints
send_constraints-cases answer = send_loop-cases answer max_retries 0
