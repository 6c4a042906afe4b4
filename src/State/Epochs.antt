-- ===== src/State/Epochs.antt =====
-- What a head update does (`update_head` of interstate-gateway/src/state/mod.rs).
use proposer_commitment_netw.Base.{
  ℕ, zero, suc, ◌/◌, ◌≤◌, ◌≡◌, ◌≢◌, ◌↔◌, refl, inl, inr, ◌⊎◌, Bool-cases, Option, List, Result, ok,
  err, panic, ◌==◌, ==_refl, ==_of_ne, arith,
}
use proposer_commitment_netw.Base.Words.{mul_u64}
use proposer_commitment_netw.State.{
  StateError, ProposerDuty, ConstraintState, failed_fetching_proposer_duties,
}
use proposer_commitment_netw.State.Head.{
  Attempt, timed_out, failed, header, slots_per_epoch, max_retries, header_loop,
  get_beacon_header_with_retry, duties_loop, with_duties, fetch_proposer_duties, apply_header,
  update_head,
}

-- The requests from the `n`th on fail, and the one after `k` of them gives the header `slot`.
abbrev pub GivenAfter : (ℕ → Attempt) → ℕ → ℕ → ℕ → Type 0
GivenAfter answer zero n slot = answer n ≡ header slot
GivenAfter answer (suc k) n slot = (answer n ≡ failed) × GivenAfter answer k (suc n) slot

header_loop-ok :
    (answer : ℕ → Attempt) (fuel n k slot : ℕ)
    → k ≤ fuel
    → GivenAfter answer k n slot
    → header_loop answer fuel n ≡ ok slot
unfolding header_loop
header_loop-ok answer zero n zero slot h g = rw (g) refl
header_loop-ok answer zero n (suc k) slot h g = absurd (omega arith)
header_loop-ok answer (suc fuel) n zero slot h g = rw (g) refl
header_loop-ok answer (suc fuel) n (suc k) slot h (e, g) =
    rw (e) (header_loop-ok answer fuel (suc n) k slot (omega arith) g)

Attempt-cases : (a : Attempt) → ((slot : ℕ) × (a ≡ header slot)) ⊎ ((a ≡ failed) ⊎ (a ≡ timed_out))
Attempt-cases timed_out = inr (inr refl)
Attempt-cases failed = inr (inl refl)
Attempt-cases (header slot) = inl (slot, refl)

header_loop-inv :
    (answer : ℕ → Attempt) (fuel n slot : ℕ)
    → header_loop answer fuel n ≡ ok slot
    → (k : ℕ) × (k ≤ fuel) × GivenAfter answer k n slot
unfolding header_loop
header_loop-inv answer zero n slot h = elim (Attempt-cases (answer n)) [
  | inl (s, e) ↦ (zero, omega arith, ground arith)
  | inr (inl e) ↦ absurd (ground arith)
  | inr (inr e) ↦ absurd (ground arith)
]
header_loop-inv answer (suc fuel) n slot h = elim (Attempt-cases (answer n)) [
  | inl (s, e) ↦ (zero, omega arith, ground arith)
  | inr (inl e) ↦
      let (k, l, g) = header_loop-inv answer fuel (suc n) slot (ground arith) in
      (suc k, omega arith, (e, g))
  | inr (inr e) ↦ absurd (ground arith)
]

-- The beacon header is `slot` exactly when one of the first six requests gives it and every request
-- before that one fails without a timeout.
pub get_beacon_header_with_retry_iff :
    (answer : ℕ → Attempt) (slot : ℕ)
    → (get_beacon_header_with_retry answer ≡ ok slot)
      ↔ ((k : ℕ) × (k ≤ 5) × GivenAfter answer k 0 slot)
unfolding get_beacon_header_with_retry
get_beacon_header_with_retry_iff answer slot =
    (λ h. header_loop-inv answer 5 0 slot h, λ (k, l, g). header_loop-ok answer 5 0 k slot l g)

-- The start slot is that of the epoch.
abbrev pub IsAligned : ConstraintState → Type 0
IsAligned st = st.current_epoch.start_slot ≡ mul_u64 st.current_epoch.value slots_per_epoch

with_duties-IsAligned :
    (st : ConstraintState) (r : Result StateError (List ProposerDuty))
    → IsAligned st
    → IsAligned (with_duties st r).0
with_duties-IsAligned st (ok d) h = h
with_duties-IsAligned st (err e) h = h
with_duties-IsAligned st panic h = h

apply_header-IsAligned :
    (duties : ℕ → Option (List ProposerDuty)) (st : ConstraintState) (head now : ℕ)
    (r : Result StateError ℕ)
    → IsAligned st
    → IsAligned (apply_header duties st head now r).0
unfolding apply_header fetch_proposer_duties
apply_header-IsAligned duties st head now (err e) h = h
apply_header-IsAligned duties st head now panic h = h
apply_header-IsAligned duties st head now (ok slot) h =
    elim (Bool-cases (slot / slots_per_epoch == st.current_epoch.value)) [
      | inl e ↦ rw (e) h
      | inr e ↦ rw (e) (with_duties-IsAligned _ (duties_loop duties max_retries 0) refl)
    ]

-- A head update keeps the epoch's start slot at 32 times its number (modulo 2^64), whatever the node
-- answers.
pub update_head-IsAligned :
    (headers : ℕ → Attempt) (duties : ℕ → Option (List ProposerDuty)) (started now : ℕ)
    (st : ConstraintState) (head : ℕ)
    → IsAligned st
    → IsAligned (update_head headers duties started now st head).0
unfolding update_head apply_header fetch_proposer_duties
update_head-IsAligned headers duties started now st head h =
    apply_header-IsAligned duties _ head now (get_beacon_header_with_retry headers) h

-- If the header of an update is of a new epoch and its duties cannot be fetched, then a further
-- update with a header of the same epoch succeeds, whatever the node would answer on duties, and has
-- the number of that epoch with the duties of the old one.
pub update_head-stale_duties :
    (headers headers' : ℕ → Attempt) (duties duties' : ℕ → Option (List ProposerDuty))
    (started now started' now' : ℕ) (st : ConstraintState) (head head' slot slot' : ℕ)
    → get_beacon_header_with_retry headers ≡ ok slot
    → slot / slots_per_epoch ≢ st.current_epoch.value
    → duties_loop duties max_retries 0 ≡ err failed_fetching_proposer_duties
    → get_beacon_header_with_retry headers' ≡ ok slot'
    → slot' / slots_per_epoch ≡ slot / slots_per_epoch
    → let st' = (update_head headers duties started now st head).0 in
      let (st'', r) = update_head headers' duties' started' now' st' head' in
      (r ≡ ok tt)
      × (st''.current_epoch.value ≡ slot' / slots_per_epoch)
      × (st''.current_epoch.proposer_duties ≡ st.current_epoch.proposer_duties)
unfolding update_head apply_header fetch_proposer_duties
update_head-stale_duties headers headers' duties duties' started now started' now' st head head'
      slot slot' h n d h' s =
    rw (h, h', ==_of_ne _ _ n, d, s, ==_refl) (refl, refl, refl)
