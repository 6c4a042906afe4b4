-- ===== src/Gateway/Deadline.antt =====
-- Which constraints leave the gateway, and which never do (interstate-gateway/src/main.rs,
-- interstate-gateway/src/state/mod.rs).
use proposer_commitment_netw.Base.{
  ℕ, ◌+◌, ◌/◌, ◌≤◌, ◌≡◌, refl, ap, ◌∙◌, inl, inr, Bool-cases, true, Option, none, List, Result, ok,
  err, panic, ◌==◌, if◌then◌else◌, leb, arith,
}
use proposer_commitment_netw.Base.Assoc.{lookup, remove, lookup-remove}
use proposer_commitment_netw.Base.Words.{add_u64}
use proposer_commitment_netw.State.{
  StateError, ConstraintState, Block, block_at, add_constraint, add_constraints,
  remove_constraints_at_slot, ProposerDuty, poll, poll_sleep, wait, deadline,
}
use proposer_commitment_netw.State
use proposer_commitment_netw.State.Head.{
  Attempt, get_beacon_header_with_retry, duties_loop, max_retries, apply_header,
  fetch_proposer_duties, with_duties, slots_per_epoch,
}
use proposer_commitment_netw.Gateway.{deadline_event, handle_commitment_deadline}

deadline_event-at :
    (st : ConstraintState) (slot duration start later : ℕ)
    → st.commitment_deadline ≡ deadline slot duration start
    → start + duration ≤ later
    → ((deadline_event st later).0.blocks ≡ remove (add_u64 slot 1) st.blocks)
      × ((deadline_event st later).1 ≡ lookup (add_u64 slot 1) st.blocks)
unfolding deadline_event handle_commitment_deadline remove_constraints_at_slot wait poll poll_sleep
    deadline
deadline_event-at st slot duration start later e h =
    let over : leb (start + duration) later ≡ true = ground arith in rw (e, over) (refl, refl)

pub apply_header-deadline :
    (duties : ℕ → Option (List ProposerDuty)) (st : ConstraintState) (head now : ℕ)
    (r : Result StateError ℕ)
    → (apply_header duties st head now r).0.commitment_deadline ≡ st.commitment_deadline
unfolding apply_header fetch_proposer_duties
apply_header-deadline duties st head now (err e) = refl
apply_header-deadline duties st head now panic = refl
apply_header-deadline duties st head now (ok slot) =
    elim (Bool-cases (slot / slots_per_epoch == st.current_epoch.value)) [
      | inl e ↦ rw (e) refl
      | inr e ↦ rw (e) (go _ (duties_loop duties max_retries 0))
    ]
  where
    go :
        (st : ConstraintState) (r : Result StateError (List ProposerDuty))
        → (with_duties st r).0.commitment_deadline ≡ st.commitment_deadline
    go st (ok d) = refl
    go st (err e) = refl
    go st panic = refl

-- After a head update at `head`, the deadline's event takes the constraints of the slot `head + 2`
-- (modulo 2^64) once the duration is over, and no other slot's.
pub deadline_event_lem :
    (headers : ℕ → Attempt) (duties : ℕ → Option (List ProposerDuty)) (started now later : ℕ)
    (st : ConstraintState) (head other : ℕ)
    → let st' = (State.Head.update_head headers duties started now st head).0 in
      let (st'', sent) = deadline_event st' later in
      started + st.deadline_duration ≤ later
      → (sent ≡ lookup (add_u64 (add_u64 head 1) 1) st'.blocks)
        × (lookup other st''.blocks
            ≡ (if add_u64 (add_u64 head 1) 1 == other then none else lookup other st'.blocks))
unfolding State.Head.update_head
deadline_event_lem headers duties started now later st head other h =
    let st' = (State.Head.update_head headers duties started now st head).0 in
    let set : st'.commitment_deadline ≡ deadline (add_u64 head 1) st.deadline_duration started =
      apply_header-deadline duties _ head now (get_beacon_header_with_retry headers) in
    let (left, sent) =
      deadline_event-at st' (add_u64 head 1) st.deadline_duration started later set h in
    (sent, ap (lookup other) left ∙ lookup-remove _ other st'.blocks)
