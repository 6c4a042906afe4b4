-- ===== src/Gateway/EventLoop/Heads.antt =====
-- What the handlers of heads and of deadlines (interstate-gateway/src/main.rs) do to the blocks and to
-- the deadline of the constraint state.
use proposer_commitment_netw.Base.{
  ℕ, ◌/◌, ◌≡◌, ◌⊎◌, refl, ap, ◌∙◌, inl, inr, Bool-cases, Bool, Option, none, some, List, [], Result,
  ok, err, panic, ◌==◌, if◌then◌else◌, ==→eq, arith,
}
use proposer_commitment_netw.Base.Assoc.{Assoc, lookup, remove, lookup-remove}
use proposer_commitment_netw.Base.Words.{add_u64}
use proposer_commitment_netw.Tx.{TxLib}
use proposer_commitment_netw.Execution.Head.{StateUpdate}
use proposer_commitment_netw.State.{
  StateError, ProposerDuty, Block, ConstraintState, block_or_default, ready, poll, wait, deadline,
  poll_sleep, CommitmentDeadline,
}
use proposer_commitment_netw.State.Head.{
  Attempt, get_beacon_header_with_retry, duties_loop, max_retries, apply_header,
  fetch_proposer_duties, with_duties, slots_per_epoch, update_head,
}
use proposer_commitment_netw.Gateway.{handle_head_event}
use proposer_commitment_netw.Gateway.Deadline.{apply_header-deadline}
use proposer_commitment_netw.Gateway.EventLoop.Blocks.{list_at, list_in}

abbrev left_by : Result StateError ℕ → Assoc Block → Assoc Block
left_by (ok slot) blocks = remove slot blocks
left_by (err e) blocks = blocks
left_by panic blocks = blocks

apply_header-blocks :
    (duties : ℕ → Option (List ProposerDuty)) (st : ConstraintState) (head now : ℕ)
    (r : Result StateError ℕ)
    → (apply_header duties st head now r).0.blocks ≡ left_by r st.blocks
unfolding apply_header fetch_proposer_duties
apply_header-blocks duties st head now (err e) = refl
apply_header-blocks duties st head now panic = refl
apply_header-blocks duties st head now (ok slot) =
    elim (Bool-cases (slot / slots_per_epoch == st.current_epoch.value)) [
      | inl e ↦ rw e refl
      | inr e ↦ rw e (go _ (duties_loop duties max_retries 0))
    ]
  where
    go :
        (st : ConstraintState) (r : Result StateError (List ProposerDuty))
        → (with_duties st r).0.blocks ≡ st.blocks
    go st (ok d) = refl
    go st (err e) = refl
    go st panic = refl

-- A block that was removed is empty, any other is what it was.
pub list_in-remove :
    (slot other : ℕ) (blocks left : Assoc Block)
    → left ≡ remove slot blocks
    → (list_in left other ≡ list_in blocks other) ⊎ ((slot ≡ other) × (list_in left other ≡ []))
list_in-remove slot other blocks left e =
    let read = λ (o : Option Block). (block_or_default o).signed_constraints_list in
    let found : lookup other left ≡ (if slot == other then none else lookup other blocks) =
      ap (lookup other) e ∙ lookup-remove slot other blocks in
    elim (Bool-cases (slot == other)) [
      | inl same ↦
          let gone : lookup other left ≡ none = found ∙ rw same refl in
          inr (==→eq slot other same, ap read gone)
      | inr differs ↦
          let kept : lookup other left ≡ lookup other blocks = found ∙ rw differs refl in
          inl (ap read kept)
    ]

module _ (lib : TxLib) (headers : ℕ → Attempt) (duties : ℕ → Option (List ProposerDuty))
    (receipts : List ℕ → Bool) (update : Option StateUpdate) (started now : ℕ)
    (st : ConstraintState) (head : ℕ) where
  -- Only the block of the header's slot is lost.
  pub handle_head_event-blocks :
      (other : ℕ)
      → let st' = handle_head_event lib headers duties receipts update started now st head in
        (list_at st' other ≡ list_at st other)
        ⊎ ((get_beacon_header_with_retry headers ≡ ok other) × (list_at st' other ≡ []))
  unfolding handle_head_event update_head
  handle_head_event-blocks other =
      let st' : ConstraintState = record st {
        commitment_deadline = deadline (add_u64 head 1) st.deadline_duration started;
      } in
      go st' (get_beacon_header_with_retry headers)
    where
      go :
          (st : ConstraintState) (r : Result StateError ℕ)
          → let st' = (apply_header duties st head now r).0 in
            (list_at st' other ≡ list_at st other) ⊎ ((r ≡ ok other) × (list_at st' other ≡ []))
      go st (err e) =
          inl (ap (λ m. list_in m other) (apply_header-blocks duties st head now (err e)))
      go st panic = inl (ap (λ m. list_in m other) (apply_header-blocks duties st head now panic))
      go st (ok slot) =
          elim (list_in-remove slot other st.blocks _
            (apply_header-blocks duties st head now (ok slot))) [
              | inl e ↦ inl e
              | inr (e, gone) ↦ inr (ap ok e, gone)
            ]

  pub handle_head_event-deadline :
      (handle_head_event lib headers duties receipts update started now st
        head).commitment_deadline.slot
      ≡ add_u64 head 1
  unfolding handle_head_event update_head deadline
  handle_head_event-deadline =
      ap (λ d. d.slot)
        (apply_header-deadline duties _ head now (get_beacon_header_with_retry headers))

-- A wait keeps the deadline's slot, which is what it gives.
pub wait_slot :
    (d : CommitmentDeadline) (now : ℕ)
    → ((wait d now).0.slot ≡ d.slot)
      × ((slot : ℕ) → (wait d now).1 ≡ ready (some slot) → slot ≡ d.slot)
unfolding wait poll poll_sleep
wait_slot d now = ground arith
