-- ===== src/Gateway/EventLoop/Kept.antt =====
-- What becomes of an accepted request in a run of the event loop (interstate-gateway/src/main.rs).
use proposer_commitment_netw.Base.{
  ℕ, ◌≡◌, ◌⊎◌, refl, sym, ap, subst, ◌∙◌, inl, inr, Option, none, some, List, [], ◌∷◌, ◌++◌, Result,
  ok, err, panic, All, Any, append_assoc, append-nil,
}
use proposer_commitment_netw.Base.Assoc.{lookup, remove}
use proposer_commitment_netw.Tx.{TxLib}
use proposer_commitment_netw.Pricing.{F64}
use proposer_commitment_netw.Constraints.{SignedConstraints}
use proposer_commitment_netw.Execution.{ExecutionState}
use proposer_commitment_netw.State.{
  StateError, Block, ConstraintState, CommitmentDeadline, Poll, ready, pending, wait,
  block_or_default, remove_constraints_at_slot,
}
use proposer_commitment_netw.State.Head.{get_beacon_header_with_retry}
use proposer_commitment_netw.Builder.{BuilderLib}
use proposer_commitment_netw.Builder.Fallback.{FallbackBuilder}
use proposer_commitment_netw.Gateway.{
  Signer, Response, accepted, rejected, unanswered, handle_commitment_deadline,
  handle_preconfirmation_request,
}
use proposer_commitment_netw.Gateway.Promises.{accepted-stored}
use proposer_commitment_netw.Gateway.EventLoop.{
  start, Task, preconfirmation_request, commitment_deadline, head_event, System, World, log_promise,
  log_header, send_and_build, run_task, spawn, spawn_deadline, poll_deadline, ask_header, Step,
  receive_request, reach_deadline, receive_head, request_header, run, Reach, here, next,
}
use proposer_commitment_netw.Gateway.EventLoop.Blocks.{
  list_in, list_at, Added, handle_preconfirmation_request-Added,
}
use proposer_commitment_netw.Gateway.EventLoop.Heads.{list_in-remove, handle_head_event-blocks}

-- The list is a part of the other, with nothing between.
abbrev pub Within : List SignedConstraints → List SignedConstraints → Type 0
Within list whole =
    (before : List SignedConstraints) × (after : List SignedConstraints) × (whole
      ≡ before ++ (list ++ after))

-- A promise is kept in the block of its slot, or was sent with that, or a head's header was of its
-- slot.
abbrev pub IsKept : System → ℕ × List SignedConstraints → Type 0
IsKept s (slot, list) =
    Within list (list_at s.constraint_state slot)
    ⊎ (Any (λ e. (e.0 ≡ slot) × Within list e.1.signed_constraints_list) s.sent
        ⊎ Any (λ header. header ≡ slot) s.headers)

Within-append :
    (list whole more : List SignedConstraints) → Within list whole → Within list (whole ++ more)
Within-append list whole more (before, after, e) = (
  before,
  after ++ more,
  ap (λ l. l ++ more) e
      ∙ (append_assoc before (list ++ after) more
          ∙ ap (λ l. before ++ l) (append_assoc list after more)),
)

KeepsAll : System → System → Type 0
KeepsAll s t = (e : ℕ × List SignedConstraints) → IsKept s e → IsKept t e

All-IsKept :
    (s t : System) (promises : List (ℕ × List SignedConstraints))
    → KeepsAll s t
    → All (IsKept s) promises
    → All (IsKept t) promises
unfolding KeepsAll
All-IsKept s t [] keeps h = tt
All-IsKept s t (e ∷ es) keeps (p, h) = (keeps e p, All-IsKept s t es keeps h)

abbrev Kept : System → Type 0
Kept s = All (IsKept s) s.promises

-- A state whose blocks, logs of blocks and logs of headers are the same.
same-KeepsAll :
    (s t : System)
    → t.constraint_state.blocks ≡ s.constraint_state.blocks
    → t.sent ≡ s.sent
    → t.headers ≡ s.headers
    → KeepsAll s t
unfolding KeepsAll
same-KeepsAll s t blocks sent headers (slot, list) (inl w) =
    inl (subst (λ m. Within list (list_in m slot)) (sym blocks) w)
same-KeepsAll s t blocks sent headers (slot, list) (inr (inl a)) = inr (
    inl (
      subst (λ l. Any (λ e. (e.0 ≡ slot) × Within list e.1.signed_constraints_list) l) (sym sent)
        a))
same-KeepsAll s t blocks sent headers (slot, list) (inr (inr a)) =
    inr (inr (subst (λ l. Any (λ header. header ≡ slot) l) (sym headers) a))

same-Kept :
    (s t : System)
    → t.constraint_state.blocks ≡ s.constraint_state.blocks
    → t.sent ≡ s.sent
    → t.headers ≡ s.headers
    → t.promises ≡ s.promises
    → Kept s
    → Kept t
same-Kept s t b l d p h =
    subst (λ ps. All (IsKept t) ps) (sym p) (All-IsKept s t s.promises (same-KeepsAll s t b l d) h)

module _ (sign : Signer) (pubkeys : List ℕ) where
  Added-KeepsAll :
      (s : System) (st : ConstraintState)
      → Added sign pubkeys s.constraint_state st
      → KeepsAll s (record s { constraint_state = st })
  unfolding KeepsAll
  Added-KeepsAll s st added (slot, list) (inl w) =
      let (more, e, _) = added.gained slot in
      inl (subst (λ l. Within list l) (sym e) (Within-append list _ more w))
  Added-KeepsAll s st added (slot, list) (inr (inl a)) = inr (inl a)
  Added-KeepsAll s st added (slot, list) (inr (inr a)) = inr (inr a)

  -- The new promise is at the end of its block.
  log_promise-Kept :
      (slot : ℕ) (r : Option Response) (s : System) (blocks_before : List SignedConstraints)
      → Kept s
      → ((list : List SignedConstraints)
          → r ≡ some (accepted list)
          → list_at s.constraint_state slot ≡ blocks_before ++ list)
      → Kept (log_promise slot r s)
  unfolding KeepsAll
  log_promise-Kept slot none s before h stored = h
  log_promise-Kept slot (some unanswered) s before h stored = h
  log_promise-Kept slot (some (rejected e)) s before h stored = h
  log_promise-Kept slot (some (accepted list)) s before h stored =
      let s' : System = record s { promises = (slot, list) ∷ s.promises } in
      (
        inl (before, [], stored list refl ∙ ap (λ l. before ++ l) (sym (append-nil list))),
        All-IsKept s s' s.promises (same-KeepsAll s s' refl refl refl) h,
      )

  module _ (lib : TxLib) (f : F64) (builder_lib : BuilderLib) where
    -- A block that is taken out is sent, so what was promised in it is.
    send_and_build-KeepsAll :
        (w : World) (slot : ℕ) (st : ConstraintState) (o : Option Block) (s : System)
        → st.blocks ≡ remove slot s.constraint_state.blocks
        → lookup slot s.constraint_state.blocks ≡ o
        → KeepsAll s (send_and_build lib f builder_lib sign pubkeys w slot (st, o) s)
    unfolding KeepsAll
    send_and_build-KeepsAll w slot st none s left found (k, list) (inl within) =
        elim (list_in-remove slot k s.constraint_state.blocks st.blocks left) [
          | inl e ↦ inl (subst (λ l. Within list l) (sym e) within)
          | inr (e, gone) ↦
              let before : list_in s.constraint_state.blocks slot ≡ [] =
                ap (λ o. (block_or_default o).signed_constraints_list) found in
              inl (
                subst (λ l. Within list l)
                  (ap (λ j. list_in s.constraint_state.blocks j) (sym e) ∙ (before ∙ sym gone))
                  within)
        ]
    send_and_build-KeepsAll w slot st none s left found (k, list) (inr (inl a)) = inr (inl a)
    send_and_build-KeepsAll w slot st none s left found (k, list) (inr (inr a)) = inr (inr a)
    send_and_build-KeepsAll w slot st (some block) s left found (k, list) (inl within) =
        elim (list_in-remove slot k s.constraint_state.blocks st.blocks left) [
          | inl e ↦ inl (subst (λ l. Within list l) (sym e) within)
          | inr (e, gone) ↦
              let before : list_in s.constraint_state.blocks slot ≡ block.signed_constraints_list =
                ap (λ o. (block_or_default o).signed_constraints_list) found in
              inr (
                inl (
                  inl (
                    e,
                    subst (λ l. Within list l)
                        (ap (λ j. list_in s.constraint_state.blocks j) (sym e) ∙ before) within,
                  )))
        ]
    send_and_build-KeepsAll w slot st (some block) s left found (k, list) (inr (inl a)) =
        inr (inl (inr a))
    send_and_build-KeepsAll w slot st (some block) s left found (k, list) (inr (inr a)) =
        inr (inr a)

    send_and_build-promises :
        (w : World) (slot : ℕ) (st : ConstraintState) (o : Option Block) (s : System)
        → (send_and_build lib f builder_lib sign pubkeys w slot (st, o) s).promises ≡ s.promises
    send_and_build-promises w slot st none s = refl
    send_and_build-promises w slot st (some block) s = refl

    head_event-KeepsAll :
        (w : World) (head : ℕ) (s : System)
        → KeepsAll s (run_task lib f builder_lib sign pubkeys w (head_event head) s)
    unfolding KeepsAll run_task
    head_event-KeepsAll w head s (slot, list) (inl within) =
        elim (handle_head_event-blocks lib w.beacon_headers w.duties w.receipts w.update w.started
          w.now s.constraint_state head slot) [
            | inl e ↦ inl (subst (λ l. Within list l) (sym e) within)
            | inr (e, gone) ↦ inr (
                inr (
                  subst (λ r. Any (λ header. header ≡ slot) (log_header r s.headers)) (sym e)
                    (inl refl)))
          ]
    head_event-KeepsAll w head s (slot, list) (inr (inl a)) = inr (inl a)
    head_event-KeepsAll w head s (slot, list) (inr (inr a)) =
        inr (inr (logged (get_beacon_header_with_retry w.beacon_headers)))
      where
        logged : (r : Result StateError ℕ) → Any (λ header. header ≡ slot) (log_header r s.headers)
        logged (ok k) = inr a
        logged (err e) = a
        logged panic = a

    run_task-Kept :
        (w : World) (t : Task) (s : System)
        → Kept s
        → Kept (run_task lib f builder_lib sign pubkeys w t s)
    unfolding run_task handle_commitment_deadline remove_constraints_at_slot
    run_task-Kept w (preconfirmation_request req) s h =
        let (st, r) =
          handle_preconfirmation_request lib f w.fetch sign pubkeys w.delegations s.constraint_state
            req w.now in
        let keeps = Added-KeepsAll s st (
          handle_preconfirmation_request-Added sign pubkeys lib f w.fetch w.delegations
            s.constraint_state req w.now) in
        log_promise-Kept req.slot r (record s { constraint_state = st })
          (list_at s.constraint_state req.slot) (All-IsKept s _ s.promises keeps h)
          (λ list e.
            accepted-stored lib f w.fetch sign pubkeys w.delegations s.constraint_state req w.now
              list e)
    run_task-Kept w (commitment_deadline slot) s h =
        let (st, o) = handle_commitment_deadline s.constraint_state slot in
        rw (send_and_build-promises w slot st o s)
          (All-IsKept s _ s.promises (send_and_build-KeepsAll w slot st o s refl refl) h)
    run_task-Kept w (head_event head) s h =
        All-IsKept s _ s.promises (head_event-KeepsAll w head s) h

    spawn_deadline-Kept :
        (d : CommitmentDeadline) (p : Poll) (s : System) → Kept s → Kept (spawn_deadline s (d, p))
    unfolding spawn
    spawn_deadline-Kept d pending s h = h
    spawn_deadline-Kept d (ready none) s h =
        same-Kept s (spawn_deadline s (d, ready none)) refl refl refl refl h
    spawn_deadline-Kept d (ready (some slot)) s h =
        same-Kept s (spawn_deadline s (d, ready (some slot))) refl refl refl refl h

    Step-Kept : {s t : System} → Step lib f builder_lib sign pubkeys s t → Kept s → Kept t
    unfolding spawn poll_deadline ask_header
    Step-Kept {s} (receive_request req) h =
        same-Kept s (spawn (preconfirmation_request req) s) refl refl refl refl h
    Step-Kept {s} (reach_deadline now) h =
        let (d, p) = wait s.constraint_state.commitment_deadline now in spawn_deadline-Kept d p s h
    Step-Kept {s} (receive_head slot) h =
        same-Kept s (spawn (head_event slot) s) refl refl refl refl h
    Step-Kept {s} (request_header slot relay response_open) h =
        same-Kept s (ask_header slot relay response_open s) refl refl refl refl h
    Step-Kept {s} (run w before t after e) h =
        run_task-Kept w t (record s { tasks = before ++ after })
          (same-Kept s (record s { tasks = before ++ after }) refl refl refl refl h)

    reached : {s t : System} → Kept s → Reach lib f builder_lib sign pubkeys s t → Kept t
    reached h here = h
    reached h (next r step) = Step-Kept step (reached h r)

    -- In every run, in whatever order the handlers run: the constraints of an accepted request stand
    -- together, in their order, in the block that the gateway holds for their slot, or were sent to
    -- the relay with the block of that slot, or a header of that slot was fetched for a head. So
    -- none is lost before its slot comes.
    pub Reach-IsKept :
        (execution : ExecutionState) (builder : FallbackBuilder) (duration chain_id now : ℕ)
        (s : System)
        → Reach lib f builder_lib sign pubkeys (start execution builder duration chain_id now) s
        → All (IsKept s) s.promises
    unfolding start
    Reach-IsKept execution builder duration chain_id now s r = reached tt r
