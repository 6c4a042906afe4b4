-- ===== src/Gateway/EventLoop/Sent.antt =====
-- What the relay is sent in a run of the event loop (interstate-gateway/src/main.rs).
use proposer_commitment_netw.Base.{
  ℕ, ◌≡◌, ◌⊎◌, refl, sym, ap, subst, inl, inr, Option, none, some, List, [], ◌∷◌, ◌++◌, All, Any,
  All-append,
}
use proposer_commitment_netw.Base.Assoc.{lookup, remove}
use proposer_commitment_netw.Base.Words.{add_u64}
use proposer_commitment_netw.Tx.{TxLib}
use proposer_commitment_netw.Pricing.{F64}
use proposer_commitment_netw.State.{
  Block, ConstraintState, CommitmentDeadline, Poll, ready, pending, wait, block_or_default,
  remove_constraints_at_slot, deadline,
}
use proposer_commitment_netw.Execution.{ExecutionState}
use proposer_commitment_netw.State
use proposer_commitment_netw.Builder.{BuilderLib}
use proposer_commitment_netw.Builder.Fallback.{FallbackBuilder}
use proposer_commitment_netw.Gateway.{
  handle_head_event, Signer, Response, accepted, rejected, unanswered, handle_commitment_deadline,
}
use proposer_commitment_netw.Gateway.EventLoop.{
  start, Task, preconfirmation_request, commitment_deadline, head_event, System, World, log_promise,
  send_and_build, run_task, spawn, spawn_deadline, poll_deadline, ask_header, Step, receive_request,
  reach_deadline, receive_head, request_header, run, Reach, here, next,
}
use proposer_commitment_netw.Gateway.EventLoop.Blocks.{
  list_at, IsSigned, Added, handle_preconfirmation_request-Added,
}
use proposer_commitment_netw.Gateway.EventLoop.Heads.{
  list_in-remove, handle_head_event-blocks, handle_head_event-deadline, wait_slot,
}

-- The slot is the second one after a head that was handled, or 1, that of the first deadline.
abbrev pub IsDue : List ℕ → ℕ → Type 0
IsDue heads slot = (slot ≡ 1) ⊎ Any (λ head. add_u64 (add_u64 head 1) 1 ≡ slot) heads

abbrev pub TaskIsDue : List ℕ → Task → Type 0
TaskIsDue heads (preconfirmation_request req) = Unit {0}
TaskIsDue heads (commitment_deadline slot) = IsDue heads slot
TaskIsDue heads (head_event slot) = Unit {0}

emptied : {A B C : Type 0} → A ⊎ (B × C) → A ⊎ C
emptied (inl a) = inl a
emptied (inr (b, c)) = inr c

IsDue-head : (heads : List ℕ) (head slot : ℕ) → IsDue heads slot → IsDue (head ∷ heads) slot
IsDue-head heads head slot (inl e) = inl e
IsDue-head heads head slot (inr a) = inr (inr a)

All_map {ℓ} :
    {A : Type ℓ} (P Q : A → Type 0) (xs : List A) → ((x : A) → P x → Q x) → All P xs → All Q xs
All_map P Q [] f h = tt
All_map P Q (x ∷ xs) f (p, h) = (f x p, All_map P Q xs f h)

TaskIsDue-head :
    (heads : List ℕ) (head : ℕ) (t : Task) → TaskIsDue heads t → TaskIsDue (head ∷ heads) t
TaskIsDue-head heads head (preconfirmation_request req) h = tt
TaskIsDue-head heads head (commitment_deadline slot) h = IsDue-head heads head slot h
TaskIsDue-head heads head (head_event slot) h = tt

-- One element in the middle, and the others.
All-middle {ℓ} :
    {A : Type ℓ} (P : A → Type 0) (xs : List A) (y : A) (ys : List A)
    → All P (xs ++ (y ∷ ys))
    → P y × All P (xs ++ ys)
All-middle P [] y ys (p, h) = (p, h)
All-middle P (x ∷ xs) y ys (p, h) = let (q, rest) = All-middle P xs y ys h in (q, (p, rest))

module _ (sign : Signer) (pubkeys : List ℕ) where
  -- A block that was sent: its slot was due, and its constraints are signed for that slot.
  abbrev pub IsProper : List ℕ → ℕ × Block → Type 0
  IsProper heads (slot, block) =
      IsDue heads slot × All (IsSigned sign pubkeys slot) block.signed_constraints_list

  pub record SendsProper (s : System) : Type 0 where
    pub deadline : IsDue s.heads (add_u64 s.constraint_state.commitment_deadline.slot 1)
    pub tasks : All (TaskIsDue s.heads) s.tasks
    pub blocks : (slot : ℕ) → All (IsSigned sign pubkeys slot) (list_at s.constraint_state slot)
    pub sent : All (IsProper s.heads) s.sent

  IsProper-head :
      (heads : List ℕ) (head : ℕ) (e : ℕ × Block) → IsProper heads e → IsProper (head ∷ heads) e
  IsProper-head heads head (slot, block) (due, h) = (IsDue-head heads head slot due, h)

  log_promise-SendsProper :
      (slot : ℕ) (r : Option Response) {s : System}
      → SendsProper s
      → SendsProper (log_promise slot r s)
  log_promise-SendsProper slot none h = h
  log_promise-SendsProper slot (some unanswered) h = h
  log_promise-SendsProper slot (some (rejected e)) h = h
  log_promise-SendsProper slot (some (accepted list)) h = record {
    deadline = h.deadline;
    tasks = h.tasks;
    blocks = h.blocks;
    sent = h.sent;
  }

  Added-SendsProper :
      {s : System} {st : ConstraintState}
      → SendsProper s
      → Added sign pubkeys s.constraint_state st
      → SendsProper (record s { constraint_state = st })
  Added-SendsProper {s} h added = record {
    deadline = subst (λ d. IsDue s.heads (add_u64 d.slot 1)) (sym added.same_deadline) h.deadline;
    tasks = h.tasks;
    blocks = λ slot.
        let (more, e, signed) = added.gained slot in
        subst (λ l. All (IsSigned sign pubkeys slot) l) (sym e)
          (All-append (IsSigned sign pubkeys slot) _ more (h.blocks slot) signed);
    sent = h.sent;
  }

  -- A state whose blocks are empty or as before.
  cleared-IsSigned :
      {s : System} (st : ConstraintState) (slot : ℕ)
      → SendsProper s
      → (list_at st slot ≡ list_at s.constraint_state slot) ⊎ (list_at st slot ≡ [])
      → All (IsSigned sign pubkeys slot) (list_at st slot)
  cleared-IsSigned st slot h (inl e) =
      subst (λ l. All (IsSigned sign pubkeys slot) l) (sym e) (h.blocks slot)
  cleared-IsSigned st slot h (inr e) = subst (λ l. All (IsSigned sign pubkeys slot) l) (sym e) tt

  spawn-SendsProper :
      (t : Task) {s : System} → SendsProper s → TaskIsDue s.heads t → SendsProper (spawn t s)
  unfolding spawn
  spawn-SendsProper t {s} h due = record {
    deadline = h.deadline;
    tasks = All-append (TaskIsDue s.heads) s.tasks (t ∷ []) h.tasks (due, tt);
    blocks = h.blocks;
    sent = h.sent;
  }

  set_deadline-SendsProper :
      (d : CommitmentDeadline) {s : System}
      → SendsProper s
      → d.slot ≡ s.constraint_state.commitment_deadline.slot
      → SendsProper
          (record s { constraint_state = record s.constraint_state { commitment_deadline = d } })
  set_deadline-SendsProper d {s} h e = record {
    deadline = subst (λ k. IsDue s.heads (add_u64 k 1)) (sym e) h.deadline;
    tasks = h.tasks;
    blocks = h.blocks;
    sent = h.sent;
  }

  spawn_deadline-SendsProper :
      (d : CommitmentDeadline) (p : Poll) {s : System}
      → SendsProper s
      → d.slot ≡ s.constraint_state.commitment_deadline.slot
      → ((slot : ℕ) → p ≡ ready (some slot) → slot ≡ s.constraint_state.commitment_deadline.slot)
      → SendsProper (spawn_deadline s (d, p))
  spawn_deadline-SendsProper d pending h e given = h
  spawn_deadline-SendsProper d (ready none) h e given = set_deadline-SendsProper d h e
  spawn_deadline-SendsProper d (ready (some slot)) {s} h e given =
      spawn-SendsProper _ (set_deadline-SendsProper d h e)
        (subst (λ k. IsDue s.heads (add_u64 k 1)) (sym (given slot refl)) h.deadline)

  module _ (lib : TxLib) (f : F64) (builder_lib : BuilderLib) where
    -- The block that is taken out has the constraints of its slot.
    send_and_build-SendsProper :
        (w : World) (slot : ℕ) (st : ConstraintState) (o : Option Block) {s : System}
        → SendsProper s
        → IsDue s.heads slot
        → st.commitment_deadline ≡ s.constraint_state.commitment_deadline
        → st.blocks ≡ remove slot s.constraint_state.blocks
        → lookup slot s.constraint_state.blocks ≡ o
        → SendsProper (send_and_build lib f builder_lib sign pubkeys w slot (st, o) s)
    send_and_build-SendsProper w slot st none {s} h due d left found = record {
      deadline = subst (λ c. IsDue s.heads (add_u64 c.slot 1)) (sym d) h.deadline;
      tasks = h.tasks;
      blocks = λ other.
          cleared-IsSigned st other h
            (emptied (list_in-remove slot other s.constraint_state.blocks st.blocks left));
      sent = h.sent;
    }
    send_and_build-SendsProper w slot st (some block) {s} h due d left found = record {
      deadline = subst (λ c. IsDue s.heads (add_u64 c.slot 1)) (sym d) h.deadline;
      tasks = h.tasks;
      blocks = λ other.
          cleared-IsSigned st other h
            (emptied (list_in-remove slot other s.constraint_state.blocks st.blocks left));
      sent = (
        (
          due,
          subst (λ o. All (IsSigned sign pubkeys slot) (block_or_default o).signed_constraints_list)
              found (h.blocks slot),
        ),
        h.sent,
      );
    }

    run_task-SendsProper :
        (w : World) (t : Task) {s : System}
        → SendsProper s
        → TaskIsDue s.heads t
        → SendsProper (run_task lib f builder_lib sign pubkeys w t s)
    unfolding run_task handle_commitment_deadline remove_constraints_at_slot
    run_task-SendsProper w (preconfirmation_request req) {s} h due =
        log_promise-SendsProper req.slot _ (
          Added-SendsProper h (
            handle_preconfirmation_request-Added sign pubkeys lib f w.fetch w.delegations
              s.constraint_state req w.now))
    run_task-SendsProper w (commitment_deadline slot) h due =
        send_and_build-SendsProper w slot _ _ h due refl refl refl
    run_task-SendsProper w (head_event head) {s} h due =
        let cleared =
          handle_head_event-blocks lib w.beacon_headers w.duties w.receipts w.update w.started w.now
            s.constraint_state head in
        record {
          deadline = inr (
              inl (
                ap (λ k. add_u64 k 1)
                  (sym (
                    handle_head_event-deadline lib w.beacon_headers w.duties w.receipts w.update
                      w.started w.now s.constraint_state head))));
          tasks = All_map _ _ s.tasks (TaskIsDue-head s.heads head) h.tasks;
          blocks = λ other.
              cleared-IsSigned
                (handle_head_event lib w.beacon_headers w.duties w.receipts w.update w.started w.now
                  s.constraint_state head)
                other h (emptied (cleared other));
          sent = All_map _ _ s.sent (IsProper-head s.heads head) h.sent;
        }

    Step-SendsProper :
        {s t : System} → Step lib f builder_lib sign pubkeys s t → SendsProper s → SendsProper t
    unfolding poll_deadline ask_header
    Step-SendsProper (receive_request req) h = spawn-SendsProper _ h tt
    Step-SendsProper {s} (reach_deadline now) h =
        let (same, given) = wait_slot s.constraint_state.commitment_deadline now in
        spawn_deadline-SendsProper _ _ h same given
    Step-SendsProper (receive_head slot) h = spawn-SendsProper _ h tt
    Step-SendsProper (request_header slot relay response_open) h = record {
      deadline = h.deadline;
      tasks = h.tasks;
      blocks = h.blocks;
      sent = h.sent;
    }
    Step-SendsProper {s} (run w before t after e) h =
        let (due, others) =
          All-middle (TaskIsDue s.heads) before t after
            (subst (λ l. All (TaskIsDue s.heads) l) e h.tasks) in
        run_task-SendsProper w t
          (record { deadline = h.deadline; tasks = others; blocks = h.blocks; sent = h.sent }) due

    start-SendsProper :
        (execution : ExecutionState) (builder : FallbackBuilder) (duration chain_id now : ℕ)
        → SendsProper (start execution builder duration chain_id now)
    unfolding start State.new deadline lookup
    start-SendsProper execution builder duration chain_id now = record {
      deadline = inl refl;
      tasks = tt;
      blocks = λ slot. tt;
      sent = tt;
    }

    reached :
        {s t : System} → SendsProper s → Reach lib f builder_lib sign pubkeys s t → SendsProper t
    reached h here = h
    reached h (next r step) = Step-SendsProper step (reached h r)

    -- In every run, whatever requests, heads, deadlines and proxy requests come, and in whatever
    -- order the handlers run: the blocks that are sent to the relay are for the second slot after a
    -- head that was handled, or for slot 1, and each of their constraints is for the slot of its
    -- block, has one transaction, and is signed with a key that the gateway holds.
    pub Reach-IsProper :
        (execution : ExecutionState) (builder : FallbackBuilder) (duration chain_id now : ℕ)
        (s : System)
        → Reach lib f builder_lib sign pubkeys (start execution builder duration chain_id now) s
        → All (IsProper s.heads) s.sent
    Reach-IsProper execution builder duration chain_id now s r =
        (reached (start-SendsProper execution builder duration chain_id now) r).sent
