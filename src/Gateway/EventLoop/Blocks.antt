-- ===== src/Gateway/EventLoop/Blocks.antt =====
-- What the handlers of interstate-gateway/src/main.rs do to the blocks of the constraint state.
use proposer_commitment_netw.Base.{
  append_assoc, append-nil, ℕ, ◌≡◌, refl, sym, ap, ◌∙◌, inl, inr, Bool-cases, true, Option, none,
  some, List, [], ◌∷◌, ◌++◌, Result, ok, err, panic, ◌==◌, ==→eq, any_of, All, All-append, length,
  arith,
}
use proposer_commitment_netw.Base.Assoc.{Assoc}
use proposer_commitment_netw.Tx.{TxLib, Constraint}
use proposer_commitment_netw.Tx.Fees.{AccountState}
use proposer_commitment_netw.Pricing.{F64}
use proposer_commitment_netw.Request.{PreconfRequest}
use proposer_commitment_netw.Constraints.{SignedConstraints, from_tx}
use proposer_commitment_netw.State.{
  StateError, Block, ConstraintState, block_at, add_constraint, add_constraints,
}
use proposer_commitment_netw.State.Blocks.{add_constraint_lem}
use proposer_commitment_netw.State.Checks.{check, verify, validate_preconf_request}
use proposer_commitment_netw.Gateway.{
  Signer, Signing, then_sign, commit, sign_txs, sign_all, concerns, DelegationMessage, respond,
  answered, handle_preconfirmation_request,
}

abbrev pub list_in : Assoc Block → ℕ → List SignedConstraints
list_in blocks slot = (block_at blocks slot).signed_constraints_list

abbrev pub list_at : ConstraintState → ℕ → List SignedConstraints
list_at st slot = list_in st.blocks slot

module _ (sign : Signer) (pubkeys : List ℕ) where
  -- A constraint of one transaction for the slot, signed with one of the keys that the gateway
  -- holds.
  pub record IsSigned (slot : ℕ) (c : SignedConstraints) : Type 0 where
    pub for_slot : c.message.slot ≡ slot
    pub single : length c.message.transactions ≡ 1
    pub held : any_of (λ k. k == c.message.pubkey) pubkeys ≡ true
    pub signed : sign c.message c.message.pubkey ≡ some c.signature

  -- Every block has gained signed constraints of its slot at its end, or nothing.
  pub record Added (st st' : ConstraintState) : Type 0 where
    pub gained :
        (slot : ℕ)
        → (more : List SignedConstraints) × (list_at st' slot ≡ list_at st slot ++ more)
          × All (IsSigned slot) more
    pub same_deadline : st'.commitment_deadline ≡ st.commitment_deadline

  pub Added-same :
      (st st' : ConstraintState)
      → st'.blocks ≡ st.blocks
      → st'.commitment_deadline ≡ st.commitment_deadline
      → Added st st'
  Added-same st st' b d = record {
    gained = λ slot.
        ([], ap (λ m. (block_at m slot).signed_constraints_list) b ∙ sym (append-nil _), tt);
    same_deadline = d;
  }

  pub Added-trans : {st t u : ConstraintState} → Added st t → Added t u → Added st u
  Added-trans {st} a b = record {
    gained = λ slot.
        let (xs, e, h) = a.gained slot in
        let (ys, e', h') = b.gained slot in
        (
          xs ++ ys,
          e' ∙ (ap (λ l. l ++ ys) e ∙ append_assoc (list_at st slot) xs ys),
          All-append (IsSigned slot) xs ys h h',
        );
    same_deadline = b.same_deadline ∙ a.same_deadline;
  }

  add_constraint-Added :
      (st : ConstraintState) (slot : ℕ) (c : SignedConstraints)
      → IsSigned slot c
      → Added st (add_constraint st slot c)
  unfolding add_constraint add_constraints
  add_constraint-Added st slot c h = record {
    gained = λ other. elim (Bool-cases (slot == other)) [
      | inl e ↦
          let same : slot ≡ other = ==→eq slot other e in
          (
            c ∷ [],
            ap (λ b. b.signed_constraints_list) (add_constraint_lem st slot other c)
                ∙ rw e (rw same refl),
            rw (← same) (h, tt),
          )
      | inr e ↦ (
        [],
        ap (λ b. b.signed_constraints_list) (add_constraint_lem st slot other c)
            ∙ rw e (sym (append-nil _)),
        tt,
      )
    ];
    same_deadline = refl;
  }

  module _ (slot : ℕ) where
    then_sign-Added :
        (st : ConstraintState) (m : Signing)
        (k : ConstraintState → List SignedConstraints → Signing)
        → Added st m.0
        → ((st' : ConstraintState) (list : List SignedConstraints) → Added st' (k st' list).0)
        → Added st (then_sign m k).0
    then_sign-Added st (st', none) k h more = h
    then_sign-Added st (st', some list) k h more = Added-trans h (more st' list)

    commit-Added :
        (delegatee : ℕ) (st : ConstraintState) (list : List SignedConstraints) (tx : Constraint)
        (o : Option ℕ)
        → any_of (λ k. k == delegatee) pubkeys ≡ true
        → sign (from_tx delegatee slot tx) delegatee ≡ o
        → Added st (commit sign slot st list (from_tx delegatee slot tx) o).0
    unfolding from_tx
    commit-Added delegatee st list tx none held e = Added-same st st refl refl
    commit-Added delegatee st list tx (some signature) held e =
        add_constraint-Added st slot _
          (record { for_slot = refl; single = refl; held = held; signed = e })

    sign_txs-Added :
        (delegatee : ℕ) (st : ConstraintState) (list : List SignedConstraints)
        (txs : List Constraint)
        → any_of (λ k. k == delegatee) pubkeys ≡ true
        → Added st (sign_txs sign slot delegatee st list txs).0
    unfolding sign_txs
    sign_txs-Added delegatee st list [] held = Added-same st st refl refl
    sign_txs-Added delegatee st list (tx ∷ txs) held =
        then_sign-Added st _ _ (commit-Added delegatee st list tx _ held refl)
          (λ st' list'. sign_txs-Added delegatee st' list' txs held)

    sign_all-Added :
        (pubkey : ℕ) (st : ConstraintState) (list : List SignedConstraints)
        (ds : List DelegationMessage) (txs : List Constraint)
        → Added st (sign_all sign slot pubkey pubkeys st list ds txs).0
    unfolding sign_all
    sign_all-Added pubkey st list [] txs = Added-same st st refl refl
    sign_all-Added pubkey st list (d ∷ ds) txs =
        elim (Bool-cases (concerns sign slot pubkey pubkeys d)) [
          | inl e ↦ rw e (
              then_sign-Added st _ _ (sign_txs-Added d.delegatee_pubkey st list txs (ground arith))
                (λ st' list'. sign_all-Added pubkey st' list' ds txs))
          | inr e ↦ rw e (sign_all-Added pubkey st list ds txs)
        ]

    answered-state : (m : Signing) → (answered sign slot m).0 ≡ m.0
    answered-state (st, none) = refl
    answered-state (st, some list) = refl

  respond-Added :
      (slot : ℕ) (ds : Option (List DelegationMessage)) (txs : List Constraint)
      (m : ConstraintState × Result StateError ℕ)
      → Added m.0 (respond sign slot pubkeys ds txs m).0
  respond-Added slot none txs (st, ok pubkey) = Added-same st st refl refl
  respond-Added slot (some ds) txs (st, ok pubkey) =
      rw (answered-state slot (sign_all sign slot pubkey pubkeys st [] ds txs))
        (sign_all-Added slot pubkey st [] ds txs)
  respond-Added slot none txs (st, err e) = Added-same st st refl refl
  respond-Added slot (some ds) txs (st, err e) = Added-same st st refl refl
  respond-Added slot none txs (st, panic) = Added-same st st refl refl
  respond-Added slot (some ds) txs (st, panic) = Added-same st st refl refl

  -- However a request ends, the blocks only grow, and only by constraints that were signed.
  pub handle_preconfirmation_request-Added :
      (lib : TxLib) (f : F64) (fetch : ℕ → Option AccountState)
      (ds : Option (List DelegationMessage)) (st : ConstraintState) (req : PreconfRequest) (now : ℕ)
      → Added st (handle_preconfirmation_request lib f fetch sign pubkeys ds st req now).0
  unfolding handle_preconfirmation_request validate_preconf_request
  handle_preconfirmation_request-Added lib f fetch ds st req now =
      Added-trans (verified (check lib st req now))
        (respond-Added req.slot ds req.txs (verify lib f fetch st req (check lib st req now)))
    where
      verified : (r : Result StateError ℕ) → Added st (verify lib f fetch st req r).0
      verified (ok key) = Added-same st _ refl refl
      verified (err e) = Added-same st _ refl refl
      verified panic = Added-same st _ refl refl
