-- ===== src/Gateway/Promises.antt =====
-- What the client of an accepted request is told, and what the gateway keeps
-- (interstate-gateway/src/main.rs).
use proposer_commitment_netw.Base.{
  append_assoc, append-nil, ℕ, ◌≡◌, refl, sym, ap, ◌∙◌, inl, inr, Bool-cases, Option, none, some,
  List, [], ◌∷◌, ◌++◌, Result, ok, err, panic, ==_refl, arith,
}
use proposer_commitment_netw.Tx.{TxLib, Constraint}
use proposer_commitment_netw.Tx.Fees.{AccountState}
use proposer_commitment_netw.Pricing.{F64}
use proposer_commitment_netw.Request.{PreconfRequest}
use proposer_commitment_netw.Constraints.{ConstraintsMessage, SignedConstraints, from_tx}
use proposer_commitment_netw.State.{
  StateError, ConstraintState, block_at, add_constraint, add_constraints,
}
use proposer_commitment_netw.State.Blocks.{add_constraint_lem}
use proposer_commitment_netw.State.Checks.{check, verify, validate_preconf_request}
use proposer_commitment_netw.Gateway.{
  Signer, Signing, then_sign, commit, sign_txs, sign_all, concerns, DelegationMessage, accepted,
  respond, answered, handle_preconfirmation_request,
}

module _ (sign : Signer) (slot : ℕ) (start : List SignedConstraints) where
  -- The block of the slot is what it was at the start and the list.
  abbrev pub InStep : ConstraintState → List SignedConstraints → Type 0
  InStep st list = (block_at st.blocks slot).signed_constraints_list ≡ start ++ list

  abbrev pub InStepIf : Signing → Type 0
  InStepIf (st, none) = Unit {0}
  InStepIf (st, some list) = InStep st list

  then_sign-InStep :
      (m : Signing) (k : ConstraintState → List SignedConstraints → Signing)
      → InStepIf m
      → ((st : ConstraintState) (list : List SignedConstraints)
          → InStep st list
          → InStepIf (k st list))
      → InStepIf (then_sign m k)
  then_sign-InStep (st, none) k h next = tt
  then_sign-InStep (st, some list) k h next = next st list h

  commit-InStep :
      (st : ConstraintState) (list : List SignedConstraints) (message : ConstraintsMessage)
      (o : Option ℕ)
      → InStep st list
      → InStepIf (commit sign slot st list message o)
  unfolding add_constraints
  commit-InStep st list message none h = tt
  commit-InStep st list message (some signature) h =
      let signed : SignedConstraints = record { message = message; signature = signature } in
      let added : block_at (add_constraint st slot signed).blocks slot
          ≡ add_constraints signed (block_at st.blocks slot) =
        add_constraint_lem st slot slot signed ∙ rw (==_refl) refl in
      ap (λ b. b.signed_constraints_list) added
      ∙ (ap (λ l. l ++ (signed ∷ [])) h ∙ append_assoc start list (signed ∷ []))

  sign_txs-InStep :
      (delegatee : ℕ) (st : ConstraintState) (list : List SignedConstraints) (txs : List Constraint)
      → InStep st list
      → InStepIf (sign_txs sign slot delegatee st list txs)
  unfolding sign_txs
  sign_txs-InStep delegatee st list [] h = h
  sign_txs-InStep delegatee st list (tx ∷ txs) h =
      let message = from_tx delegatee slot tx in
      then_sign-InStep (commit sign slot st list message (sign message delegatee)) _
        (commit-InStep st list message (sign message delegatee) h)
        (λ st' list' h'. sign_txs-InStep delegatee st' list' txs h')

  sign_all-InStep :
      (pubkey : ℕ) (pubkeys : List ℕ) (st : ConstraintState) (list : List SignedConstraints)
      (ds : List DelegationMessage) (txs : List Constraint)
      → InStep st list
      → InStepIf (sign_all sign slot pubkey pubkeys st list ds txs)
  unfolding sign_all
  sign_all-InStep pubkey pubkeys st list [] txs h = h
  sign_all-InStep pubkey pubkeys st list (d ∷ ds) txs h =
      elim (Bool-cases (concerns sign slot pubkey pubkeys d)) [
        | inl e ↦ rw (e) (
            then_sign-InStep (sign_txs sign slot d.delegatee_pubkey st list txs) _
              (sign_txs-InStep d.delegatee_pubkey st list txs h)
              (λ st' list' h'. sign_all-InStep pubkey pubkeys st' list' ds txs h'))
        | inr e ↦ rw (e) (sign_all-InStep pubkey pubkeys st list ds txs h)
      ]

  answered-InStep :
      (m : Signing) (list : List SignedConstraints)
      → InStepIf m
      → (answered sign slot m).1 ≡ accepted list
      → InStep (answered sign slot m).0 list
  answered-InStep (st, none) list h e = absurd (ground arith)
  answered-InStep (st, some l) list h e = let same : l ≡ list = cc in rw (← same) h

respond-stored :
    (sign : Signer) (slot : ℕ) (pubkeys : List ℕ) (ds : Option (List DelegationMessage))
    (txs : List Constraint) (start : List SignedConstraints)
    (m : ConstraintState × Result StateError ℕ) (list : List SignedConstraints)
    → (block_at m.0.blocks slot).signed_constraints_list ≡ start
    → (respond sign slot pubkeys ds txs m).1 ≡ some (accepted list)
    → (block_at (respond sign slot pubkeys ds txs m).0.blocks slot).signed_constraints_list
      ≡ start ++ list
respond-stored sign slot pubkeys ds txs start (st, err e) list h r = absurd (ground arith)
respond-stored sign slot pubkeys ds txs start (st, panic) list h r = absurd (ground arith)
respond-stored sign slot pubkeys none txs start (st, ok pubkey) list h r = absurd (ground arith)
respond-stored sign slot pubkeys (some ds) txs start (st, ok pubkey) list h r =
    let signing = sign_all sign slot pubkey pubkeys st [] ds txs in
    let kept =
      sign_all-InStep sign slot start pubkey pubkeys st [] ds txs (h ∙ sym (append-nil start)) in
    answered-InStep sign slot start signing list kept (cc)

verify-blocks :
    (lib : TxLib) (f : F64) (fetch : ℕ → Option AccountState) (st : ConstraintState)
    (req : PreconfRequest) (r : Result StateError ℕ)
    → (verify lib f fetch st req r).0.blocks ≡ st.blocks
verify-blocks lib f fetch st req (ok key) = refl
verify-blocks lib f fetch st req (err e) = refl
verify-blocks lib f fetch st req panic = refl

-- If a request is answered with a list of signed constraints, then that list, in that order, is
-- what the block of its slot has gained.
pub accepted-stored :
    (lib : TxLib) (f : F64) (fetch : ℕ → Option AccountState) (sign : Signer) (pubkeys : List ℕ)
    (ds : Option (List DelegationMessage)) (st : ConstraintState) (req : PreconfRequest) (now : ℕ)
    (list : List SignedConstraints)
    → let (st', r) = handle_preconfirmation_request lib f fetch sign pubkeys ds st req now in
      r ≡ some (accepted list)
      → (block_at st'.blocks req.slot).signed_constraints_list
        ≡ (block_at st.blocks req.slot).signed_constraints_list ++ list
unfolding handle_preconfirmation_request validate_preconf_request
accepted-stored lib f fetch sign pubkeys ds st req now list h =
    let same = verify-blocks lib f fetch st req (check lib st req now) in
    respond-stored sign req.slot pubkeys ds req.txs _ _ list
      (ap (λ b. (block_at b req.slot).signed_constraints_list) same) h
