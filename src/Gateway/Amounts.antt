-- ===== src/Gateway/Amounts.antt =====
-- How many constraints an accepted request adds (interstate-gateway/src/main.rs).
use proposer_commitment_netw.Base.{
  ℕ, ◌+◌, ◌*◌, ◌<◌, ◌≡◌, refl, ap, subst, ◌∙◌, inl, inr, Bool-cases, Option, none, some, List, [],
  ◌∷◌, Result, ok, err, panic, length, length-append, sum_by, if◌then◌else◌, arith,
}
use proposer_commitment_netw.Tx.{TxLib, Constraint}
use proposer_commitment_netw.Tx.Fees.{AccountState}
use proposer_commitment_netw.Pricing.{F64}
use proposer_commitment_netw.Request.{PreconfRequest}
use proposer_commitment_netw.Constraints.{ConstraintsMessage, SignedConstraints, from_tx}
use proposer_commitment_netw.State.{StateError, ConstraintState, block_at}
use proposer_commitment_netw.State.Checks.{validate_preconf_request}
use proposer_commitment_netw.State.Blocks.{check-room, validated-check}
use proposer_commitment_netw.Gateway.{
  Signer, Signing, then_sign, commit, sign_txs, sign_all, concerns, DelegationMessage, accepted,
  respond, answered, handle_preconfirmation_request,
}
use proposer_commitment_netw.Gateway.Promises.{accepted-stored}

-- The length of the list, if the signer has not failed.
abbrev HasLength : Signing → ℕ → Type 0
HasLength (st, none) n = Unit {0}
HasLength (st, some list) n = length list ≡ n

module _ (sign : Signer) (slot : ℕ) where
  then_sign-HasLength :
      (m : Signing) (k : ConstraintState → List SignedConstraints → Signing) (n more : ℕ)
      → HasLength m n
      → ((st : ConstraintState) (list : List SignedConstraints)
          → HasLength (k st list) (length list + more))
      → HasLength (then_sign m k) (n + more)
  then_sign-HasLength (st, none) k n more h rest = tt
  then_sign-HasLength (st, some list) k n more h rest =
      subst (λ l. HasLength (k st list) (l + more)) h (rest st list)

  commit-HasLength :
      (st : ConstraintState) (list : List SignedConstraints) (message : ConstraintsMessage)
      (o : Option ℕ)
      → HasLength (commit sign slot st list message o) (length list + 1)
  commit-HasLength st list message none = tt
  commit-HasLength st list message (some signature) = length-append list _

  sign_txs-HasLength :
      (delegatee : ℕ) (st : ConstraintState) (list : List SignedConstraints) (txs : List Constraint)
      → HasLength (sign_txs sign slot delegatee st list txs) (length list + length txs)
  unfolding sign_txs
  sign_txs-HasLength delegatee st list [] = omega arith
  sign_txs-HasLength delegatee st list (tx ∷ txs) =
      let message = from_tx delegatee slot tx in
      let signing =
        then_sign (commit sign slot st list message (sign message delegatee))
          λ st' list'. sign_txs sign slot delegatee st' list' txs in
      let same : length list + 1 + length txs ≡ length list + length (tx ∷ txs) = omega arith in
      subst (λ n. HasLength signing n) same
        (then_sign-HasLength (commit sign slot st list message (sign message delegatee)) _
          (length list + 1) (length txs) (commit-HasLength st list message (sign message delegatee))
          (λ st' list'. sign_txs-HasLength delegatee st' list' txs))

  -- The delegations of the proposer to one of the gateway's keys.
  abbrev pub matching : ℕ → List ℕ → List DelegationMessage → ℕ
  matching pubkey pubkeys ds = sum_by (λ d. if concerns sign slot pubkey pubkeys d then 1 else 0) ds

  sign_all-HasLength :
      (pubkey : ℕ) (pubkeys : List ℕ) (st : ConstraintState) (list : List SignedConstraints)
      (ds : List DelegationMessage) (txs : List Constraint)
      → HasLength
          (sign_all sign slot pubkey pubkeys st list ds txs)
          (length list + matching pubkey pubkeys ds * length txs)
  unfolding sign_all
  sign_all-HasLength pubkey pubkeys st list [] txs = grind arith
  sign_all-HasLength pubkey pubkeys st list (d ∷ ds) txs =
      let n = matching pubkey pubkeys ds in
      let more = λ (st' : ConstraintState) (list' : List SignedConstraints).
        sign_all sign slot pubkey pubkeys st' list' ds txs in
      let signed = sign_txs sign slot d.delegatee_pubkey st list txs in
      elim (Bool-cases (concerns sign slot pubkey pubkeys d)) [
        | inl e ↦
            let same : length list + length txs + n * length txs
                ≡ length list + (1 + n) * length txs =
              grind arith in
            rw e (
              subst (λ k. HasLength (then_sign signed more) k) same
                (then_sign-HasLength signed more (length list + length txs) (n * length txs)
                  (sign_txs-HasLength d.delegatee_pubkey st list txs)
                  (λ st' list'. sign_all-HasLength pubkey pubkeys st' list' ds txs)))
        | inr e ↦
            let same : length list + n * length txs ≡ length list + (0 + n) * length txs =
              grind arith in
            rw e (
              subst (λ k. HasLength (more st list) k) same
                (sign_all-HasLength pubkey pubkeys st list ds txs))
      ]

  answered-HasLength :
      (m : Signing) (list : List SignedConstraints) (n : ℕ)
      → HasLength m n
      → (answered sign slot m).1 ≡ accepted list
      → length list ≡ n
  answered-HasLength (st, none) list n h e = absurd (ground arith)
  answered-HasLength (st, some l) list n h e =
      let same : l ≡ list = cc in subst (λ k. length k ≡ n) same h

respond-length :
    (sign : Signer) (slot : ℕ) (pubkeys : List ℕ) (ds : List DelegationMessage)
    (txs : List Constraint) (m : ConstraintState × Result StateError ℕ)
    (list : List SignedConstraints)
    → (respond sign slot pubkeys (some ds) txs m).1 ≡ some (accepted list)
    → (pubkey : ℕ) × (m.1 ≡ ok pubkey)
      × (length list ≡ matching sign slot pubkey pubkeys ds * length txs)
respond-length sign slot pubkeys ds txs (st, err e) list r = absurd (ground arith)
respond-length sign slot pubkeys ds txs (st, panic) list r = absurd (ground arith)
respond-length sign slot pubkeys ds txs (st, ok pubkey) list r =
    let signing = sign_all sign slot pubkey pubkeys st [] ds txs in
    let counted = sign_all-HasLength sign slot pubkey pubkeys st [] ds txs in
    (pubkey, refl, omega (arith, answered-HasLength sign slot signing list _ counted (cc)))

-- A request that is accepted with the delegations `ds` adds a constraint for each of its transactions
-- and each delegation of the slot's proposer to a key of the gateway: the block of the slot grows by
-- the product of the two numbers, although the request was checked for as many as its transactions.
pub accepted-length :
    (lib : TxLib) (f : F64) (fetch : ℕ → Option AccountState) (sign : Signer) (pubkeys : List ℕ)
    (ds : List DelegationMessage) (st : ConstraintState) (req : PreconfRequest) (now : ℕ)
    (list : List SignedConstraints)
    → let (st', r) = handle_preconfirmation_request lib f fetch sign pubkeys (some ds) st req now in
      r ≡ some (accepted list)
      → (pubkey : ℕ) × ((validate_preconf_request lib f fetch st req now).1 ≡ ok pubkey)
        × (length (block_at st'.blocks req.slot).signed_constraints_list
            ≡ length (block_at st.blocks req.slot).signed_constraints_list
              + matching sign req.slot pubkey pubkeys ds * length req.txs)
unfolding handle_preconfirmation_request
accepted-length lib f fetch sign pubkeys ds st req now list h =
    let (pubkey, valid, counted) = respond-length sign req.slot pubkeys ds req.txs _ list h in
    let stored = accepted-stored lib f fetch sign pubkeys (some ds) st req now list h in
    (
      pubkey,
      valid,
      ap length stored
          ∙ (length-append (block_at st.blocks req.slot).signed_constraints_list list
              ∙ ap (λ n. length (block_at st.blocks req.slot).signed_constraints_list + n) counted),
    )

-- A request of `n` transactions that is accepted with `m` matching delegations leaves the block of its
-- slot with fewer than the limit plus `(m - 1) * n` constraints, so below the limit with one such
-- delegation, for which the request is checked.
pub accepted-bounded :
    (lib : TxLib) (f : F64) (fetch : ℕ → Option AccountState) (sign : Signer) (pubkeys : List ℕ)
    (ds : List DelegationMessage) (st : ConstraintState) (req : PreconfRequest) (now : ℕ)
    (list : List SignedConstraints)
    → let (st', r) = handle_preconfirmation_request lib f fetch sign pubkeys (some ds) st req now in
      r ≡ some (accepted list)
      → (pubkey : ℕ) × ((validate_preconf_request lib f fetch st req now).1 ≡ ok pubkey)
        × (length (block_at st'.blocks req.slot).signed_constraints_list + length req.txs
            < st.max_commitments_in_block
              + matching sign req.slot pubkey pubkeys ds * length req.txs)
accepted-bounded lib f fetch sign pubkeys ds st req now list h =
    let (pubkey, valid, grown) = accepted-length lib f fetch sign pubkeys ds st req now list h in
    let room =
      check-room lib st req now pubkey (validated-check lib f fetch st req now pubkey valid) in
    (pubkey, valid, omega (arith, grown, room))
