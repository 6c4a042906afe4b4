-- ===== src/Pbs/Submission/Blocks.antt =====
-- The blocks of the gateway (interstate-gateway/src/main.rs) in the store of the PBS module
-- (interstate-pbs-module/src/constraints.rs).
use proposer_commitment_netw.Base.{
  ℕ, suc, ◌*◌, ◌≤◌, ◌≡◌, ◌≢◌, ◌↔◌, refl, sym, ap, subst, ◌∙◌, true, false, List, [], ◌∷◌, ◌++◌, map,
  ok, bytes_eq, eq_of_bytes_eq, bytes_eq_refl, inl, inr, Bool-cases, All, length, >>=-eq-ok, arith,
}
use proposer_commitment_netw.Base.Words.{add_u64}
use proposer_commitment_netw.Tx.{Constraint, PooledTransactionsElement}
use proposer_commitment_netw.Constraints.{SignedConstraints}
use proposer_commitment_netw.Gateway.{Signer}
use proposer_commitment_netw.Gateway.EventLoop.Blocks.{IsSigned}
use proposer_commitment_netw.Digest.{sent}
use proposer_commitment_netw.Pbs.Message
use proposer_commitment_netw.Pbs.Message.{ConstraintsWithProofData, PbsLib, try_from}
use proposer_commitment_netw.Pbs.Store.{ConstraintStore, shares, per_slot_max_constraints}
use proposer_commitment_netw.Pbs.Store.Invariant.{Apart, message-try_from}
use proposer_commitment_netw.Pbs.Store.Lookup.{stored}
use proposer_commitment_netw.Pbs.Server.{VerifiedConstraints, epoch_slots, save_all}
use proposer_commitment_netw.Pbs.Submission.{decode_all, saved_if, saved_only_if}

-- No text stands twice in the list.
abbrev pub Unequal : List (List ℕ) → Type 0
Unequal [] = Unit
Unequal (t ∷ ts) = All (λ u. u ≢ t) ts × Unequal ts

-- The messages have the texts as their only transactions.
pub HasTexts : List (List ℕ) → List ConstraintsWithProofData → Type 0
HasTexts [] [] = Unit
HasTexts (t ∷ ts) (d ∷ ds) = (d.message.transactions ≡ t ∷ []) × HasTexts ts ds
HasTexts [] (d ∷ ds) = ⊥
HasTexts (t ∷ ts) [] = ⊥

different : {u t : List ℕ} → bytes_eq u t ≡ false → u ≢ t
different {u} {t} q same =
    let equal : bytes_eq u t ≡ true = ap (λ l. bytes_eq u l) (sym same) ∙ bytes_eq_refl u in cc

shares_iff :
    (c : Message.ConstraintsMessage) (d : ConstraintsWithProofData) (t u : List ℕ)
    → c.transactions ≡ u ∷ []
    → d.message.transactions ≡ t ∷ []
    → (shares c d ≡ false) ↔ (u ≢ t)
shares_iff c d t u e h = elim (Bool-cases (bytes_eq u t)) [
  | inl q ↦ (λ f. absurd (ground arith), λ n. absurd (n (eq_of_bytes_eq u t q)))
  | inr q ↦ (λ f same. absurd (different q same), λ n. ground arith)
]

All-Unequal :
    (d : ConstraintsWithProofData) (t : List ℕ) (ts : List (List ℕ))
    (ds : List ConstraintsWithProofData)
    → d.message.transactions ≡ t ∷ []
    → HasTexts ts ds
    → All (λ later. shares later.message d ≡ false) ds ↔ All (λ u. u ≢ t) ts
unfolding HasTexts
All-Unequal d t [] [] e h = (λ x. x, λ x. x)
All-Unequal d t (u ∷ us) (x ∷ xs) e h =
    let one = shares_iff x.message d t u h.0 e in
    let others = All-Unequal d t us xs e h.1 in
    (λ a. (one.0 a.0, others.0 a.1), λ a. (one.1 a.0, others.1 a.1))
All-Unequal d t [] (x ∷ xs) e h = absurd h
All-Unequal d t (u ∷ us) [] e h = absurd h

Apart-Unequal :
    (ts : List (List ℕ)) (ds : List ConstraintsWithProofData)
    → HasTexts ts ds
    → Apart ds ↔ Unequal ts
unfolding HasTexts
Apart-Unequal [] [] h = (λ x. x, λ x. x)
Apart-Unequal (t ∷ ts) (d ∷ ds) h =
    let one = All-Unequal d t ts ds h.0 h.1 in
    let others = Apart-Unequal ts ds h.1 in
    (λ a. (one.0 a.0, others.0 a.1), λ a. (one.1 a.0, others.1 a.1))
Apart-Unequal [] (d ∷ ds) h = absurd h
Apart-Unequal (t ∷ ts) [] h = absurd h

module _ (lib : PbsLib) (encoded_2718 : PooledTransactionsElement → List ℕ) where
  -- The body that the gateway posts.
  abbrev pub posted : SignedConstraints → VerifiedConstraints
  posted c = record { message = sent encoded_2718 c.message; signature = c.signature }

  -- The texts of all the transactions of a block, in their order.
  abbrev pub texts : List SignedConstraints → List (List ℕ)
  texts [] = []
  texts (c ∷ cs) = map (λ t. encoded_2718 t.tx) c.message.transactions ++ texts cs

  pub single_text :
      (txs : List Constraint)
      → length txs ≡ 1
      → (t : List ℕ) × (map (λ x. encoded_2718 x.tx) txs ≡ t ∷ [])
  single_text [] h = absurd (omega arith)
  single_text (tx ∷ []) h = (encoded_2718 tx.tx, refl)
  single_text (tx ∷ tx' ∷ txs) h = absurd (omega arith)

  module _ (sign : Signer) (pubkeys : List ℕ) (slot : ℕ) where
    pub HasTexts-decode_all :
        (cs : List SignedConstraints) (ds : List ConstraintsWithProofData)
        → All (IsSigned sign pubkeys slot) cs
        → decode_all lib (map posted cs) ≡ ok ds
        → HasTexts (texts cs) ds × (length ds ≡ length cs)
    unfolding decode_all HasTexts sent
    HasTexts-decode_all [] [] h e = (tt, refl)
    HasTexts-decode_all [] (d ∷ ds) h e = cc
    HasTexts-decode_all (c ∷ cs) ds h e =
        let (d, decoded, next) = >>=-eq-ok (try_from lib (posted c).message) _ e in
        let (rest, all, whole) = >>=-eq-ok (decode_all lib (map posted cs)) _ next in
        let whole' : d ∷ rest ≡ ds = ground arith in
        let (others, same_length) = HasTexts-decode_all cs rest h.1 all in
        let (t, only) = single_text c.message.transactions h.0.single in
        let same =
          ap (λ m. m.transactions) (message-try_from lib (posted c).message d decoded) ∙ only in
        subst (λ l. HasTexts (texts (c ∷ cs)) l × (length l ≡ length (c ∷ cs))) whole'
          (rw only (same, others), ap suc same_length)

    for_slot :
        (cs : List SignedConstraints)
        → All (IsSigned sign pubkeys slot) cs
        → All (λ c. c.message.slot ≡ slot) (map posted cs)
    unfolding sent
    for_slot [] h = tt
    for_slot (c ∷ cs) h = (h.0.for_slot, for_slot cs h.1)

    -- A block of the gateway, whose constraints are signed for its slot, is posted to a PBS
    -- module that has nothing of that slot, not too early, and no other call of the store comes
    -- in between. Every constraint is saved exactly if no two transactions of the block are the
    -- same, there are at most 128, and all can be decoded; and then the slot holds the
    -- constraints in their order, each with the data for its proof.
    pub save_all-Unequal :
        (current_slot : ℕ) (s : ConstraintStore) (cs : List SignedConstraints)
        → slot ≤ add_u64 current_slot (epoch_slots * 2)
        → stored s slot ≡ []
        → All (IsSigned sign pubkeys slot) cs
        → let saved = save_all lib current_slot s (map posted cs) in
          ((saved.1 ≡ ok tt) ↔ (
            Unequal (texts cs)
            × (length cs ≤ per_slot_max_constraints)
            × ((ds : List ConstraintsWithProofData) × (decode_all lib (map posted cs) ≡ ok ds))))
          × ((saved.1 ≡ ok tt) → decode_all lib (map posted cs) ≡ ok (stored saved.0 slot))
    save_all-Unequal current_slot s cs timely empty h =
        let only_if =
          saved_only_if lib current_slot slot timely s (map posted cs) (for_slot cs h)
            (subst Apart (sym empty) tt) (rw empty (omega arith)) in
        (
          (
            λ e.
                let (ds, (all, apart, bound), kept) = only_if e in
                let (has, same_length) = HasTexts-decode_all cs ds h all in
                (
                  (Apart-Unequal (texts cs) ds has).0 (subst (λ l. Apart (l ++ ds)) empty apart),
                  (rw (sym same_length)
                      (subst (λ l. length (l ++ ds) ≤ per_slot_max_constraints) empty bound)),
                  (ds, all),
                ),
            λ (unequal, room, (ds, all)).
                let (has, same_length) = HasTexts-decode_all cs ds h all in
                saved_if lib current_slot slot timely s (map posted cs) ds (for_slot cs h) (
                  all,
                  subst (λ l. Apart (l ++ ds)) (sym empty)
                      ((Apart-Unequal (texts cs) ds has).1 unequal),
                  (subst (λ l. length (l ++ ds) ≤ per_slot_max_constraints) (sym empty)
                      (rw same_length room)),
                ),
          ),
          λ e.
              let (ds, (all, apart, bound), kept) = only_if e in
              all ∙ sym (ap ok (kept ∙ ap (λ l. l ++ ds) empty)),
        )
