-- ===== src/Pbs/Submission/Chosen.antt =====
-- The header that the PBS module gives (`get_header_with_proofs` of
-- interstate-pbs-module/src/server.rs) after a block of the gateway was saved.
use proposer_commitment_netw.Base.{
  ℕ, ◌*◌, ◌≤◌, ◌≡◌, refl, sym, ap, subst, ◌∙◌, true, Option, some, List, [], ◌∷◌, map, ok, inl, inr,
  unwrap_or, Option-cases, Result-cases, ok-injective, ◌++◌, >>=-eq-ok, All, length, arith,
}
use proposer_commitment_netw.Base.Assoc
use proposer_commitment_netw.Base.Words.{add_u64}
use proposer_commitment_netw.Tx.{PooledTransactionsElement}
use proposer_commitment_netw.Constraints.{SignedConstraints}
use proposer_commitment_netw.Gateway.{Signer}
use proposer_commitment_netw.Gateway.EventLoop.Blocks.{IsSigned}
use proposer_commitment_netw.Digest.{sent}
use proposer_commitment_netw.Pbs.Message.{
  Eip2718Error, ConstraintsMessage, try_from, tx_proof, tx_proofs, ConstraintsWithProofData, PbsLib,
}
use proposer_commitment_netw.Pbs.Store.{ConstraintStore, remove_constraints}
use proposer_commitment_netw.Pbs.Store.Lookup.{stored, remove_constraints_lem}
use proposer_commitment_netw.Pbs.Proofs.{
  validate_multiproofs, calculate_total_leaves, all_proof_data, LeavesOf, validate_multiproofs_iff,
}
use proposer_commitment_netw.Pbs.Server.{
  Bid, Header, epoch_slots, save_all, is_proven, choose_header,
}
use proposer_commitment_netw.Pbs.Server.Bids.{Answered, Best, choose_header-Best}
use proposer_commitment_netw.Pbs.Submission.{decode_all}
use proposer_commitment_netw.Pbs.Submission.Blocks.{
  HasTexts-decode_all, posted, texts, single_text, save_all-Unequal,
}

is_proven-ok :
    (lib : PbsLib) (ds : List ConstraintsWithProofData) (bid : Bid)
    → is_proven lib (some ds) bid ≡ true
    → validate_multiproofs lib ds bid.proofs bid.header.transactions_root ≡ ok tt
unfolding is_proven
is_proven-ok lib ds bid h =
    elim (Result-cases (validate_multiproofs lib ds bid.proofs bid.header.transactions_root)) [
      | inl (u, e) ↦ e
      | inr (inl (x, e)) ↦ absurd (ground arith)
      | inr (inr e) ↦ absurd (ground arith)
    ]

lookup-stored :
    (s : ConstraintStore) (slot : ℕ) (ds : List ConstraintsWithProofData)
    → 1 ≤ length ds
    → stored s slot ≡ ds
    → Assoc.lookup slot s.cache ≡ some ds
lookup-stored s slot ds long e = elim (Option-cases (Assoc.lookup slot s.cache)) [
  | inl q ↦
      let none_stored : ds ≡ [] = sym e ∙ ap (λ o. unwrap_or o []) q in
      absurd (omega (arith, ap length none_stored))
  | inr (xs, q) ↦ ground arith
]

try_from-single :
    (lib : PbsLib) (m : ConstraintsMessage) (t : List ℕ) (d : ConstraintsWithProofData)
    → m.transactions ≡ t ∷ []
    → try_from lib m ≡ ok d
    → (p : ℕ × ℕ) × (tx_proof lib t ≡ ok p) × (d.proof_data ≡ p ∷ [])
unfolding try_from tx_proofs
try_from-single lib m t d only e =
    let (pairs, each, whole) = >>=-eq-ok (tx_proofs lib m.transactions) _ e in
    let each' : tx_proofs lib (t ∷ []) ≡ ok pairs = ap (λ l. tx_proofs lib l) (sym only) ∙ each in
    let (p, one, rest) = >>=-eq-ok (tx_proof lib t) _ each' in
    (
      p,
      one,
      ap (λ x. x.proof_data) (sym (ok-injective {E = Eip2718Error} whole))
          ∙ sym (ok-injective {E = Eip2718Error} rest),
    )

module _ (lib : PbsLib) (encoded_2718 : PooledTransactionsElement → List ℕ) (sign : Signer)
    (pubkeys : List ℕ) (slot : ℕ) where
  tx_proofs-texts :
      (cs : List SignedConstraints) (ds : List ConstraintsWithProofData)
      → All (IsSigned sign pubkeys slot) cs
      → decode_all lib (map (posted lib encoded_2718) cs) ≡ ok ds
      → (tx_proofs lib (texts lib encoded_2718 cs) ≡ ok (all_proof_data ds))
        × (calculate_total_leaves ds ≡ length cs)
  unfolding decode_all tx_proofs calculate_total_leaves sent
  tx_proofs-texts [] [] h e = (refl, refl)
  tx_proofs-texts [] (d ∷ ds) h e = cc
  tx_proofs-texts (c ∷ cs) ds h e =
      let m = (posted lib encoded_2718 c).message in
      let (d, decoded, next) = >>=-eq-ok (try_from lib m) _ e in
      let (rest, all, whole) =
        >>=-eq-ok (decode_all lib (map (posted lib encoded_2718) cs)) _ next in
      let whole' : d ∷ rest ≡ ds = ground arith in
      let (proofs, counted) = tx_proofs-texts cs rest h.1 all in
      let (t, only) = single_text lib encoded_2718 c.message.transactions h.0.single in
      let (p, one, pairs) = try_from-single lib m t d only decoded in
      let texts_of = texts lib encoded_2718 in
      let at_head : texts_of (c ∷ cs) ≡ t ∷ texts_of cs = ap (λ l. l ++ texts_of cs) only in
      let in_front : all_proof_data (d ∷ rest) ≡ p ∷ all_proof_data rest =
        ap (λ l. l ++ all_proof_data rest) pairs in
      let both : tx_proofs lib (t ∷ texts_of cs) ≡ ok (p ∷ all_proof_data rest) =
        rw (one, proofs) refl in
      subst
        (λ l.
          (tx_proofs lib (texts_of (c ∷ cs)) ≡ ok (all_proof_data l))
          × (calculate_total_leaves l ≡ length (c ∷ cs)))
        whole'
        (
          ap (λ l. tx_proofs lib l) at_head ∙ (both ∙ sym (ap ok in_front)),
          omega (arith, ap length pairs, counted),
        )

  -- What the proofs of a header have to show of the transactions of a block.
  abbrev pub ProvesAll : List SignedConstraints → Bid → Type 0
  ProvesAll cs bid =
      (pairs : List (ℕ × ℕ)) × (tx_proofs lib (texts lib encoded_2718 cs) ≡ ok pairs)
      × (length bid.proofs.transaction_hashes ≡ length cs)
      × ((leaves : List ℕ) × LeavesOf pairs bid.proofs.transaction_hashes leaves
          × (lib.verify_merkle_multiproof leaves bid.proofs.merkle_hashes
                bid.proofs.generalized_indexes bid.header.transactions_root
              ≡ true))

  -- From the promise to the header: a block of the gateway that is not empty is saved in a PBS
  -- module that has nothing of its slot, and no other call of the store comes in between or
  -- before the header. A header that is then given for the slot is that of a relay's bid with as
  -- many transaction hashes as the block has constraints, each the hash of one of its
  -- transactions, and with a multiproof of these transactions' leaves in the header's root.
  pub chosen-ProvesAll :
      (current_slot : ℕ) (s : ConstraintStore) (cs : List SignedConstraints)
      (results : List (Option Bid)) (header : Header)
      → 1 ≤ length cs
      → slot ≤ add_u64 current_slot (epoch_slots * 2)
      → stored s slot ≡ []
      → All (IsSigned sign pubkeys slot) cs
      → let saved = save_all lib current_slot s (map (posted lib encoded_2718) cs) in
        (saved.1 ≡ ok tt)
        → (choose_header lib saved.0 slot results).1 ≡ some header
        → (bid : Bid) × Answered bid results × (bid.header ≡ header) × ProvesAll cs bid
  chosen-ProvesAll current_slot s cs results header long timely empty h e chosen =
      let saved = save_all lib current_slot s (map (posted lib encoded_2718) cs) in
      let all =
        (save_all-Unequal lib encoded_2718 sign pubkeys slot current_slot s cs timely empty h).1
          e in
      let ds = stored saved.0 slot in
      let (proofs, counted) = tx_proofs-texts cs ds h all in
      let same_length = (HasTexts-decode_all lib encoded_2718 sign pubkeys slot cs ds h all).1 in
      let taken : (remove_constraints saved.0 slot).1 ≡ some ds =
        (remove_constraints_lem saved.0 slot slot).0
        ∙ lookup-stored saved.0 slot ds (omega arith) refl in
      let best =
        subst (λ o. Best lib (remove_constraints saved.0 slot).1 results o) chosen
          (choose_header-Best lib saved.0 slot results) in
      let (bid, answered, proven, same) =
        (subst (λ o. Best lib o results (some header)) taken best).0 in
      let (_, as_many, (leaves, found, verified)) =
        (validate_multiproofs_iff lib ds bid.proofs bid.header.transactions_root).0
          (is_proven-ok lib ds bid proven) in
      (
        bid,
        answered,
        same,
        (all_proof_data ds, proofs, sym as_many ∙ counted, (leaves, found, verified)),
      )
