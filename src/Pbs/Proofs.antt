-- ===== src/Pbs/Proofs.antt =====
-- The check of a relay's inclusion proofs (interstate-pbs-module/src/proofs.rs).
use proposer_commitment_netw.Base.{
  ℕ, ◌+◌, ◌≡◌, refl, sym, ap, ◌∙◌, ◌↔◌, true, Option, none, some, List, [], ◌∷◌, ◌++◌, Result, ok,
  ◌>>=◌, ◌>>◌, >>=-eq-ok, ensure, ok_or, length, ◌==◌, if◌then◌else◌, ==_refl, ok-injective,
  Result-cases, inl, inr, arith,
}
use proposer_commitment_netw.Base.Assoc
use proposer_commitment_netw.Pbs.Message.{ConstraintsWithProofData, PbsLib}

pub data ProofValidationError : Type 0 where
  length_mismatch : ProofValidationError
  leaves_mismatch : ProofValidationError
  missing_hash : ℕ → ProofValidationError
  verification_failed : ProofValidationError

pub record InclusionProofs : Type 0 where
  pub transaction_hashes : List ℕ
  pub generalized_indexes : List ℕ
  pub merkle_hashes : List ℕ

abbrev pub total_leaves : InclusionProofs → ℕ
total_leaves proofs = length proofs.transaction_hashes

unfoldable pub calculate_total_leaves : List ConstraintsWithProofData → ℕ
calculate_total_leaves [] = 0
calculate_total_leaves (c ∷ cs) = length c.proof_data + calculate_total_leaves cs

-- The inner loop of the search, which breaks at the first hash that is equal.
unfoldable pub find_in : ℕ → List (ℕ × ℕ) → Option ℕ
find_in hash [] = none
find_in hash ((saved_hash, leaf) ∷ rest) =
    if saved_hash == hash then some leaf else find_in hash rest

abbrev pub or_else : Option ℕ → Option ℕ → Option ℕ
or_else (some a) b = some a
or_else none b = b

-- The outer loop, which breaks once `found` is set.
unfoldable pub find_leaf : ℕ → List ConstraintsWithProofData → Option ℕ
find_leaf hash [] = none
find_leaf hash (c ∷ cs) = or_else (find_in hash c.proof_data) (find_leaf hash cs)

unfoldable pub collect_leaves :
    List ConstraintsWithProofData → List ℕ → Result ProofValidationError (List ℕ)
collect_leaves constraints [] = ok []
collect_leaves constraints (hash ∷ hashes) = do
  leaf ← ok_or (find_leaf hash constraints) (missing_hash hash)
  leaves ← collect_leaves constraints hashes
  ok (leaf ∷ leaves)

unfoldable pub validate_multiproofs :
    PbsLib
    → List ConstraintsWithProofData
    → InclusionProofs
    → ℕ
    → Result ProofValidationError (Unit {0})
validate_multiproofs lib constraints proofs root = do
  ensure (length proofs.transaction_hashes == length proofs.generalized_indexes) length_mismatch
  ensure (calculate_total_leaves constraints == total_leaves proofs) leaves_mismatch
  leaves ← collect_leaves constraints proofs.transaction_hashes
  ensure (lib.verify_merkle_multiproof leaves proofs.merkle_hashes proofs.generalized_indexes root)
      verification_failed

-- The saved hashes and leaves of all constraints, in order.
abbrev pub all_proof_data : List ConstraintsWithProofData → List (ℕ × ℕ)
all_proof_data [] = []
all_proof_data (c ∷ cs) = c.proof_data ++ all_proof_data cs

-- The leaf of each hash, by the first saved pair with that hash.
abbrev pub LeavesOf : List (ℕ × ℕ) → List ℕ → List ℕ → Type 0
LeavesOf saved [] [] = Unit
LeavesOf saved (hash ∷ hashes) (leaf ∷ leaves) =
    (Assoc.lookup hash saved ≡ some leaf) × LeavesOf saved hashes leaves
LeavesOf saved _ _ = ⊥

lookup-append :
    (hash : ℕ) (xs ys : List (ℕ × ℕ))
    → Assoc.lookup hash (xs ++ ys) ≡ or_else (find_in hash xs) (Assoc.lookup hash ys)
unfolding find_in Assoc.lookup
lookup-append hash [] ys = refl
lookup-append hash ((j, leaf) ∷ xs) ys = ground (arith, lookup-append hash xs ys)

find_leaf_lem :
    (hash : ℕ) (cs : List ConstraintsWithProofData)
    → find_leaf hash cs ≡ Assoc.lookup hash (all_proof_data cs)
unfolding find_leaf Assoc.lookup
find_leaf_lem hash [] = refl
find_leaf_lem hash (c ∷ cs) =
    ap (λ (o : Option ℕ). or_else (find_in hash c.proof_data) o) (find_leaf_lem hash cs)
    ∙ sym (lookup-append hash c.proof_data (all_proof_data cs))

collect_sound :
    (cs : List ConstraintsWithProofData) (hashes leaves : List ℕ)
    → collect_leaves cs hashes ≡ ok leaves
    → LeavesOf (all_proof_data cs) hashes leaves
unfolding collect_leaves
collect_sound cs [] [] h = tt
collect_sound cs [] (l ∷ ls) h = cc
collect_sound cs (hash ∷ hashes) leaves h =
    let (leaf, e, h1) = >>=-eq-ok (ok_or (find_leaf hash cs) (missing_hash hash)) _ h in
    let (rest, e', h2) = >>=-eq-ok (collect_leaves cs hashes) _ h1 in
    let whole : leaf ∷ rest ≡ leaves = ok-injective {E = ProofValidationError} h2 in
    rw (← whole) (sym (find_leaf_lem hash cs) ∙ ground arith, collect_sound cs hashes rest e')

collect_complete :
    (cs : List ConstraintsWithProofData) (hashes leaves : List ℕ)
    → LeavesOf (all_proof_data cs) hashes leaves
    → collect_leaves cs hashes ≡ ok leaves
unfolding collect_leaves
collect_complete cs [] [] h = refl
collect_complete cs [] (l ∷ ls) h = absurd h
collect_complete cs (hash ∷ hashes) [] h = absurd h
collect_complete cs (hash ∷ hashes) (leaf ∷ leaves) (e, h) =
    rw (find_leaf_lem hash cs ∙ e, collect_complete cs hashes leaves h)

-- The proofs are accepted exactly when there is an index for each hash, as many hashes as saved
-- transactions, each hash is a saved one, and the multiproof holds for the saved leaves of the
-- hashes, in their order.
pub validate_multiproofs_iff :
    (lib : PbsLib) (cs : List ConstraintsWithProofData) (proofs : InclusionProofs) (root : ℕ)
    → (validate_multiproofs lib cs proofs root ≡ ok tt) ↔ (
        (length proofs.transaction_hashes ≡ length proofs.generalized_indexes)
        × (calculate_total_leaves cs ≡ length proofs.transaction_hashes)
        × ((leaves : List ℕ) × LeavesOf (all_proof_data cs) proofs.transaction_hashes leaves
            × (lib.verify_merkle_multiproof leaves proofs.merkle_hashes proofs.generalized_indexes
                  root
                ≡ true)))
unfolding validate_multiproofs
validate_multiproofs_iff lib cs proofs root = (
  λ h. elim (Result-cases (collect_leaves cs proofs.transaction_hashes)) [
    | inl (leaves, e) ↦ (
      ground arith,
      ground arith,
      (leaves, collect_sound cs proofs.transaction_hashes leaves e, ground arith),
    )
    | inr (inl (x, e)) ↦ absurd (ground arith)
    | inr (inr e) ↦ absurd (ground arith)
  ],
  λ (same, counted, (leaves, found, verified)).
      let e = collect_complete cs proofs.transaction_hashes leaves found in
      rw (counted, same, ==_refl, e, verified),
)
