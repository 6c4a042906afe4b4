-- ===== src/Examples/Relays.antt =====
-- Concrete runs of the PBS module.
use proposer_commitment_netw.Base.{
  ℕ, ◌≡◌, ◌↔◌, refl, true, false, Option, none, some, List, [], ◌∷◌, ok, length, arith,
}
use proposer_commitment_netw.Base.Int.{pos}
use proposer_commitment_netw.Pbs.Message.{
  ConstraintsMessage, ConstraintsWithProofData, try_from, tx_proofs, tx_proof,
}
use proposer_commitment_netw.Pbs.Store
use proposer_commitment_netw.Pbs.Store.{
  ConstraintStore, add_constraints, add_decoded, push, increment, check_conflicts,
  remove_constraints, remove_before_constraints, per_slot_max_constraints,
}
use proposer_commitment_netw.Pbs.Store.Lookup.{stored}
use proposer_commitment_netw.Pbs.Store.Concurrent.{
  System, start, advance, checking, writing, Step, Reach, here, next,
}
use proposer_commitment_netw.Pbs.Store.Concurrent.Bounds.{IsBounded, Reach-IsBounded}
use proposer_commitment_netw.Pbs.Store.Concurrent.Duplicates.{stored-twice}
use proposer_commitment_netw.Base.Assoc
use proposer_commitment_netw.Pbs.Proofs.{
  InclusionProofs, validate_multiproofs, calculate_total_leaves, LeavesOf, all_proof_data,
  validate_multiproofs_iff,
}
use proposer_commitment_netw.Pbs.Routes.Runs.{second_header_unproven, headers_of}
use proposer_commitment_netw.Pbs.Server.{
  get_header_with_proofs, max_by_value, Header, Bid, choose_header,
}
use proposer_commitment_netw.Pbs.Server.Bids.{choose_header-Best, Best}
use proposer_commitment_netw.Examples.{pbs_lib}

abbrev message : ConstraintsMessage
message = record { pubkey = 77; slot = 40; top = false; transactions = (2 ∷ 9 ∷ []) ∷ [] }

abbrev proof_data : ConstraintsWithProofData
proof_data = record { message = message; proof_data = (2, 102) ∷ [] }

abbrev one_message : ConstraintStore
one_message = record { cache = (40, proof_data ∷ []) ∷ []; gauge = pos 1 }

abbrev proofs : InclusionProofs
proofs = record { transaction_hashes = 2 ∷ []; generalized_indexes = 8 ∷ []; merkle_hashes = [] }

validate_multiproofs_iff_example :
    (validate_multiproofs pbs_lib (proof_data ∷ []) proofs 1 ≡ ok tt) ↔ (
      (length proofs.transaction_hashes ≡ length proofs.generalized_indexes)
      × (calculate_total_leaves (proof_data ∷ []) ≡ 1)
      × ((leaves : List ℕ) × LeavesOf (all_proof_data (proof_data ∷ [])) (2 ∷ []) leaves
          × (pbs_lib.verify_merkle_multiproof leaves [] (8 ∷ []) 1 ≡ true)))
validate_multiproofs_iff_example = validate_multiproofs_iff pbs_lib (proof_data ∷ []) proofs 1

abbrev best : Header
best = record { block_hash = 5; parent_hash = 4; transactions_root = 1; value = 30; pubkey = 66 }

abbrev results : List (Option Bid)
results = none ∷ some (record { header = best; proofs = proofs }) ∷ []

choose_header-Best_example :
    Best pbs_lib
      (remove_constraints one_message 40).1
      results
      (choose_header pbs_lib one_message 40 results).1
choose_header-Best_example = choose_header-Best pbs_lib one_message 40 results

second_header_unproven_example :
    get_header_with_proofs pbs_lib 900
      (get_header_with_proofs pbs_lib 950 one_message 40 (none ∷ [])).0
      40
      results
    ≡ (
      (get_header_with_proofs pbs_lib 950 one_message 40 (none ∷ [])).0,
      max_by_value (headers_of results),
    )
second_header_unproven_example =
    second_header_unproven pbs_lib one_message 40 950 900 (none ∷ []) results
      (λ h. absurd (omega arith)) (λ h. absurd (omega arith))

-- Two calls with the same message: both have passed the check, and the first has written.
one_written :
    Reach pbs_lib start (record { store = one_message; calls = writing 40 proof_data ∷ [] })
unfolding start Store.new advance check_conflicts try_from tx_proofs tx_proof push increment
    Assoc.lookup Assoc.insert
one_written =
    next
      (next
        (next (next (next here (Step.add 40 message)) (Step.add 40 message))
          (Step.go_on [] (checking 40 message) (checking 40 message ∷ []) refl))
        (Step.go_on (writing 40 proof_data ∷ []) (checking 40 message) [] refl))
      (Step.go_on [] (writing 40 proof_data) (writing 40 proof_data ∷ []) refl)

Reach-IsBounded_example :
    IsBounded pbs_lib (record { store = one_message; calls = writing 40 proof_data ∷ [] })
Reach-IsBounded_example =
    Reach-IsBounded pbs_lib (record { store = one_message; calls = writing 40 proof_data ∷ [] })
      one_written

stored-twice_example :
    (u : System) × Reach pbs_lib start u
    × (u.calls ≡ [])
    × (stored u.store 40 ≡ proof_data ∷ proof_data ∷ [])
unfolding start Store.new check_conflicts try_from tx_proofs tx_proof Assoc.lookup
stored-twice_example = stored-twice pbs_lib start 40 message proof_data refl refl (omega arith)
