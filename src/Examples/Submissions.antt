-- ===== src/Examples/Submissions.antt =====
-- Concrete runs of a block of the gateway at the PBS module.
use proposer_commitment_netw.Base.{
  ℕ, ◌+◌, ◌≡◌, ◌↔◌, ◌≤◌, refl, Option, some, List, [], ◌∷◌, map, Result, bytes_eq, ok, All, arith,
}
use proposer_commitment_netw.Tx.{PooledTransactionsElement}
use proposer_commitment_netw.Constraints.{SignedConstraints, from_tx}
use proposer_commitment_netw.Gateway.{Signer}
use proposer_commitment_netw.Gateway.EventLoop.Blocks.{IsSigned}
use proposer_commitment_netw.Pbs.Message.{try_from, tx_proof, tx_proofs, ConstraintsWithProofData}
use proposer_commitment_netw.Base.Assoc
use proposer_commitment_netw.Digest.{sent}
use proposer_commitment_netw.Pbs.Proofs.{
  validate_multiproofs, calculate_total_leaves, collect_leaves, find_leaf, find_in,
}
use proposer_commitment_netw.Pbs.Store
use proposer_commitment_netw.Pbs.Store.{ConstraintStore, per_slot_max_constraints}
use proposer_commitment_netw.Pbs.Store.Lookup.{stored}
use proposer_commitment_netw.Pbs.Server.{
  PbsClientError, collect_bids, max_by_value, is_proven, Bid, Header, save_all, choose_header,
}
use proposer_commitment_netw.Pbs.Server.Bids.{Answered}
use proposer_commitment_netw.Pbs.Submission.{decode_all}
use proposer_commitment_netw.Pbs.Submission.Blocks.{Unequal, posted, texts, save_all-Unequal}
use proposer_commitment_netw.Pbs.Submission.Chosen.{ProvesAll, chosen-ProvesAll}
use proposer_commitment_netw.Examples.{signed_by, nonce_of, pbs_lib}

abbrev encoded : PooledTransactionsElement → List ℕ
encoded tx = nonce_of tx ∷ []

abbrev sign : Signer
sign = λ message key. some (key + message.slot)

abbrev promise : ℕ → SignedConstraints
promise nonce = record { message = from_tx 77 40 (signed_by 9 nonce); signature = 117 }

abbrev block : List SignedConstraints
block = promise 5 ∷ promise 6 ∷ []

block-IsSigned : All (IsSigned sign (77 ∷ []) 40) block
unfolding from_tx
block-IsSigned = (
  record { for_slot = refl; single = refl; held = refl; signed = refl },
  (record { for_slot = refl; single = refl; held = refl; signed = refl }, tt),
)

nothing_stored : stored Store.new 40 ≡ []
unfolding Store.new Assoc.lookup
nothing_stored = refl

save_all-Unequal_example :
    let saved = save_all pbs_lib 33 Store.new (map (posted pbs_lib encoded) block) in
    ((saved.1 ≡ ok tt) ↔ (
      Unequal (texts pbs_lib encoded block)
      × (2 ≤ per_slot_max_constraints)
      × ((ds : List ConstraintsWithProofData) × (decode_all pbs_lib
              (map (posted pbs_lib encoded) block)
            ≡ ok ds))))
    × ((saved.1 ≡ ok tt)
        → decode_all pbs_lib (map (posted pbs_lib encoded) block) ≡ ok (stored saved.0 40))
save_all-Unequal_example =
    save_all-Unequal pbs_lib encoded sign (77 ∷ []) 40 33 Store.new block (omega arith)
      nothing_stored block-IsSigned

abbrev header : Header
header = record { block_hash = 5; parent_hash = 4; transactions_root = 2; value = 30; pubkey = 66 }

abbrev results : List (Option Bid)
results =
    some (record {
      header = header;
      proofs = record {
        transaction_hashes = 6 ∷ 5 ∷ [];
        generalized_indexes = 9 ∷ 8 ∷ [];
        merkle_hashes = [];
      };
    })
    ∷ []

abbrev saving : ConstraintStore × Result PbsClientError (Unit {0})
saving = save_all pbs_lib 33 Store.new (map (posted pbs_lib encoded) block)

saved : saving.1 ≡ ok tt
unfolding Store.new save_all sent from_tx Store.add_constraints Store.check_conflicts
    Store.add_decoded Store.push Store.increment try_from tx_proofs tx_proof Assoc.lookup
    Assoc.insert Assoc.modify bytes_eq
saved = refl

chosen : (choose_header pbs_lib saving.0 40 results).1 ≡ some header
unfolding Store.new save_all sent from_tx Store.add_constraints Store.check_conflicts
    Store.add_decoded Store.push Store.increment try_from tx_proofs tx_proof Assoc.lookup
    Assoc.insert Assoc.modify Assoc.remove bytes_eq choose_header collect_bids max_by_value
    is_proven Store.remove_constraints validate_multiproofs calculate_total_leaves collect_leaves
    find_leaf find_in
chosen = refl

chosen-ProvesAll_example :
    (bid : Bid) × Answered bid results
    × (bid.header ≡ header)
    × ProvesAll pbs_lib encoded sign (77 ∷ []) 40 block bid
chosen-ProvesAll_example =
    chosen-ProvesAll pbs_lib encoded sign (77 ∷ []) 40 33 Store.new block results header
      (omega arith) (omega arith) nothing_stored block-IsSigned saved chosen
