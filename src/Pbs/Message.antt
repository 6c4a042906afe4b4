-- ===== src/Pbs/Message.antt =====
-- Constraint messages and the data that proofs of inclusion need
-- (interstate-pbs-module/src/types.rs). Hashing, decoding and SSZ roots are `PbsLib`.
use proposer_commitment_netw.Base.{
  ℕ, Bool, Option, List, [], ◌∷◌, Result, ok, err, panic, ◌>>=◌, ok_or, ◌==◌, if◌then◌else◌,
}

abbrev pub Bytes : Type 0
Bytes = List ℕ

pub record ConstraintsMessage : Type 0 where
  pub pubkey : ℕ
  pub slot : ℕ
  pub top : Bool
  pub transactions : List Bytes

pub record ConstraintsWithProofData : Type 0 where
  pub message : ConstraintsMessage
  -- transaction hashes with their hash tree roots
  pub proof_data : List (ℕ × ℕ)

-- The payload of a blob transaction, with or without its sidecar.
pub data TxEip4844Variant : Type 0 where
  tx_eip4844 : ℕ → TxEip4844Variant
  tx_eip4844_with_sidecar : ℕ → ℕ → TxEip4844Variant

pub data TxEnvelope : Type 0 where
  eip4844 : TxEip4844Variant → ℕ → ℕ → TxEnvelope
  -- with its hash
  other : ℕ → TxEnvelope

pub data Eip2718Error : Type 0 where
  empty_rlp : Eip2718Error
  decode_failed : Eip2718Error

pub record PbsLib : Type 0 where
  pub keccak256 : Bytes → ℕ
  pub hash_tree_root : Bytes → ℕ
  pub decode_2718 : Bytes → Option TxEnvelope
  -- `encode_2718` of a blob transaction without its sidecar: payload, signature, hash
  pub encode_2718 : ℕ → ℕ → ℕ → Bytes
  -- leaves, merkle hashes, generalized indexes and root
  pub verify_merkle_multiproof : List ℕ → List ℕ → List ℕ → ℕ → Bool

module _ (lib : PbsLib) where
  unfoldable pub blob_proof : Bytes → TxEnvelope → Result Eip2718Error (ℕ × ℕ)
  blob_proof raw_tx (other _) = panic
  blob_proof raw_tx (eip4844 (tx_eip4844 _) _ tx_hash) = ok (tx_hash, lib.hash_tree_root raw_tx)
  blob_proof raw_tx (eip4844 (tx_eip4844_with_sidecar tx _) signature tx_hash) =
      ok (tx_hash, lib.hash_tree_root (lib.encode_2718 tx signature tx_hash))

  unfoldable pub tx_proof : Bytes → Result Eip2718Error (ℕ × ℕ)
  unfolding blob_proof
  tx_proof [] = err empty_rlp
  tx_proof (type_id ∷ payload) =
      let raw_tx = type_id ∷ payload in
      if type_id == 3
      then (do envelope ← ok_or (lib.decode_2718 raw_tx) decode_failed; blob_proof raw_tx envelope)
      else ok (lib.keccak256 raw_tx, lib.hash_tree_root raw_tx)

  unfoldable pub tx_proofs : List Bytes → Result Eip2718Error (List (ℕ × ℕ))
  unfolding tx_proof
  tx_proofs [] = ok []
  tx_proofs (raw_tx ∷ raw_txs) = do
    proof ← tx_proof raw_tx
    proofs ← tx_proofs raw_txs
    ok (proof ∷ proofs)

  -- `ConstraintsWithProofData::try_from`
  unfoldable pub try_from : ConstraintsMessage → Result Eip2718Error ConstraintsWithProofData
  unfolding tx_proofs
  try_from message = do
    proof_data ← tx_proofs message.transactions
    ok (record { message = message; proof_data = proof_data })
