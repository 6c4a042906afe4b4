-- ===== src/Digest.antt =====
-- The bytes that are hashed and signed: `PreconfRequest::digest`
-- (interstate-gateway/src/commitment/request.rs), and `ConstraintsMessage::digest` of the gateway
-- (interstate-gateway/src/constraints/mod.rs) and of the PBS module (interstate-pbs-module/src/types.rs).
-- A hash is a number of 32 bytes, a public key one of 48.
pub mod Bytes
pub mod Binding
use proposer_commitment_netw.Base.{
  ℕ, Bool, true, false, List, [], ◌∷◌, ◌++◌, map, Result, ok, err, panic, ◌>>=◌, ok_or,
}
use proposer_commitment_netw.Tx.{TxLib, PooledTransactionsElement, Constraint}
use proposer_commitment_netw.Request.{PreconfRequest}
use proposer_commitment_netw.Constraints.{ConstraintsMessage}
use proposer_commitment_netw.Pbs.Message.{
  PbsLib, TxEnvelope, eip4844, other, Eip2718Error, decode_failed,
}
use proposer_commitment_netw.Pbs.Message
use proposer_commitment_netw.Digest.Bytes.{to_le_bytes, to_be_bytes}

abbrev pub hash_bytes : ℕ → List ℕ
hash_bytes hash = to_be_bytes 32 hash

-- The hashes of the transactions, one behind the other.
abbrev pub join_hashes : List ℕ → List ℕ
join_hashes [] = []
join_hashes (h ∷ hs) = hash_bytes h ++ join_hashes hs

abbrev pub tx_hashes : TxLib → List Constraint → List ℕ
tx_hashes lib txs = map (λ c. lib.hash c.tx) txs

abbrev pub request_preimage : TxLib → PreconfRequest → List ℕ
request_preimage lib req = to_be_bytes 8 req.slot ++ join_hashes (tx_hashes lib req.txs)

-- `PreconfRequest::digest`
unfoldable pub request_digest : TxLib → (List ℕ → ℕ) → PreconfRequest → ℕ
request_digest lib keccak256 req = keccak256 (request_preimage lib req)

abbrev pub bool_byte : Bool → ℕ
bool_byte false = 0
bool_byte true = 1

abbrev pub message_preimage : ℕ → ℕ → Bool → List ℕ → List ℕ
message_preimage pubkey slot top hashes =
    to_be_bytes 48 pubkey ++ to_le_bytes 8 slot ++ bool_byte top ∷ join_hashes hashes

-- `ConstraintsMessage::digest` of the gateway
unfoldable pub gateway_digest : TxLib → (List ℕ → ℕ) → ConstraintsMessage → ℕ
gateway_digest lib sha256 m =
    sha256 (message_preimage m.pubkey m.slot m.top (tx_hashes lib m.transactions))

abbrev pub tx_hash : TxEnvelope → ℕ
tx_hash (eip4844 variant signature hash) = hash
tx_hash (other hash) = hash

unfoldable pub decoded_hashes : PbsLib → List (List ℕ) → Result Eip2718Error (List ℕ)
decoded_hashes pbs [] = ok []
decoded_hashes pbs (bytes ∷ rest) = do
  tx ← ok_or (pbs.decode_2718 bytes) decode_failed
  hashes ← decoded_hashes pbs rest
  ok (tx_hash tx ∷ hashes)

-- `ConstraintsMessage::digest` of the PBS module
unfoldable pub pbs_digest :
    PbsLib → (List ℕ → ℕ) → Message.ConstraintsMessage → Result Eip2718Error ℕ
unfolding decoded_hashes
pbs_digest pbs sha256 m = do
  hashes ← decoded_hashes pbs m.transactions
  ok (sha256 (message_preimage m.pubkey m.slot m.top hashes))

-- `VerifiedConstraints::verify_signature`; `signing_root` has the domain in it.
unfoldable pub verify_signature :
    PbsLib → (List ℕ → ℕ) → (ℕ → ℕ) → (ℕ → ℕ → ℕ → Bool) → Message.ConstraintsMessage → ℕ → ℕ → Bool
unfolding pbs_digest
verify_signature pbs sha256 signing_root verify m signature pubkey =
    elim (pbs_digest pbs sha256 m) [
      | ok digest ↦ verify pubkey (signing_root digest) signature
      | err e ↦ false
      | panic ↦ false
    ]

-- The message as it is sent to the PBS module: `serialize_txs` encodes the transactions.
unfoldable pub sent :
    (PooledTransactionsElement → List ℕ) → ConstraintsMessage → Message.ConstraintsMessage
sent encoded_2718 m = record {
  pubkey = m.pubkey;
  slot = m.slot;
  top = m.top;
  transactions = map (λ c. encoded_2718 c.tx) m.transactions;
}
