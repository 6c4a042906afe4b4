-- ===== src/Examples.antt =====
-- Concrete runs: the data that they share.
mod Fees
mod Caches
mod States
mod Relays
mod Builders
mod Proxies
mod Runs
mod Services
mod Submissions
mod Tools
mod Keyring
use proposer_commitment_netw.Base.{
  ℕ, ◌+◌, ◌*◌, ◌/◌, ◌-◌, Bool, true, false, Option, none, some, List, [], ◌∷◌, leb, length, ◌==◌,
}
use proposer_commitment_netw.Tx.{
  TxLib, TxKind, call, TxTyped, TxEip4844, BlobTx, BlobTransactionSidecar,
  PooledTransactionsElement, legacy, eip2930, eip1559, blob_transaction, eip7702, Constraint,
}
use proposer_commitment_netw.Pricing.{F64}
use proposer_commitment_netw.Request.{PreconfRequest}
use proposer_commitment_netw.Pbs.Message.{PbsLib, Bytes}

-- Of a payload, `rest` is the nonce; everyone pays 3000 per gas with a tip of 100, and account 9
-- has signed.
abbrev pub nonce_of : PooledTransactionsElement → ℕ
nonce_of (legacy t) = t.rest
nonce_of (eip2930 t) = t.rest
nonce_of (eip1559 t) = t.rest
nonce_of (blob_transaction b) = b.tx.rest
nonce_of (eip7702 n) = n

abbrev pub blob_of : PooledTransactionsElement → Option TxEip4844
blob_of (blob_transaction b) = some b.tx
blob_of _ = none

abbrev pub lib : TxLib
lib = record {
  nonce = nonce_of;
  max_fee_per_gas = λ _. 3000;
  max_priority_fee_per_gas = λ _. some 100;
  recover_signer = λ _. some 9;
  hash = nonce_of;
  as_eip4844 = blob_of;
  blob_gas = λ t. 131072 * length t.blob_versioned_hashes;
  legacy_size = λ _. 100;
  eip2930_size = λ _. 100;
  eip1559_size = λ _. 100;
  eip4844_size = λ _. 100;
}

-- A float that is a natural number; the logarithm is the number.
abbrev pub float : F64
float = record {
  of_u64 = λ n. n;
  to_u64 = λ n. n;
  add = λ a b. a + b;
  mul = λ a b. a * b;
  div = λ a b. a / b;
  ln = λ n. n;
  one = 1;
  ether = 1;
  base_multiplier = 1;
  gas_scalar = 1;
}

abbrev pub transfer : ℕ → PooledTransactionsElement
transfer nonce =
    eip1559 (record {
      chain_id = 1;
      gas_limit = 21_000;
      to = call 7;
      value = 5;
      input = [];
      rest = nonce;
    })

abbrev pub blob_payload : TxEip4844
blob_payload = record {
  chain_id = 1;
  gas_limit = 21_000;
  to = 7;
  value = 5;
  input = [];
  max_fee_per_blob_gas = 1_000_000;
  blob_versioned_hashes = 11 ∷ 12 ∷ [];
  rest = 3;
}

abbrev pub blob : PooledTransactionsElement
blob = blob_transaction (record {
  tx = blob_payload;
  sidecar = record { blobs = 1 ∷ []; commitments = 2 ∷ []; proofs = 3 ∷ [] };
})

abbrev pub signed_by : ℕ → ℕ → Constraint
signed_by sender nonce = record { tx = transfer nonce; sender = some sender }

abbrev pub two_transfers : PreconfRequest
two_transfers = record {
  slot = 40;
  txs = signed_by 9 3 ∷ signed_by 9 4 ∷ [];
  signature = 0;
  sender = 9;
  chain_id = 1;
}

-- A hash is the first byte.
abbrev pub first : Bytes → ℕ
first [] = 0
first (x ∷ _) = x

abbrev pub pbs_lib : PbsLib
pbs_lib = record {
  keccak256 = first;
  hash_tree_root = λ b. 100 + first b;
  decode_2718 = λ _. none;
  encode_2718 = λ _ _ _. [];
  verify_merkle_multiproof = λ leaves hashes indexes root. length leaves == root;
}
