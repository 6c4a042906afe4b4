-- ===== src/Tx.antt =====
-- Pooled transactions and constraints (interstate-gateway/src/constraints/mod.rs,
-- interstate-gateway/src/utils/transactions.rs). The payloads have the fields that the source
-- reads; `rest` stands for those its patterns skip. What the transaction libraries compute is `TxLib`.
pub mod Fees
pub mod Basefee
pub mod Cost
use proposer_commitment_netw.Base.{
  ℕ, ◌-◌, Bool, true, false, Option, none, some, List, Result, ok, panic, ltb, min, ==→eq, ◌==◌,
  if◌then◌else◌,
}

pub data TxKind : Type 0 where
  create : TxKind
  call : ℕ → TxKind

pub data TxType : Type 0 where
  legacy eip2930 eip1559 eip4844 eip7702 : TxType

pub record BlobTransactionSidecar : Type 0 where
  pub blobs : List ℕ
  pub commitments : List ℕ
  pub proofs : List ℕ

pub record TxLegacy : Type 0 where
  pub chain_id : Option ℕ
  pub gas_limit : ℕ
  pub to : TxKind
  pub value : ℕ
  pub input : List ℕ
  pub rest : ℕ

-- The fields that the EIP-2930 and EIP-1559 payloads share.
pub record TxTyped : Type 0 where
  pub chain_id : ℕ
  pub gas_limit : ℕ
  pub to : TxKind
  pub value : ℕ
  pub input : List ℕ
  pub rest : ℕ

pub record TxEip4844 : Type 0 where
  pub chain_id : ℕ
  pub gas_limit : ℕ
  pub to : ℕ
  pub value : ℕ
  pub input : List ℕ
  pub max_fee_per_blob_gas : ℕ
  pub blob_versioned_hashes : List ℕ
  pub rest : ℕ

pub record BlobTx : Type 0 where
  pub tx : TxEip4844
  pub sidecar : BlobTransactionSidecar

pub data PooledTransactionsElement : Type 0 where
  legacy : TxLegacy → PooledTransactionsElement
  eip2930 : TxTyped → PooledTransactionsElement
  eip1559 : TxTyped → PooledTransactionsElement
  blob_transaction : BlobTx → PooledTransactionsElement
  eip7702 : ℕ → PooledTransactionsElement

-- The transaction libraries: the methods of a pooled transaction that the source calls.
pub record TxLib : Type 0 where
  pub nonce : PooledTransactionsElement → ℕ
  pub max_fee_per_gas : PooledTransactionsElement → ℕ
  pub max_priority_fee_per_gas : PooledTransactionsElement → Option ℕ
  pub recover_signer : PooledTransactionsElement → Option ℕ
  pub hash : PooledTransactionsElement → ℕ
  pub as_eip4844 : PooledTransactionsElement → Option TxEip4844
  pub blob_gas : TxEip4844 → ℕ
  pub legacy_size : TxLegacy → ℕ
  pub eip2930_size : TxTyped → ℕ
  pub eip1559_size : TxTyped → ℕ
  pub eip4844_size : TxEip4844 → ℕ

module _ {ℓ} {E : Type ℓ} where
  unfoldable pub gas_limit : PooledTransactionsElement → Result E ℕ
  gas_limit (legacy t) = ok t.gas_limit
  gas_limit (eip2930 t) = ok t.gas_limit
  gas_limit (eip1559 t) = ok t.gas_limit
  gas_limit (blob_transaction b) = ok b.tx.gas_limit
  gas_limit (eip7702 _) = panic

  unfoldable pub value : PooledTransactionsElement → Result E ℕ
  value (legacy t) = ok t.value
  value (eip2930 t) = ok t.value
  value (eip1559 t) = ok t.value
  value (blob_transaction b) = ok b.tx.value
  value (eip7702 _) = panic

  unfoldable pub tx_type : PooledTransactionsElement → Result E TxType
  tx_type (legacy _) = ok TxType.legacy
  tx_type (eip2930 _) = ok TxType.eip2930
  tx_type (eip1559 _) = ok TxType.eip1559
  tx_type (blob_transaction _) = ok TxType.eip4844
  tx_type (eip7702 _) = panic

  unfoldable pub tx_kind : PooledTransactionsElement → Result E TxKind
  tx_kind (legacy t) = ok t.to
  tx_kind (eip2930 t) = ok t.to
  tx_kind (eip1559 t) = ok t.to
  tx_kind (blob_transaction b) = ok (call b.tx.to)
  tx_kind (eip7702 _) = panic

  unfoldable pub input : PooledTransactionsElement → Result E (List ℕ)
  input (legacy t) = ok t.input
  input (eip2930 t) = ok t.input
  input (eip1559 t) = ok t.input
  input (blob_transaction b) = ok b.tx.input
  input (eip7702 _) = panic

  unfoldable pub chain_id : PooledTransactionsElement → Result E (Option ℕ)
  chain_id (legacy t) = ok t.chain_id
  chain_id (eip2930 t) = ok (some t.chain_id)
  chain_id (eip1559 t) = ok (some t.chain_id)
  chain_id (blob_transaction b) = ok (some b.tx.chain_id)
  chain_id (eip7702 _) = panic

  unfoldable pub size : TxLib → PooledTransactionsElement → Result E ℕ
  size lib (legacy t) = ok (lib.legacy_size t)
  size lib (eip2930 t) = ok (lib.eip2930_size t)
  size lib (eip1559 t) = ok (lib.eip1559_size t)
  size lib (blob_transaction b) = ok (lib.eip4844_size b.tx)
  size lib (eip7702 _) = panic

unfoldable pub blob_sidecar : PooledTransactionsElement → Option BlobTransactionSidecar
blob_sidecar (blob_transaction b) = some b.sidecar
blob_sidecar _ = none

pub record Constraint : Type 0 where
  pub tx : PooledTransactionsElement
  pub sender : Option ℕ

module _ (lib : TxLib) where
  unfoldable pub effective_tip_per_gas : Constraint → ℕ → Option ℕ
  effective_tip_per_gas c base_fee =
      let max_fee_per_gas = lib.max_fee_per_gas c.tx in
      if ltb max_fee_per_gas base_fee
      then none
      else let fee = max_fee_per_gas - base_fee in
        elim (lib.max_priority_fee_per_gas c.tx) [
          | some priority_fee ↦ some (min fee priority_fee)
          | none ↦ some fee
        ]

  -- `Constraint::validate`: the transaction was signed by the sender.
  unfoldable pub validate : Constraint → ℕ → Bool
  validate c sender = elim (lib.recover_signer c.tx) [
    | some recovered ↦ sender == recovered
    | none ↦ false
  ]
