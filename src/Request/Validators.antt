-- ===== src/Request/Validators.antt =====
-- The validators of a request are conjunctions over its transactions
-- (interstate-gateway/src/commitment/request.rs).
use proposer_commitment_netw.Base.{
  ℕ, ◌+◌, ◌%◌, ◌<◌, ◌≡◌, refl, Bool, true, false, some, none, ok, panic, List, [], ◌∷◌, ◌&&◌, leb,
  ◌==◌, length, sum_by, all_of, inl, inr, Bool-cases, arith, ap, ◌∙◌, if◌then◌else◌,
}
use proposer_commitment_netw.Base.Words.{u64_mod, add_u64}
use proposer_commitment_netw.Tx.{
  TxLib, PooledTransactionsElement, legacy, eip2930, eip1559, blob_transaction, eip7702, Constraint,
  gas_limit, size, tx_kind, input, chain_id,
}
use proposer_commitment_netw.Request
use proposer_commitment_netw.Request.{
  PreconfRequest, sum_gas, within_size, within_init_code, on_chain, is_create,
}

-- The kinds that `TransactionExt` implements.
abbrev pub is_supported : PooledTransactionsElement → Bool
is_supported (eip7702 _) = false
is_supported _ = true

abbrev pub gas_of : PooledTransactionsElement → ℕ
gas_of (legacy t) = t.gas_limit
gas_of (eip2930 t) = t.gas_limit
gas_of (eip1559 t) = t.gas_limit
gas_of (blob_transaction b) = b.tx.gas_limit
gas_of (eip7702 _) = 0

abbrev pub AllSupported : List Constraint → Type 0
AllSupported cs = all_of (λ c. is_supported c.tx) cs ≡ true

gas_limit_lem {ℓ} :
    {E : Type ℓ} (tx : PooledTransactionsElement)
    → is_supported tx ≡ true
    → gas_limit {E = E} tx ≡ ok (gas_of tx)
unfolding gas_limit
gas_limit_lem (eip7702 _) h = cc
gas_limit_lem (legacy _) h = refl
gas_limit_lem (eip2930 _) h = refl
gas_limit_lem (eip1559 _) h = refl
gas_limit_lem (blob_transaction _) h = refl

gas_limit_unsupported {ℓ} :
    {E : Type ℓ} (tx : PooledTransactionsElement)
    → is_supported tx ≡ false
    → gas_limit {E = E} tx ≡ panic
unfolding gas_limit
gas_limit_unsupported (eip7702 _) h = refl
gas_limit_unsupported (legacy _) h = cc
gas_limit_unsupported (eip2930 _) h = cc
gas_limit_unsupported (eip1559 _) h = cc
gas_limit_unsupported (blob_transaction _) h = cc

sum_gas_supported {ℓ} :
    {E : Type ℓ} (acc : ℕ) (cs : List Constraint)
    → AllSupported cs
    → acc < u64_mod
    → sum_gas {E = E} acc cs ≡ ok ((acc + sum_by (λ c. gas_of c.tx) cs) % u64_mod)
unfolding sum_gas
sum_gas_supported acc [] h l = ap ok (omega arith)
sum_gas_supported {E} acc (c ∷ cs) h l = rw (gas_limit_lem {E = E} c.tx (ground arith)) (
    sum_gas_supported (add_u64 acc (gas_of c.tx)) cs (ground arith) (omega arith)
    ∙ ap ok (omega arith))

sum_gas_unsupported {ℓ} :
    {E : Type ℓ} (acc : ℕ) (cs : List Constraint)
    → all_of (λ c. is_supported c.tx) cs ≡ false
    → sum_gas {E = E} acc cs ≡ panic
unfolding sum_gas
sum_gas_unsupported acc [] h = cc
sum_gas_unsupported {E} acc (c ∷ cs) h = elim (Bool-cases (is_supported c.tx)) [
  | inl e ↦
      rw (gas_limit_lem {E = E} c.tx e)
        (sum_gas_unsupported (add_u64 acc (gas_of c.tx)) cs (ground arith))
  | inr e ↦ rw (gas_limit_unsupported {E = E} c.tx e)
]

-- The gas limit of a request is the sum of its transactions' limits modulo 2^64, and is computed
-- exactly when each of them is of a kind that is implemented; otherwise the call panics.
pub gas_limit_sum {ℓ} :
    {E : Type ℓ} (req : PreconfRequest)
    → (AllSupported req.txs
        → Request.gas_limit {E = E} req ≡ ok (sum_by (λ c. gas_of c.tx) req.txs % u64_mod))
      × (all_of (λ c. is_supported c.tx) req.txs ≡ false → Request.gas_limit {E = E} req ≡ panic)
unfolding Request.gas_limit
gas_limit_sum req = (
  λ h. sum_gas_supported 0 req.txs h (omega arith) ∙ ap ok (omega arith),
  sum_gas_unsupported 0 req.txs,
)

abbrev pub size_of : TxLib → PooledTransactionsElement → ℕ
size_of lib (legacy t) = lib.legacy_size t
size_of lib (eip2930 t) = lib.eip2930_size t
size_of lib (eip1559 t) = lib.eip1559_size t
size_of lib (blob_transaction b) = lib.eip4844_size b.tx
size_of lib (eip7702 _) = 0

-- The length of the init code of a contract creation, and 0 for a call.
abbrev pub init_code_of : PooledTransactionsElement → ℕ
init_code_of (legacy t) = if is_create t.to then length t.input else 0
init_code_of (eip2930 t) = if is_create t.to then length t.input else 0
init_code_of (eip1559 t) = if is_create t.to then length t.input else 0
init_code_of _ = 0

-- A transaction with no chain id (before EIP-155) is valid on every chain.
abbrev pub chain_matches : ℕ → PooledTransactionsElement → Bool
chain_matches id (legacy t) = elim t.chain_id [ none ↦ true | some j ↦ j == id ]
chain_matches id (eip2930 t) = t.chain_id == id
chain_matches id (eip1559 t) = t.chain_id == id
chain_matches id (blob_transaction b) = b.tx.chain_id == id
chain_matches id (eip7702 _) = true

within_size_step {ℓ} :
    {E : Type ℓ} (lib : TxLib) (limit : ℕ) (c : Constraint) (cs : List Constraint) {b : Bool}
    → is_supported c.tx ≡ true
    → within_size {E = E} lib limit cs ≡ ok b
    → within_size {E = E} lib limit (c ∷ cs) ≡ ok (leb (size_of lib c.tx) limit && b)
unfolding within_size size
within_size_step lib limit c cs h e = ground arith

within_init_code_step {ℓ} :
    {E : Type ℓ} (limit : ℕ) (c : Constraint) (cs : List Constraint) {b : Bool}
    → is_supported c.tx ≡ true
    → within_init_code {E = E} limit cs ≡ ok b
    → within_init_code {E = E} limit (c ∷ cs) ≡ ok (leb (init_code_of c.tx) limit && b)
unfolding within_init_code tx_kind input
within_init_code_step limit c cs h e = ground arith

on_chain_step {ℓ} :
    {E : Type ℓ} (id : ℕ) (c : Constraint) (cs : List Constraint) {b : Bool}
    → is_supported c.tx ≡ true
    → on_chain {E = E} id cs ≡ ok b
    → on_chain {E = E} id (c ∷ cs) ≡ ok (chain_matches id c.tx && b)
unfolding on_chain chain_id
on_chain_step id c cs h e = ground arith

module _ {ℓ} {E : Type ℓ} where
  within_size_lem :
      (lib : TxLib) (limit : ℕ) (cs : List Constraint)
      → AllSupported cs
      → within_size {E = E} lib limit cs ≡ ok (all_of (λ c. leb (size_of lib c.tx) limit) cs)
  unfolding within_size
  within_size_lem lib limit [] h = refl
  within_size_lem lib limit (c ∷ cs) h =
      within_size_step lib limit c cs (ground arith) (within_size_lem lib limit cs (ground arith))

  within_init_code_lem :
      (limit : ℕ) (cs : List Constraint)
      → AllSupported cs
      → within_init_code {E = E} limit cs ≡ ok (all_of (λ c. leb (init_code_of c.tx) limit) cs)
  unfolding within_init_code
  within_init_code_lem limit [] h = refl
  within_init_code_lem limit (c ∷ cs) h =
      within_init_code_step limit c cs (ground arith) (within_init_code_lem limit cs (ground arith))

  on_chain_lem :
      (id : ℕ) (cs : List Constraint)
      → AllSupported cs
      → on_chain {E = E} id cs ≡ ok (all_of (λ c. chain_matches id c.tx) cs)
  unfolding on_chain
  on_chain_lem id [] h = refl
  on_chain_lem id (c ∷ cs) h =
      on_chain_step id c cs (ground arith) (on_chain_lem id cs (ground arith))

  -- For a request of implemented kinds the size limit, the init code limit and the chain check
  -- return, and each is true exactly when every transaction meets it. The early return of the
  -- loops makes no difference.
  pub validators_all :
      (lib : TxLib) (req : PreconfRequest) (limit id : ℕ)
      → AllSupported req.txs
      → (Request.validate_tx_size_limit {E = E} lib req limit
          ≡ ok (all_of (λ c. leb (size_of lib c.tx) limit) req.txs))
        × (Request.validate_init_code_limit {E = E} req limit
            ≡ ok (all_of (λ c. leb (init_code_of c.tx) limit) req.txs))
        × (Request.validate_chain_id {E = E} req id
            ≡ ok (all_of (λ c. chain_matches id c.tx) req.txs))
  unfolding Request.validate_tx_size_limit Request.validate_init_code_limit
      Request.validate_chain_id
  validators_all lib req limit id h = (
    within_size_lem lib limit req.txs h,
    within_init_code_lem limit req.txs h,
    on_chain_lem id req.txs h,
  )
