-- ===== src/Fetcher.antt =====
-- `ExecutionClient` (interstate-gateway/src/state/execution_client.rs) and `ClientState`
-- (interstate-gateway/src/state/fetcher.rs). The node's answers are arguments; `none` is a
-- transport error.
pub mod Updates
use proposer_commitment_netw.Base.{
  ℕ, zero, suc, ◌+◌, ◌-◌, ◌*◌, Bool, true, false, not, ◌&&◌, Option, none, some, List, [], ◌∷◌,
  Result, ok, err, panic, ◌>>=◌, ◌>>◌, ok_or, unwrap_or, map_err, leb, ltb, ◌==◌, if◌then◌else◌,
}
use proposer_commitment_netw.Base.Assoc
use proposer_commitment_netw.Base.Assoc.{Assoc}
use proposer_commitment_netw.Base.Words.{u64_mod}
use proposer_commitment_netw.Tx.Fees.{AccountState}
use proposer_commitment_netw.Execution.Head.{StateUpdate}

pub data TransportError : Type 0 where
  transport not_hex_prefixed not_decoded base_fee_not_found : TransportError

-- The answers of the node: for an account its nonce, balance and code, each of which may fail, in a
-- batch which may fail; the fee history with the base fees of its last block.
pub record AccountAnswers : Type 0 where
  pub nonce : Option ℕ
  pub balance : Option ℕ
  pub code : Option (List ℕ)

pub record FeeHistory : Type 0 where
  pub latest_block_base_fee : Option ℕ
  pub latest_block_blob_base_fee : Option ℕ

abbrev pub is_empty : List ℕ → Bool
is_empty [] = true
is_empty (_ ∷ _) = false

-- `ExecutionClient::get_account_state`
unfoldable pub account_state : Option AccountAnswers → Result TransportError AccountState
account_state batch = do
  answers ← ok_or batch transport
  tx_count ← ok_or answers.nonce transport
  balance ← ok_or answers.balance transport
  code ← ok_or answers.code transport
  ok (record { transaction_count = tx_count; balance = balance; has_code = not (is_empty code) })

unfoldable pub get_basefee : Option FeeHistory → Result TransportError ℕ
get_basefee history = do
  fee_history ← ok_or history transport
  ok_or fee_history.latest_block_base_fee base_fee_not_found

unfoldable pub get_blob_basefee : Option FeeHistory → Result TransportError ℕ
get_blob_basefee history = do
  fee_history ← ok_or history transport
  ok (unwrap_or fee_history.latest_block_blob_base_fee 0)

abbrev pub max_retries : ℕ
max_retries = 8

abbrev pub or_retry :
    Result TransportError AccountState
    → Result TransportError AccountState
    → Result TransportError AccountState
or_retry (ok state) rest = ok state
or_retry (err e) rest = rest
or_retry panic rest = panic

-- The loop of `ClientState::get_account_state` from the `n`th try on, with the tries after it; the
-- last error is returned.
unfoldable pub retry_loop :
    (ℕ → Result TransportError AccountState) → ℕ → ℕ → Result TransportError AccountState
retry_loop answer zero n = answer n
retry_loop answer (suc left) n = or_retry (answer n) (retry_loop answer left (suc n))

unfoldable pub get_account_state :
    (ℕ → Result TransportError AccountState) → Result TransportError AccountState
unfolding retry_loop
get_account_state answer = retry_loop answer (max_retries - 1) 0

-- `entry(addr).and_modify(f).or_insert(a)`
abbrev pub modify_or_insert :
    ℕ → (AccountState → AccountState) → AccountState → Assoc AccountState → Assoc AccountState
modify_or_insert addr f a m = elim (Assoc.lookup addr m) [
  | none ↦ Assoc.insert addr a m
  | some _ ↦ Assoc.modify addr f m
]

abbrev pub Update : Type 0
Update = Result TransportError (Assoc AccountState)

-- One pass over the answers of the batch, which are those of the accounts in their order.
unfoldable pub pass {ℓ} :
    {A : Type ℓ}
    → (AccountAnswers → Option A)
    → (A → AccountState → AccountState)
    → (A → AccountState)
    → Assoc AccountAnswers
    → Assoc AccountState
    → Update
pass get f init [] m = ok m
pass get f init ((addr, answers) ∷ rest) m = do
  v ← ok_or (get answers) transport
  pass get f init rest (modify_or_insert addr (f v) (init v) m)

unfoldable pub nonce_pass : Assoc AccountAnswers → Assoc AccountState → Update
unfolding pass
nonce_pass =
    pass (λ a. a.nonce) (λ nonce s. record s { transaction_count = nonce })
      λ nonce. record { transaction_count = nonce; balance = 0; has_code = false }

unfoldable pub balance_pass : Assoc AccountAnswers → Assoc AccountState → Update
unfolding pass
balance_pass =
    pass (λ a. a.balance) (λ balance s. record s { balance = balance })
      λ balance. record { transaction_count = 0; balance = balance; has_code = false }

unfoldable pub code_pass : Assoc AccountAnswers → Assoc AccountState → Update
unfolding pass
code_pass =
    pass (λ a. a.code) (λ code s. record s { has_code = not (is_empty code) })
      λ code. record { transaction_count = 0; balance = 0; has_code = not (is_empty code) }

abbrev pub number_or_head : Option ℕ → Option ℕ → Result TransportError ℕ
number_or_head (some n) head = ok n
number_or_head none head = ok_or head transport

-- `batch` is `none` if it could not be sent; the fees are those of the latest block.
unfoldable pub get_state_update :
    Option ℕ
    → Option ℕ
    → Option (Assoc AccountAnswers)
    → Option FeeHistory
    → Option FeeHistory
    → Result TransportError StateUpdate
unfolding nonce_pass balance_pass code_pass get_basefee get_blob_basefee
get_state_update block_number head batch fees blob_fees = do
  number ← number_or_head block_number head
  answers ← ok_or batch transport
  with_nonces ← nonce_pass answers []
  with_balances ← balance_pass answers with_nonces
  account_states ← code_pass answers with_balances
  basefee ← get_basefee fees
  blob_basefee ← get_blob_basefee blob_fees
  ok (record {
    account_states = account_states;
    min_basefee = basefee;
    min_blob_basefee = blob_basefee;
    block_number = number;
  })
