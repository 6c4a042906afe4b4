-- ===== src/Execution/Head.antt =====
-- The head updates of `ExecutionState` (interstate-gateway/src/state/execution.rs). The receipts of
-- past blocks feed metrics only, so of a request for them the model has whether it succeeds.
use proposer_commitment_netw.Base.{
  ℕ, Bool, true, false, Option, none, some, List, [], ◌∷◌, Result, ok, err, panic, ◌>>=◌, leb,
  if◌then◌else◌, keep_if,
}
use proposer_commitment_netw.Base.Assoc
use proposer_commitment_netw.Base.Assoc.{Assoc, lookup, lookup-remove}
use proposer_commitment_netw.Base.Int.{ℤ}
use proposer_commitment_netw.Base.Words.{add_u64, sub_u256}
use proposer_commitment_netw.Tx.{TxLib}
use proposer_commitment_netw.Tx.Fees.{AccountState}
use proposer_commitment_netw.ScoreCache
use proposer_commitment_netw.ScoreCache.{ScoreCache}
use proposer_commitment_netw.Template.{BlockTemplate, get_diff, retain, transaction_hashes}
use proposer_commitment_netw.Execution.{ExecutionState}

pub record StateUpdate : Type 0 where
  pub account_states : Assoc AccountState
  pub min_basefee : ℕ
  pub min_blob_basefee : ℕ
  pub block_number : ℕ

-- `slots_to_remove.sort()`
unfoldable pub insert_sorted : ℕ → List ℕ → List ℕ
insert_sorted s [] = s ∷ []
insert_sorted s (x ∷ xs) = if leb s x then s ∷ x ∷ xs else x ∷ insert_sorted s xs

unfoldable pub sort : List ℕ → List ℕ
unfolding insert_sorted
sort [] = []
sort (s ∷ ss) = insert_sorted s (sort ss)

abbrev pub push_found : Option BlockTemplate → List BlockTemplate → List BlockTemplate
push_found none ts = ts
push_found (some t) ts = t ∷ ts

-- The loop of `remove_block_templates_until`.
unfoldable pub remove_slots :
    List ℕ → Assoc BlockTemplate → Assoc BlockTemplate × List BlockTemplate
remove_slots [] m = (m, [])
remove_slots (s ∷ ss) m =
    let (m', ts) = remove_slots ss (Assoc.remove s m) in (m', push_found (lookup s m) ts)

unfoldable pub remove_block_templates_until :
    ExecutionState → ℕ → ExecutionState × List BlockTemplate
unfolding sort
remove_block_templates_until st slot =
    let slots_to_remove = sort (keep_if (λ s. leb s slot) (Assoc.keys st.block_templates)) in
    let (m, ts) = remove_slots slots_to_remove st.block_templates in
    (record st { block_templates = m }, ts)

unfoldable pub write_accounts :
    ScoreCache AccountState → Assoc AccountState → ScoreCache AccountState
write_accounts c [] = c
write_accounts c ((address, state) ∷ rest) =
    let (c', found) =
      ScoreCache.get_mut ScoreCache.get_score ScoreCache.insert_score ScoreCache.update_score c
        address (λ _. state) in
    write_accounts c' rest

abbrev pub expected_after : AccountState → Option (ℕ × ℕ) → AccountState
expected_after a none = a
expected_after a (some (nonce_diff, balance_diff)) = record a {
  transaction_count = add_u64 a.transaction_count nonce_diff;
  balance = sub_u256 a.balance balance_diff;
}

module _ {ℓ} {E : Type ℓ} (lib : TxLib) where
  -- The inner loop of `refresh_templates`, for one account.
  unfoldable pub refresh_for :
      ℕ → AccountState → Assoc BlockTemplate → Result E (Assoc BlockTemplate)
  refresh_for address expected [] = ok []
  refresh_for address expected ((slot, t) ∷ rest) = do
    t' ← retain lib t address expected
    rest' ← refresh_for address (expected_after expected (get_diff t' address)) rest
    ok ((slot, t') ∷ rest')

  unfoldable pub refresh_templates :
      Assoc (AccountState × ℤ) → Assoc BlockTemplate → Result E (Assoc BlockTemplate)
  refresh_templates [] templates = ok templates
  refresh_templates ((address, (state, _)) ∷ rest) templates = do
    templates' ← refresh_for address state templates
    refresh_templates rest templates'

  unfoldable pub apply_state_update : ExecutionState → StateUpdate → Result E ExecutionState
  apply_state_update st update = do
    let cache = write_accounts st.account_states update.account_states
    templates ← refresh_templates cache.map st.block_templates
    ok (record st {
      block_number = update.block_number;
      basefee = update.min_basefee;
      account_states = cache;
      block_templates = templates;
    })

abbrev pub TransportError : Type 0
TransportError = Unit {0}

-- Whether the receipts of every removed template could be fetched.
unfoldable pub receipts_found : TxLib → (List ℕ → Bool) → List BlockTemplate → Bool
receipts_found lib receipts [] = true
receipts_found lib receipts (t ∷ ts) =
    if receipts (transaction_hashes lib t) then receipts_found lib receipts ts else false

abbrev pub applied :
    ExecutionState
    → Result TransportError ExecutionState
    → ExecutionState × Result TransportError (Unit {0})
applied st (ok st') = (st', ok tt)
applied st (err e) = (st, err e)
applied st panic = (st, panic)

abbrev pub apply_answer :
    TxLib → ExecutionState → Option StateUpdate → ExecutionState × Result TransportError (Unit {0})
apply_answer lib st none = (st, err tt)
apply_answer lib st (some update) = applied st (apply_state_update lib st update)

-- `update` is the answer of `get_state_update`, `none` an error.
unfoldable pub update_head :
    TxLib
    → (List ℕ → Bool)
    → Option StateUpdate
    → ExecutionState
    → ℕ
    → ExecutionState × Result TransportError (Unit {0})
update_head lib receipts update st slot =
    let (st', removed) = remove_block_templates_until (record st { slot = slot }) slot in
    if receipts_found lib receipts removed then apply_answer lib st' update else (st', err tt)
