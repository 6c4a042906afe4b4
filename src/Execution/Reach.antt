-- ===== src/Execution/Reach.antt =====
-- What holds of every execution state that the gateway reaches
-- (interstate-gateway/src/state/execution.rs): requests and head updates, in any order.
use proposer_commitment_netw.Base.{
  ℕ, ◌≡◌, refl, Bool, Option, none, some, List, [], ◌∷◌, ok, keep_if,
}
use proposer_commitment_netw.Base.Assoc.{Assoc}
use proposer_commitment_netw.Base.Int.{ℤ}
use proposer_commitment_netw.Tx.{TxLib}
use proposer_commitment_netw.Tx.Fees.{AccountState}
use proposer_commitment_netw.Pricing.{F64}
use proposer_commitment_netw.Request.{PreconfRequest}
use proposer_commitment_netw.Execution
use proposer_commitment_netw.Execution.{ExecutionState, LimitOptions}
use proposer_commitment_netw.Execution.Verify.{verify_el_tx}
use proposer_commitment_netw.Execution.Head.{
  StateUpdate, remove_slots, remove_block_templates_until, sort, refresh_for, refresh_templates,
  apply_state_update, receipts_found, apply_answer, update_head, TransportError,
}

-- The states that requests and heads lead to.
pub data Reach (lib : TxLib) (f : F64) (start : ExecutionState) : ExecutionState → Type 0 where
  at_start : Reach lib f start start
  request :
      {st : ExecutionState} (fetch : ℕ → Option AccountState) (req : PreconfRequest)
      → Reach lib f start st
      → Reach lib f start (verify_el_tx lib f fetch st req).0
  head :
      {st : ExecutionState} (receipts : List ℕ → Bool) (update : Option StateUpdate) (slot : ℕ)
      → Reach lib f start st
      → Reach lib f start (update_head lib receipts update st slot).0

abbrev pub Frozen : ExecutionState → ExecutionState → Type 0
Frozen start st = (st.block_templates ≡ []) × (st.blob_basefee ≡ start.blob_basefee)

refresh_nil :
    (lib : TxLib) (accounts : Assoc (AccountState × ℤ))
    → refresh_templates {E = TransportError} lib accounts [] ≡ ok []
unfolding refresh_templates refresh_for
refresh_nil lib [] = refl
refresh_nil lib ((address, (state, score)) ∷ rest) = refresh_nil lib rest

apply_answer-Frozen :
    (lib : TxLib) (start st : ExecutionState) (update : Option StateUpdate)
    → Frozen start st
    → Frozen start (apply_answer lib st update).0
unfolding apply_state_update
apply_answer-Frozen lib start st none h = h
apply_answer-Frozen lib start st (some update) (e, h) = rw (e, refresh_nil lib _) (refl, h)

update_head-Frozen :
    (lib : TxLib) (start st : ExecutionState) (receipts : List ℕ → Bool)
    (update : Option StateUpdate) (slot : ℕ)
    → Frozen start st
    → Frozen start (update_head lib receipts update st slot).0
unfolding update_head remove_block_templates_until sort remove_slots receipts_found keep_if
update_head-Frozen lib start st receipts update slot (e, h) =
    rw (e) (apply_answer-Frozen lib start _ update (refl, h))

Reach-from-Frozen :
    (lib : TxLib) (f : F64) (start st : ExecutionState)
    → start.block_templates ≡ []
    → Reach lib f start st
    → Frozen start st
unfolding verify_el_tx
Reach-from-Frozen lib f start st e at_start = (e, refl)
Reach-from-Frozen lib f start st e (request fetch req r) = Reach-from-Frozen lib f start _ e r
Reach-from-Frozen lib f start st e (head receipts update slot r) =
    update_head-Frozen lib start _ receipts update slot (Reach-from-Frozen lib f start _ e r)

-- Whatever requests and heads come in whatever order, no block template exists, and the base fee of
-- blobs stays that of the start.
pub Reach-Frozen :
    (lib : TxLib) (f : F64) (limits : LimitOptions)
    (gas_limit basefee blob_basefee block_number chain_id : ℕ) (st : ExecutionState)
    → Reach lib f (Execution.new f limits gas_limit basefee blob_basefee block_number chain_id) st
    → (st.block_templates ≡ []) × (st.blob_basefee ≡ blob_basefee)
unfolding Execution.new
Reach-Frozen lib f limits gas_limit basefee blob_basefee block_number chain_id st r =
    Reach-from-Frozen lib f _ st refl r
