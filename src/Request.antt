-- ===== src/Request.antt =====
-- Preconfirmation requests and their validators (`PreconfRequest` of
-- interstate-gateway/src/commitment/request.rs). A validator that meets a transaction kind the
-- source does not implement panics.
pub mod Validators
pub mod Fees
use proposer_commitment_netw.Base.{
  ℕ, ◌<◌, Bool, true, false, Option, none, some, List, [], ◌∷◌, map, Result, ok, err, ◌>>=◌, ◌>>◌,
  map_err, unwrap_or, ensure, length, ltb, leb, ◌==◌, ◌&&◌, if◌then◌else◌, arith,
}
use proposer_commitment_netw.Base.Words.{add_u64, saturating_add_u64}
use proposer_commitment_netw.Errors.{PricingError, tip_too_low}
use proposer_commitment_netw.Pricing.{F64, PreconfPricer, calculate_min_priority_fee}
use proposer_commitment_netw.Tx
use proposer_commitment_netw.Tx.{TxLib, TxKind, create, call, Constraint, effective_tip_per_gas}

pub record PreconfRequest : Type 0 where
  pub slot : ℕ
  pub txs : List Constraint
  pub signature : ℕ
  pub sender : ℕ
  pub chain_id : ℕ

abbrev pub is_create : TxKind → Bool
is_create create = true
is_create (call _) = false

module _ {ℓ} {E : Type ℓ} where
  -- The running sum of `gas_limit`, which wraps in a release build.
  unfoldable pub sum_gas : ℕ → List Constraint → Result E ℕ
  sum_gas acc [] = ok acc
  sum_gas acc (c ∷ cs) = do gas ← Tx.gas_limit c.tx; sum_gas (add_u64 acc gas) cs

  unfoldable pub gas_limit : PreconfRequest → Result E ℕ
  unfolding sum_gas
  gas_limit req = sum_gas 0 req.txs

  unfoldable pub within_size : TxLib → ℕ → List Constraint → Result E Bool
  within_size lib limit [] = ok true
  within_size lib limit (c ∷ cs) = do
    size ← Tx.size lib c.tx
    if ltb limit size then ok false else within_size lib limit cs

  unfoldable pub validate_tx_size_limit : TxLib → PreconfRequest → ℕ → Result E Bool
  validate_tx_size_limit lib req limit = within_size lib limit req.txs

  unfoldable pub within_init_code : ℕ → List Constraint → Result E Bool
  within_init_code limit [] = ok true
  within_init_code limit (c ∷ cs) = do
    kind ← Tx.tx_kind c.tx
    data_bytes ← Tx.input c.tx
    if is_create kind && ltb limit (length data_bytes) then ok false else within_init_code limit cs

  unfoldable pub validate_init_code_limit : PreconfRequest → ℕ → Result E Bool
  validate_init_code_limit req limit = within_init_code limit req.txs

  unfoldable pub on_chain : ℕ → List Constraint → Result E Bool
  on_chain chain_id [] = ok true
  on_chain chain_id (c ∷ cs) = do
    id ← Tx.chain_id c.tx
    elim id [
      | none ↦ on_chain chain_id cs
      | some id ↦ if id == chain_id then on_chain chain_id cs else ok false
    ]

  unfoldable pub validate_chain_id : PreconfRequest → ℕ → Result E Bool
  validate_chain_id req chain_id = on_chain chain_id req.txs

module _ (lib : TxLib) where
  -- `>` on `Option`: `None` is below every `Some`.
  abbrev pub exceeds : Option ℕ → ℕ → Bool
  exceeds none fee = false
  exceeds (some tip) fee = ltb fee tip

  unfoldable pub tips_below_fee : List Constraint → Bool
  tips_below_fee [] = true
  tips_below_fee (c ∷ cs) =
      if exceeds (lib.max_priority_fee_per_gas c.tx) (lib.max_fee_per_gas c.tx)
      then false
      else tips_below_fee cs

  unfoldable pub validate_max_priority_fee : PreconfRequest → Bool
  validate_max_priority_fee req = tips_below_fee req.txs

  unfoldable pub fees_from : ℕ → List Constraint → Bool
  fees_from floor [] = true
  fees_from floor (c ∷ cs) =
      if ltb (lib.max_fee_per_gas c.tx) floor then false else fees_from floor cs

  unfoldable pub validate_basefee : PreconfRequest → ℕ → Bool
  validate_basefee req floor = fees_from floor req.txs

  -- Each sender is recovered, the zero address standing for a signature that gives none.
  unfoldable pub with_signer : Constraint → Constraint
  with_signer c = record c { sender = some (unwrap_or (lib.recover_signer c.tx) 0) }

  unfoldable pub recover_signers : PreconfRequest → PreconfRequest
  unfolding with_signer
  recover_signers req = record req { txs = map with_signer req.txs }

  module _ (f : F64) (pricing : PreconfPricer)
      (preconfirmed_gas min_inclusion_profit max_base_fee : ℕ) where
    -- The loop of `validate_min_priority_fee`. Its counter `local_preconfirmed_gas` is kept, and
    -- not read.
    unfoldable pub tips_cover : ℕ → List Constraint → Result PricingError Bool
    tips_cover local_preconfirmed_gas [] = ok true
    tips_cover local_preconfirmed_gas (c ∷ cs) = do
      gas ← Tx.gas_limit c.tx
      fee ← calculate_min_priority_fee f pricing gas preconfirmed_gas
      let min_priority_fee = add_u64 fee min_inclusion_profit
      let tip = unwrap_or (effective_tip_per_gas lib c max_base_fee) 0
      ensure (leb min_priority_fee tip) (tip_too_low tip min_priority_fee)
      tips_cover (saturating_add_u64 local_preconfirmed_gas gas) cs

    unfoldable pub validate_min_priority_fee : PreconfRequest → Result PricingError Bool
    unfolding tips_cover
    validate_min_priority_fee req = tips_cover preconfirmed_gas req.txs
