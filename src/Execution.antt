-- ===== src/Execution.antt =====
-- `ExecutionState` (interstate-gateway/src/state/execution.rs): the checks of a request against the
-- head of the chain, and the updates of the head. The answers of the execution client are
-- arguments; metrics and logs are left out, and with them `get_receipts_unordered`.
pub mod Verify
pub mod Bundle
pub mod Head
pub mod Reach
use proposer_commitment_netw.Base.{
  ℕ, zero, suc, ◌+◌, ◌-◌, ◌*◌, ◌/◌, max, Bool, true, false, Option, none, some, List, [], ◌∷◌,
  Result, ok, err, panic, ◌>>=◌, ◌>>◌, map_err, unwrap_or, ensure, ok_or, expect, not, length, ltb,
  leb, ◌==◌, ◌&&◌, if◌then◌else◌,
}
use proposer_commitment_netw.Base.Assoc
use proposer_commitment_netw.Base.Assoc.{Assoc}
use proposer_commitment_netw.Base.Int.{ℤ}
use proposer_commitment_netw.Base.Words.{
  u64_mod, add_u64, add_u256, sub_u256, saturating_add_u64, saturating_add_u256,
}
use proposer_commitment_netw.Errors.{
  PricingError, exceeds_block_limit, insufficient_gas, invalid_gas_limit, tip_too_low,
  ValidationError, base_fee_too_low, blob_base_fee_too_low, max_base_fee_calc_overflow,
  gas_limit_too_high, transaction_size_too_high, max_priority_fee_per_gas_too_high, of_pricing,
  eip4844_limit, slot_too_low, max_committed_gas_reached_for_slot, chain_id_mismatch, internal,
}
use proposer_commitment_netw.Tx
use proposer_commitment_netw.Tx.{TxLib, TxEip4844, Constraint, PooledTransactionsElement}
use proposer_commitment_netw.Tx.Fees.{
  AccountState, calculate_max_basefee, max_transaction_cost, validate_transaction,
}
use proposer_commitment_netw.Pricing
use proposer_commitment_netw.Pricing.{F64, PreconfPricer}
use proposer_commitment_netw.Request
use proposer_commitment_netw.Request.{PreconfRequest}
use proposer_commitment_netw.ScoreCache
use proposer_commitment_netw.ScoreCache.{ScoreCache}
use proposer_commitment_netw.Template
use proposer_commitment_netw.Template.{BlockTemplate, get_diff, committed_gas, blob_count}

pub record ValidationParams : Type 0 where
  pub block_gas_limit : ℕ
  pub max_tx_input_bytes : ℕ
  pub max_init_code_byte_size : ℕ

unfoldable pub params : ℕ → ValidationParams
params gas_limit = record {
  block_gas_limit = gas_limit;
  max_tx_input_bytes = 4 * 32 * 1024;
  max_init_code_byte_size = 2 * 24576;
}

pub record LimitOptions : Type 0 where
  pub max_committed_gas_per_slot : ℕ
  pub min_inclusion_profit : ℕ
  pub max_account_states_size : ℕ

abbrev pub default_limits : LimitOptions
default_limits = record {
  max_committed_gas_per_slot = 10_000_000;
  min_inclusion_profit = 2_000_000_000;
  max_account_states_size = 1_024;
}

pub record ExecutionState : Type 0 where
  pub block_number : ℕ
  pub slot : ℕ
  pub basefee : ℕ
  pub blob_basefee : ℕ
  pub account_states : ScoreCache AccountState
  pub block_templates : Assoc BlockTemplate
  pub chain_id : ℕ
  pub limits : LimitOptions
  pub validation_params : ValidationParams
  pub pricing : PreconfPricer

-- `size_of::<AccountState>() + size_of::<Address>()`
abbrev pub account_bytes : ℕ
account_bytes = 48 + 20

-- The four answers are those of the client for the latest block.
unfoldable pub new : F64 → LimitOptions → ℕ → ℕ → ℕ → ℕ → ℕ → ExecutionState
new f limits gas_limit basefee blob_basefee block_number chain_id = record {
  block_number = block_number;
  slot = 0;
  basefee = basefee;
  blob_basefee = blob_basefee;
  account_states =
      ScoreCache.with_max_len
        ((limits.max_account_states_size + (account_bytes - 1)) / account_bytes);
  block_templates = [];
  chain_id = chain_id;
  limits = limits;
  validation_params = params gas_limit;
  pricing = Pricing.new f gas_limit;
}

-- The diffs of one template for a sender, with the slot of the template if it has some.
abbrev pub diffs_or_zero : Option (ℕ × ℕ) → ℕ → ℕ × ℕ × ℕ
diffs_or_zero none slot = (0, 0, 0)
diffs_or_zero (some (nonce, balance)) slot = (nonce, balance, slot)

unfoldable pub diffs_from : ℕ × ℕ × ℕ → Assoc BlockTemplate → ℕ → ℕ × ℕ × ℕ
diffs_from acc [] sender = acc
diffs_from (nonce_diff, balance_diff, highest) ((slot, t) ∷ rest) sender =
    let (n, b, current) = diffs_or_zero (get_diff t sender) slot in
    diffs_from (add_u64 nonce_diff n, saturating_add_u256 balance_diff b, max highest current) rest
      sender

unfoldable pub compute_diffs : Assoc BlockTemplate → ℕ → ℕ × ℕ × ℕ
unfolding diffs_from
compute_diffs block_templates sender = diffs_from (0, 0, 0) block_templates sender

-- The account with what the templates and the bundle so far have committed.
abbrev pub with_diffs : AccountState → ℕ → ℕ → ℕ → ℕ → AccountState
with_diffs a nonce_diff balance_diff sender_nonce_diff sender_balance_diff = record {
  transaction_count =
      saturating_add_u64 (saturating_add_u64 a.transaction_count nonce_diff) sender_nonce_diff;
  balance = a.balance - balance_diff - sender_balance_diff;
  has_code = a.has_code;
}

-- The two maps of the loop of `verify_el_tx`: what the transactions so far add to a sender.
abbrev pub BundleDiffs : Type 0
BundleDiffs = Assoc (ℕ × ℕ)

abbrev pub bundle_diff : BundleDiffs → ℕ → ℕ × ℕ
bundle_diff diffs sender = unwrap_or (Assoc.lookup sender diffs) (0, 0)

unfoldable pub get_account :
    ScoreCache AccountState → ℕ → ScoreCache AccountState × Option AccountState
get_account c sender =
    ScoreCache.get ScoreCache.get_score ScoreCache.insert_score ScoreCache.update_score c sender

-- A result that leaves the cache changed, whether it is an error or not.
abbrev pub Cached {ℓ} : Type ℓ → Type ℓ
Cached A = ScoreCache AccountState × Result ValidationError A

abbrev pub and_then {ℓ κ} :
    {A : Type ℓ} {B : Type κ} → Cached A → (ScoreCache AccountState → A → Cached B) → Cached B
and_then (cache, ok a) k = k cache a
and_then (cache, err e) k = (cache, err e)
and_then (cache, panic) k = (cache, panic)

abbrev pub inserted :
    ScoreCache AccountState
    → AccountState
    → Option (ScoreCache AccountState × Option AccountState)
    → Cached AccountState
inserted c a none = (c, panic)
inserted c a (some (c', _)) = (c', ok a)

-- A miss: the account is fetched and inserted.
abbrev pub fetched : ScoreCache AccountState → ℕ → Option AccountState → Cached AccountState
fetched c sender none = (c, err internal)
fetched c sender (some a) = inserted c a (
    ScoreCache.insert ScoreCache.get_score ScoreCache.insert_score ScoreCache.update_score c sender
      a)

abbrev pub or_fetch :
    (ℕ → Option AccountState)
    → ℕ
    → ScoreCache AccountState × Option AccountState
    → Cached AccountState
or_fetch fetch sender (c, some a) = (c, ok a)
or_fetch fetch sender (c, none) = fetched c sender (fetch sender)

-- `fetch` is `get_account_state` of the client, `none` an error. An insertion that does not end
-- (a cache of no room) counts as a panic.
unfoldable pub account_of :
    (ℕ → Option AccountState) → ScoreCache AccountState → ℕ → Cached AccountState
account_of fetch c sender = or_fetch fetch sender (get_account c sender)

abbrev pub max_blobs_per_block : ℕ
max_blobs_per_block = 6

module _ (lib : TxLib) where
  abbrev pub room_for_blob : Option BlockTemplate → Bool
  room_for_blob none = true
  room_for_blob (some t) = ltb (blob_count lib t) max_blobs_per_block

  -- The checks of a blob transaction; the result of `validate_blob` is dropped by the code.
  unfoldable pub check_blob :
      ℕ
      → Option BlockTemplate
      → ℕ
      → Constraint
      → Option TxEip4844
      → Result ValidationError (Unit {0})
  check_blob blob_basefee template slot_diff c none = ok tt
  check_blob blob_basefee template slot_diff c (some t) = do
    ensure (room_for_blob template) eip4844_limit
    max_blob_basefee ←
        ok_or (calculate_max_basefee blob_basefee slot_diff) max_base_fee_calc_overflow
    ensure (leb max_blob_basefee t.max_fee_per_blob_gas) (blob_base_fee_too_low max_blob_basefee)
    sidecar ← expect (Tx.blob_sidecar c.tx)
    ok tt

  -- The first checks of a turn of the loop: the sender with its diffs in the templates.
  unfoldable pub find_diffs : ExecutionState → ℕ → Constraint → Result ValidationError (ℕ × ℕ × ℕ)
  find_diffs st target_slot c = do
    sender ← expect c.sender
    let (nonce_diff, balance_diff, highest) = compute_diffs st.block_templates sender
    ensure (leb highest target_slot) (slot_too_low highest)
    ok (sender, nonce_diff, balance_diff)

  -- The checks of a turn once the account is known: the bundle's diffs after it.
  unfoldable pub verify_account :
      ExecutionState
      → ℕ
      → BundleDiffs
      → Constraint
      → ℕ × ℕ × ℕ
      → AccountState
      → Result ValidationError BundleDiffs
  verify_account st target_slot diffs c (sender, nonce_diff, balance_diff) account_state = do
    let (sender_nonce_diff, sender_balance_diff) = bundle_diff diffs sender
    validate_transaction lib
        (with_diffs account_state nonce_diff balance_diff sender_nonce_diff sender_balance_diff)
        c.tx
    check_blob st.blob_basefee (Assoc.lookup target_slot st.block_templates) (target_slot - st.slot)
        c (lib.as_eip4844 c.tx)
    cost ← max_transaction_cost lib c.tx
    ok (Assoc.insert sender (add_u64 sender_nonce_diff 1, add_u256 sender_balance_diff cost) diffs)

  module _ (fetch : ℕ → Option AccountState) where
    unfoldable pub verify_tx :
        ExecutionState → ℕ → ScoreCache AccountState → BundleDiffs → Constraint → Cached BundleDiffs
    verify_tx st target_slot cache diffs c =
        and_then (cache, find_diffs st target_slot c)
          λ cache found. and_then (account_of fetch cache found.0) λ cache' account_state.
            (cache', verify_account st target_slot diffs c found account_state)

    -- The loop of `verify_el_tx`.
    unfoldable pub verify_txs :
        ExecutionState
        → ℕ
        → ScoreCache AccountState
        → BundleDiffs
        → List Constraint
        → Cached BundleDiffs
    verify_txs st target_slot cache diffs [] = (cache, ok diffs)
    verify_txs st target_slot cache diffs (c ∷ cs) =
        and_then (verify_tx st target_slot cache diffs c)
          λ cache' diffs'. verify_txs st target_slot cache' diffs' cs
