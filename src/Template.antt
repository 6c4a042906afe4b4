-- ===== src/Template.antt =====
-- `BlockTemplate` (interstate-gateway/src/builder/mod.rs): the constraints of a block with the nonce
-- and balance that each sender has committed in it.
pub mod Retain
use proposer_commitment_netw.Base.{
  ℕ, zero, suc, ◌+◌, ◌-◌, ◌<◌, min, Bool, true, false, Option, none, some, List, [], ◌∷◌, ◌++◌, map,
  Result, ok, ◌>>=◌, expect, get_elem?, length, ltb, ◌==◌, ◌||◌, if◌then◌else◌,
}
use proposer_commitment_netw.Base.Assoc
use proposer_commitment_netw.Base.Assoc.{Assoc}
use proposer_commitment_netw.Base.Words.{u64_mod, add_u64, add_u256, sub_u256}
use proposer_commitment_netw.Tx.{TxLib, TxEip4844, PooledTransactionsElement, Constraint}
use proposer_commitment_netw.Tx.Fees.{AccountState, max_transaction_cost}
use proposer_commitment_netw.Request.{sum_gas}
use proposer_commitment_netw.Constraints.{SignedConstraints}

-- `StateDiff::diffs`: the transactions and the cost committed per address.
abbrev pub StateDiff : Type 0
StateDiff = Assoc (ℕ × ℕ)

pub record BlockTemplate : Type 0 where
  pub state_diff : StateDiff
  pub signed_constraints_list : List SignedConstraints

abbrev pub get_diff : BlockTemplate → ℕ → Option (ℕ × ℕ)
get_diff t address = Assoc.lookup address t.state_diff

-- `Vec::remove`, for an index in range.
unfoldable pub remove_at {ℓ} : {A : Type ℓ} → List A → ℕ → List A
remove_at [] i = []
remove_at (x ∷ xs) zero = xs
remove_at (x ∷ xs) (suc i) = x ∷ remove_at xs i

abbrev pub flat : List (ℕ × List Constraint) → List Constraint
flat [] = []
flat ((_, cs) ∷ rest) = cs ++ flat rest

abbrev pub indexes_of : List (ℕ × List Constraint) → List ℕ
indexes_of [] = []
indexes_of ((i, _) ∷ rest) = i ∷ indexes_of rest

module _ {ℓ} {E : Type ℓ} where
  unfoldable pub gas_from : ℕ → List SignedConstraints → Result E ℕ
  gas_from acc [] = ok acc
  gas_from acc (sc ∷ scs) = do
    gas ← sum_gas 0 sc.message.transactions
    gas_from (add_u64 acc gas) scs

  unfoldable pub committed_gas : BlockTemplate → Result E ℕ
  committed_gas t = gas_from 0 t.signed_constraints_list

  unfoldable pub any_sender : ℕ → List Constraint → Result E Bool
  any_sender address [] = ok false
  any_sender address (c ∷ cs) = do
    sender ← expect c.sender
    if sender == address then ok true else any_sender address cs

  unfoldable pub filter_sender : ℕ → List Constraint → Result E (List Constraint)
  filter_sender address [] = ok []
  filter_sender address (c ∷ cs) = do
    sender ← expect c.sender
    rest ← filter_sender address cs
    ok (if sender == address then c ∷ rest else rest)

  -- The constraints with a transaction of the address, by index, with those transactions.
  unfoldable pub constraints_with_address :
      ℕ → ℕ → List SignedConstraints → Result E (List (ℕ × List Constraint))
  constraints_with_address address idx [] = ok []
  constraints_with_address address idx (sc ∷ scs) = do
    found ← any_sender address sc.message.transactions
    rest ← constraints_with_address address (suc idx) scs
    if found
        then (do own ← filter_sender address sc.message.transactions; ok ((idx, own) ∷ rest))
        else ok rest

module _ (lib : TxLib) where
  abbrev pub hashes_of : List Constraint → List ℕ
  hashes_of cs = map (λ c. lib.hash c.tx) cs

  unfoldable pub hashes_from : List SignedConstraints → List ℕ
  hashes_from [] = []
  hashes_from (sc ∷ scs) = hashes_of sc.message.transactions ++ hashes_from scs

  unfoldable pub transaction_hashes : BlockTemplate → List ℕ
  unfolding hashes_from
  transaction_hashes t = hashes_from t.signed_constraints_list

  abbrev pub blobs_of : Option TxEip4844 → ℕ
  blobs_of none = 0
  blobs_of (some t) = length t.blob_versioned_hashes

  unfoldable pub blobs_from : ℕ → List Constraint → ℕ
  blobs_from acc [] = acc
  blobs_from acc (c ∷ cs) = blobs_from (add_u64 acc (blobs_of (lib.as_eip4844 c.tx))) cs

  unfoldable pub blob_count_from : ℕ → List SignedConstraints → ℕ
  unfolding blobs_from
  blob_count_from acc [] = acc
  blob_count_from acc (sc ∷ scs) =
      blob_count_from (add_u64 acc (blobs_from 0 sc.message.transactions)) scs

  unfoldable pub blob_count : BlockTemplate → ℕ
  unfolding blob_count_from
  blob_count t = blob_count_from 0 t.signed_constraints_list

  module _ {ℓ} {E : Type ℓ} where
    -- The closure of `and_modify` runs only where the sender has an entry.
    unfoldable pub settle_one :
        StateDiff → ℕ → PooledTransactionsElement → Option (ℕ × ℕ) → Result E StateDiff
    settle_one diffs sender tx none = ok diffs
    settle_one diffs sender tx (some (nonce, balance)) = do
      cost ← max_transaction_cost lib tx
      ok (Assoc.modify sender (λ _. (nonce - 1, sub_u256 balance cost)) diffs)

    unfoldable pub settle : StateDiff → List Constraint → Result E StateDiff
    settle diffs [] = ok diffs
    settle diffs (c ∷ cs) = do
      sender ← expect c.sender
      diffs' ← settle_one diffs sender c.tx (Assoc.lookup sender diffs)
      settle diffs' cs

    unfoldable pub remove_constraints_at_index : BlockTemplate → ℕ → Result E BlockTemplate
    remove_constraints_at_index t index = do
      constraints ← expect (get_elem? t.signed_constraints_list index)
      diffs ← settle t.state_diff constraints.message.transactions
      ok (record {
        state_diff = diffs;
        signed_constraints_list = remove_at t.signed_constraints_list index;
      })

    -- `for index in indexes.into_iter().rev()`
    unfoldable pub remove_rev : List ℕ → BlockTemplate → Result E BlockTemplate
    remove_rev [] t = ok t
    remove_rev (index ∷ indexes) t = do
      t' ← remove_rev indexes t
      remove_constraints_at_index t' index

    unfoldable pub cost_and_nonce : ℕ → ℕ → List Constraint → Result E (ℕ × ℕ)
    cost_and_nonce total_cost min_nonce [] = ok (total_cost, min_nonce)
    cost_and_nonce total_cost min_nonce (c ∷ cs) = do
      cost ← max_transaction_cost lib c.tx
      cost_and_nonce (add_u256 total_cost cost) (min min_nonce (lib.nonce c.tx)) cs

    unfoldable pub retain : BlockTemplate → ℕ → AccountState → Result E BlockTemplate
    retain t address state = do
      own ← constraints_with_address address 0 t.signed_constraints_list
      (max_total_cost, min_nonce) ← cost_and_nonce 0 (u64_mod - 1) (flat own)
      if ltb state.balance max_total_cost || ltb min_nonce state.transaction_count
          then remove_rev (indexes_of own) t
          else ok t
