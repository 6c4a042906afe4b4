-- ===== src/Pbs/Store.antt =====
-- `ConstraintStore` (interstate-pbs-module/src/constraints.rs): the constraints of each slot, with
-- the gauge of metrics.rs that counts them. A function here is a call that no other interrupts; its
-- parts that hold a lock are functions of their own, which Pbs/Store/Concurrent lets other calls
-- come between.
pub mod Invariant
pub mod Lookup
pub mod Refinement
pub mod Concurrent
use proposer_commitment_netw.Base.{
  ℕ, suc, ◌+◌, ◌<◌, Bool, true, false, Option, none, some, List, [], ◌∷◌, ◌++◌, Result, ok, err,
  panic, bytes_eq, any_of, length, sum_by, leb, if◌then◌else◌,
}
use proposer_commitment_netw.Base.Assoc
use proposer_commitment_netw.Base.Assoc.{Assoc}
use proposer_commitment_netw.Base.Int.{ℤ, pos, pos_part, neg_part, sub_ℕ}
use proposer_commitment_netw.Pbs.Message.{
  ConstraintsMessage, ConstraintsWithProofData, Eip2718Error, PbsLib, try_from,
}

abbrev pub per_slot_max_constraints : ℕ
per_slot_max_constraints = 128

pub data StoreConflict : Type 0 where
  top_of_block : StoreConflict
  duplicate_transaction : StoreConflict

pub data StoreError : Type 0 where
  conflict : StoreConflict → StoreError
  decode : Eip2718Error → StoreError
  limit_exceeded : ℕ → StoreError

pub record ConstraintStore : Type 0 where
  pub cache : Assoc (List ConstraintsWithProofData)
  -- CACHE_SIZE_CONSTRAINTS
  pub gauge : ℤ

unfoldable pub new : ConstraintStore
new = record { cache = []; gauge = pos 0 }

unfoldable pub total_constraints : Assoc (List ConstraintsWithProofData) → ℕ
total_constraints [] = 0
total_constraints ((_, cs) ∷ m) = length cs + total_constraints m

-- Some transaction of the new message is also in the saved one.
abbrev pub shares : ConstraintsMessage → ConstraintsWithProofData → Bool
shares constraints saved =
    any_of (λ tx. any_of (λ existing. bytes_eq tx existing) saved.message.transactions)
      constraints.transactions

unfoldable pub check_conflicts : ConstraintStore → ℕ → ConstraintsMessage → Option StoreConflict
check_conflicts s slot constraints = elim (Assoc.lookup slot s.cache) [
  | none ↦ none
  | some saved ↦
      if any_of (λ saved_constraint. shares constraints saved_constraint) saved
      then some duplicate_transaction
      else none
]

unfoldable pub increment : ConstraintStore → ConstraintStore
increment s = record s { gauge = sub_ℕ (pos_part s.gauge + 1) (neg_part s.gauge) }

-- The write half of `add_constraints`, under the lock.
unfoldable pub push :
    ConstraintStore
    → ℕ
    → ConstraintsWithProofData
    → Option (List ConstraintsWithProofData)
    → ConstraintStore × Result StoreError (Unit {0})
unfolding increment
push s slot message_with_data none =
    (increment (record s { cache = Assoc.insert slot (message_with_data ∷ []) s.cache }), ok tt)
push s slot message_with_data (some cs) =
    if leb per_slot_max_constraints (length cs) then (s, err (limit_exceeded slot)) else (
      increment
          (record s { cache = Assoc.modify slot (λ cs. cs ++ message_with_data ∷ []) s.cache }),
      ok tt,
    )

unfoldable pub add_decoded :
    ConstraintStore
    → ℕ
    → Result Eip2718Error ConstraintsWithProofData
    → ConstraintStore × Result StoreError (Unit {0})
unfolding push
add_decoded s slot (err e) = (s, err (decode e))
add_decoded s slot panic = (s, panic)
add_decoded s slot (ok d) = push s slot d (Assoc.lookup slot s.cache)

unfoldable pub add_constraints :
    PbsLib
    → ConstraintStore
    → ℕ
    → ConstraintsMessage
    → ConstraintStore × Result StoreError (Unit {0})
add_constraints lib s slot constraints = elim (check_conflicts s slot constraints) [
  | some c ↦ (s, err (conflict c))
  | none ↦ add_decoded s slot (try_from lib constraints)
]

-- The write half of `remove_before_constraints`, and its gauge, which is set after the lock is released.
abbrev pub retain_from : ConstraintStore → ℕ → ConstraintStore
retain_from s slot = record s { cache = Assoc.retain (λ k _. leb slot k) s.cache }

abbrev pub set_gauge : ConstraintStore → ℕ → ConstraintStore
set_gauge s count = record s { gauge = pos count }

unfoldable pub remove_before_constraints : ConstraintStore → ℕ → ConstraintStore
remove_before_constraints s slot =
    let s' = retain_from s slot in set_gauge s' (total_constraints s'.cache)

unfoldable pub remove_constraints :
    ConstraintStore → ℕ → ConstraintStore × Option (List ConstraintsWithProofData)
remove_constraints s slot = elim (Assoc.lookup slot s.cache) [
  | none ↦ (s, none)
  | some c ↦ (
    record {
      cache = Assoc.remove slot s.cache;
      gauge = sub_ℕ (pos_part s.gauge) (neg_part s.gauge + length c);
    },
    some c,
  )
]
