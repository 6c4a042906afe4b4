-- ===== src/Pbs/Store/Concurrent.antt =====
-- Calls on the constraint store at the same time (interstate-pbs-module/src/constraints.rs, called from
-- the routes of server.rs, which run concurrently). A call is cut where it holds no lock: between the
-- check for conflicts and the write of `add_constraints`, and around the count and the gauge of
-- `remove_before_constraints`. The parts of all calls run in any order.
pub mod Bounds
pub mod Duplicates
use proposer_commitment_netw.Base.{
  ℕ, ◌≡◌, Option, none, some, List, [], ◌∷◌, ◌++◌, Result, ok, err, panic,
}
use proposer_commitment_netw.Base.Assoc
use proposer_commitment_netw.Pbs.Message.{
  ConstraintsMessage, ConstraintsWithProofData, Eip2718Error, PbsLib, try_from,
}
use proposer_commitment_netw.Pbs.Store
use proposer_commitment_netw.Pbs.Store.{
  ConstraintStore, StoreConflict, check_conflicts, push, total_constraints, retain_from, set_gauge,
  remove_constraints,
}

-- The part of a call that runs next.
pub data Part : Type 0 where
  -- `check_conflicts`, under the read lock, and then the decoding
  checking : ℕ → ConstraintsMessage → Part
  -- the write half of `add_constraints`
  writing : ℕ → ConstraintsWithProofData → Part
  retaining : ℕ → Part
  counting : Part
  setting : ℕ → Part
  removing : ℕ → Part

-- The store with the calls that have begun.
pub record System : Type 0 where
  pub store : ConstraintStore
  pub calls : List Part

unfoldable pub start : System
unfolding Store.new
start = record { store = Store.new; calls = [] }

-- What is left of `add_constraints` after the check: nothing, if it returns an error.
abbrev pub then_write :
    ℕ → Option StoreConflict → Result Eip2718Error ConstraintsWithProofData → List Part
then_write slot (some c) decoded = []
then_write slot none (ok d) = writing slot d ∷ []
then_write slot none (err e) = []
then_write slot none panic = []

-- A part of a call, and what is left of the call.
unfoldable pub advance : PbsLib → ConstraintStore → Part → ConstraintStore × List Part
advance lib s (checking slot c) = (s, then_write slot (check_conflicts s slot c) (try_from lib c))
advance lib s (writing slot d) = ((push s slot d (Assoc.lookup slot s.cache)).0, [])
advance lib s (retaining slot) = (retain_from s slot, counting ∷ [])
advance lib s counting = (s, setting (total_constraints s.cache) ∷ [])
advance lib s (setting count) = (set_gauge s count, [])
advance lib s (removing slot) = ((remove_constraints s slot).0, [])

abbrev pub begin : Part → System → System
begin p s = record s { calls = p ∷ s.calls }

abbrev pub resume : List Part → List Part → ConstraintStore × List Part → System
resume before after (store, left) = record { store = store; calls = before ++ (left ++ after) }

module _ (lib : PbsLib) where
  pub data Step (s : System) : System → Type 0 where
    add : (slot : ℕ) (c : ConstraintsMessage) → Step s (begin (checking slot c) s)
    remove_before : (slot : ℕ) → Step s (begin (retaining slot) s)
    remove : (slot : ℕ) → Step s (begin (removing slot) s)
    go_on :
        (before : List Part) (p : Part) (after : List Part)
        → s.calls ≡ before ++ (p ∷ after)
        → Step s (resume before after (advance lib s.store p))

  pub data Reach (s : System) : System → Type 0 where
    here : Reach s s
    next : {t u : System} → Reach s t → Step t u → Reach s u
