-- ===== src/Pbs/Store/Refinement.antt =====
-- The constraint store (interstate-pbs-module/src/constraints.rs) against an abstract one: a
-- function from slots to messages, with no table, gauge or lock.
use proposer_commitment_netw.Base.{
  false, ℕ, ◌≡◌, refl, ◌∙◌, ap, Bool, none, List, [], ◌∷◌, ◌++◌, Result, ok, err, panic, length,
  leb, ltb, any_of, ◌==◌, if◌then◌else◌, inl, inr, Result-cases, arith,
}
use proposer_commitment_netw.Base.Assoc.{
  lookup-remove, lookup-insert, lookup-modify_self, lookup-modify_ne,
}
use proposer_commitment_netw.Pbs.Message.{
  ConstraintsMessage, ConstraintsWithProofData, PbsLib, try_from,
}
use proposer_commitment_netw.Pbs.Store.{
  ConstraintStore, shares, check_conflicts, per_slot_max_constraints, push, add_decoded,
  add_constraints, remove_before_constraints, remove_constraints,
}
use proposer_commitment_netw.Pbs.Store.Invariant.{IsValid, add_constraints-IsValid, remove-IsValid}
use proposer_commitment_netw.Pbs.Store.Lookup.{stored, stored-remove_before}

-- The calls that the server makes on the store.
pub data Call : Type 0 where
  add : ℕ → ConstraintsMessage → Call
  take : ℕ → Call
  clean : ℕ → Call

abbrev pub call : PbsLib → ConstraintStore → Call → ConstraintStore
call lib s (add slot c) = (add_constraints lib s slot c).0
call lib s (take slot) = (remove_constraints s slot).0
call lib s (clean slot) = remove_before_constraints s slot

abbrev pub run : PbsLib → ConstraintStore → List Call → ConstraintStore
run lib s [] = s
run lib s (c ∷ cs) = run lib (call lib s c) cs

-- The abstract store.
abbrev pub Slots : Type 0
Slots = ℕ → List ConstraintsWithProofData

-- One message more, if it decodes, shares no transaction with its slot, and the slot has room.
abbrev pub added :
    Bool
    → Bool
    → {E : Type 0} → Result E ConstraintsWithProofData
    → List ConstraintsWithProofData
    → List ConstraintsWithProofData
added conflict room (ok d) ds = if conflict then ds else if room then ds ++ d ∷ [] else ds
added conflict room (err e) ds = ds
added conflict room panic ds = ds

abbrev pub spec_call : PbsLib → Slots → Call → Slots
spec_call lib m (add slot c) k =
    if slot == k
    then added (any_of (λ saved. shares c saved) (m slot))
        (ltb (length (m slot)) per_slot_max_constraints) (try_from lib c) (m slot)
    else m k
spec_call lib m (take slot) k = if slot == k then [] else m k
spec_call lib m (clean slot) k = if leb slot k then m k else []

abbrev pub spec_run : PbsLib → Slots → List Call → Slots
spec_run lib m [] = m
spec_run lib m (c ∷ cs) = spec_run lib (spec_call lib m c) cs

conflict_of :
    (s : ConstraintStore) (slot : ℕ) (c : ConstraintsMessage)
    → any_of (λ saved. shares c saved) (stored s slot) ≡ false
    → check_conflicts s slot c ≡ none
unfolding check_conflicts
conflict_of s slot c h = ground arith

stored-add :
    (lib : PbsLib) (s : ConstraintStore) (slot : ℕ) (c : ConstraintsMessage) (k : ℕ)
    → stored (add_constraints lib s slot c).0 k ≡ spec_call lib (stored s) (add slot c) k
unfolding add_constraints add_decoded push check_conflicts
stored-add lib s slot c k = elim (Result-cases (try_from lib c)) [
  | inl (d, e) ↦ ground (
    arith,
    lookup-insert slot k (d ∷ []) s.cache,
    lookup-modify_self slot (λ ds. ds ++ d ∷ []) (stored s slot) s.cache,
    lookup-modify_ne slot k (λ ds. ds ++ d ∷ []) s.cache,
  )
  | inr (inl (x, e)) ↦ ground arith
  | inr (inr e) ↦ ground arith
]

stored-call :
    (lib : PbsLib) (s : ConstraintStore) (c : Call) (k : ℕ)
    → IsValid s
    → stored (call lib s c) k ≡ spec_call lib (stored s) c k
unfolding remove_constraints
stored-call lib s (add slot c) k v = stored-add lib s slot c k
stored-call lib s (take slot) k v = ground (arith, lookup-remove slot k s.cache)
stored-call lib s (clean slot) k v = stored-remove_before s slot k v.distinct

call-IsValid : (lib : PbsLib) (s : ConstraintStore) (c : Call) → IsValid s → IsValid (call lib s c)
call-IsValid lib s (add slot c) v = add_constraints-IsValid lib s slot c v
call-IsValid lib s (take slot) v = (remove-IsValid s slot v).1
call-IsValid lib s (clean slot) v = (remove-IsValid s slot v).0

-- From a valid store, every sequence of calls, one after the other, leaves a valid store, and the
-- messages that it holds for each slot are those of the abstract store after the same calls.
pub run_refines :
    (lib : PbsLib) (s : ConstraintStore) (cs : List Call)
    → IsValid s
    → IsValid (run lib s cs) × (stored (run lib s cs) ≡ spec_run lib (stored s) cs)
run_refines lib s [] v = (v, refl)
run_refines lib s (c ∷ cs) v =
    let (valid, same) = run_refines lib (call lib s c) cs (call-IsValid lib s c v) in
    (valid, same ∙ ap (λ m. spec_run lib m cs) (λ i k. stored-call lib s c k v i))
