-- ===== src/Pbs/Store/Invariant.antt =====
-- The invariant of the constraint store (interstate-pbs-module/src/constraints.rs).
use proposer_commitment_netw.Base.{
  ℕ, ◌+◌, ◌≤◌, ◌<◌, ◌≡◌, refl, Bool, true, false, none, some, List, [], ◌∷◌, ◌++◌, ok, any_of, All,
  All-append, length, length-append, leb, ◌==◌, inl, inr, Bool-cases, Option-cases, Result-cases,
  ==→eq, arith,
}
use proposer_commitment_netw.Base.Assoc
use proposer_commitment_netw.Base.Assoc.{
  Assoc, Distinct, Distinct-insert, Distinct-modify, Distinct-remove, Distinct-retain,
  lookup_of_absent,
}
use proposer_commitment_netw.Base.Int.{pos}
use proposer_commitment_netw.Pbs.Message.{
  ConstraintsMessage, ConstraintsWithProofData, PbsLib, try_from,
}
use proposer_commitment_netw.Pbs.Store.{
  ConstraintStore, total_constraints, shares, check_conflicts, per_slot_max_constraints, push,
  add_decoded, add_constraints, remove_before_constraints, remove_constraints,
}

-- No transaction of a later message is in an earlier one.
abbrev pub Apart : List ConstraintsWithProofData → Type 0
Apart [] = Unit
Apart (d ∷ ds) = All (λ later. shares later.message d ≡ false) ds × Apart ds

-- What holds of the constraints of each slot.
abbrev pub SlotsFit : Assoc (List ConstraintsWithProofData) → Type 0
SlotsFit [] = Unit
SlotsFit ((_, cs) ∷ m) = (length cs ≤ per_slot_max_constraints) × Apart cs × SlotsFit m

-- One entry for each slot, at most 128 messages in it, no transaction in two of them, and the
-- gauge equal to the number of messages stored.
pub record IsValid (s : ConstraintStore) : Type 0 where
  pub distinct : Distinct s.cache
  pub slots : SlotsFit s.cache
  pub counted : s.gauge ≡ pos (total_constraints s.cache)

pub Apart-append :
    (ds : List ConstraintsWithProofData) (d : ConstraintsWithProofData)
    → Apart ds
    → any_of (λ saved. shares d.message saved) ds ≡ false
    → Apart (ds ++ d ∷ [])
Apart-append [] d h k = (tt, tt)
Apart-append (x ∷ ds) d h k =
    (All-append _ ds (d ∷ []) h.0 (ground arith, tt), Apart-append ds d h.1 (ground arith))

SlotsFit-insert :
    (k : ℕ) (d : ConstraintsWithProofData) (m : Assoc (List ConstraintsWithProofData))
    → SlotsFit m
    → SlotsFit (Assoc.insert k (d ∷ []) m)
unfolding Assoc.insert
SlotsFit-insert k d [] h = (omega arith, (tt, tt), tt)
SlotsFit-insert k d ((j, cs) ∷ m) h = elim (Bool-cases (j == k)) [
  | inl e ↦ rw e (omega arith, (tt, tt), h.2)
  | inr e ↦ rw e (h.0, h.1, SlotsFit-insert k d m h.2)
]

SlotsFit-modify :
    (k : ℕ) (d : ConstraintsWithProofData) (cs : List ConstraintsWithProofData)
    (m : Assoc (List ConstraintsWithProofData))
    → Assoc.lookup k m ≡ some cs
    → length cs < per_slot_max_constraints
    → any_of (λ saved. shares d.message saved) cs ≡ false
    → SlotsFit m
    → SlotsFit (Assoc.modify k (λ ds. ds ++ d ∷ []) m)
unfolding Assoc.modify Assoc.lookup
SlotsFit-modify k d cs [] e l n h = cc
SlotsFit-modify k d cs ((j, ds) ∷ m) e l n h = elim (Bool-cases (j == k)) [
  | inl q ↦
      let same : ds ≡ cs = ground arith in
      rw (q, same)
        (omega (arith, length-append cs (d ∷ [])), Apart-append cs d (rw same at h.1) n, h.2)
  | inr q ↦ rw q (h.0, h.1, SlotsFit-modify k d cs m (ground arith) l n h.2)
]

SlotsFit-retain :
    (p : ℕ → List ConstraintsWithProofData → Bool) (m : Assoc (List ConstraintsWithProofData))
    → SlotsFit m
    → SlotsFit (Assoc.retain p m)
unfolding Assoc.retain
SlotsFit-retain p [] h = tt
SlotsFit-retain p ((j, cs) ∷ m) h = elim (Bool-cases (p j cs)) [
  | inl e ↦ rw e (h.0, h.1, SlotsFit-retain p m h.2)
  | inr e ↦ rw e (SlotsFit-retain p m h.2)
]

SlotsFit-remove :
    (k : ℕ) (m : Assoc (List ConstraintsWithProofData)) → SlotsFit m → SlotsFit (Assoc.remove k m)
unfolding Assoc.remove
SlotsFit-remove k [] h = tt
SlotsFit-remove k ((j, cs) ∷ m) h = elim (Bool-cases (j == k)) [
  | inl e ↦ rw e (SlotsFit-remove k m h.2)
  | inr e ↦ rw e (h.0, h.1, SlotsFit-remove k m h.2)
]

total-insert :
    (k : ℕ) (d : ConstraintsWithProofData) (m : Assoc (List ConstraintsWithProofData))
    → Assoc.lookup k m ≡ none
    → total_constraints (Assoc.insert k (d ∷ []) m) ≡ total_constraints m + 1
unfolding total_constraints Assoc.insert Assoc.lookup
total-insert k d [] h = refl
total-insert k d ((j, cs) ∷ m) h = ground (arith, total-insert k d m)

total-modify :
    (k : ℕ) (d : ConstraintsWithProofData) (cs : List ConstraintsWithProofData)
    (m : Assoc (List ConstraintsWithProofData))
    → Assoc.lookup k m ≡ some cs
    → total_constraints (Assoc.modify k (λ ds. ds ++ d ∷ []) m) ≡ total_constraints m + 1
unfolding total_constraints Assoc.modify Assoc.lookup
total-modify k d cs [] h = cc
total-modify k d cs ((j, ds) ∷ m) h =
    ground (arith, total-modify k d cs m, length-append ds (d ∷ []))

remove-absent :
    (k : ℕ) (m : Assoc (List ConstraintsWithProofData))
    → Assoc.absent k m ≡ true
    → Assoc.remove k m ≡ m
unfolding Assoc.remove
remove-absent k [] h = refl
remove-absent k ((j, cs) ∷ m) h = ground (arith, remove-absent k m)

total-remove :
    (k : ℕ) (cs : List ConstraintsWithProofData) (m : Assoc (List ConstraintsWithProofData))
    → Distinct m
    → Assoc.lookup k m ≡ some cs
    → total_constraints (Assoc.remove k m) + length cs ≡ total_constraints m
unfolding total_constraints Assoc.remove Assoc.lookup
total-remove k cs [] d h = cc
total-remove k cs ((j, ds) ∷ m) (a, d) h = elim (Bool-cases (j == k)) [
  | inl e ↦
      let here : j ≡ k = ==→eq j k e in rw (e, remove-absent k m (rw here at a)) (ground arith)
  | inr e ↦ ground (arith, total-remove k cs m d)
]

push-IsValid :
    (s : ConstraintStore) (slot : ℕ) (d : ConstraintsWithProofData)
    → IsValid s
    → check_conflicts s slot d.message ≡ none
    → IsValid (push s slot d (Assoc.lookup slot s.cache)).0
unfolding push check_conflicts
push-IsValid s slot d h n = elim (Option-cases (Assoc.lookup slot s.cache)) [
  | inl e ↦
      rw (e, push)
        (record {
          distinct = Distinct-insert slot _ s.cache h.distinct;
          slots = SlotsFit-insert slot d s.cache h.slots;
          counted = ground (arith, total-insert slot d s.cache e);
        })
  | inr (cs, e) ↦ elim (Bool-cases (leb per_slot_max_constraints (length cs))) [
    | inl full ↦ rw (e, push, full) h
    | inr room ↦
        rw (e, push, room)
          (record {
            distinct = Distinct-modify slot _ s.cache h.distinct;
            slots = SlotsFit-modify slot d cs s.cache e (ground arith) (ground arith) h.slots;
            counted = ground (arith, total-modify slot d cs s.cache e);
          })
  ]
]

pub message-try_from :
    (lib : PbsLib) (c : ConstraintsMessage) (d : ConstraintsWithProofData)
    → try_from lib c ≡ ok d
    → d.message ≡ c
unfolding try_from
message-try_from lib c d h = ground arith

-- `add_constraints` keeps the invariant, on success and on every error.
pub add_constraints-IsValid :
    (lib : PbsLib) (s : ConstraintStore) (slot : ℕ) (c : ConstraintsMessage)
    → IsValid s
    → IsValid (add_constraints lib s slot c).0
unfolding add_constraints add_decoded
add_constraints-IsValid lib s slot c h = elim (Option-cases (check_conflicts s slot c)) [
  | inr (x, e) ↦ rw (e, add_constraints) h
  | inl free ↦ elim (Result-cases (try_from lib c)) [
    | inl (d, e) ↦
        rw (free, add_constraints, e, add_decoded)
          (push-IsValid s slot d h (rw (message-try_from lib c d e) free))
    | inr (inl (x, e)) ↦ rw (free, add_constraints, e, add_decoded) h
    | inr (inr e) ↦ rw (free, add_constraints, e, add_decoded) h
  ]
]

-- Both removals keep the invariant, the gauge included.
pub remove-IsValid :
    (s : ConstraintStore) (slot : ℕ)
    → IsValid s
    → IsValid (remove_before_constraints s slot) × IsValid (remove_constraints s slot).0
unfolding remove_before_constraints remove_constraints
remove-IsValid s slot h = (
  record {
    distinct = Distinct-retain _ s.cache h.distinct;
    slots = SlotsFit-retain _ s.cache h.slots;
    counted = refl;
  },
  elim (Option-cases (Assoc.lookup slot s.cache)) [
    | inl e ↦ rw (e, remove_constraints) h
    | inr (cs, e) ↦
        rw (e, remove_constraints)
          (record {
            distinct = Distinct-remove slot s.cache h.distinct;
            slots = SlotsFit-remove slot s.cache h.slots;
            counted = ground (arith, total-remove slot cs s.cache h.distinct e);
          })
  ],
)
