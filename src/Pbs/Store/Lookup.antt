-- ===== src/Pbs/Store/Lookup.antt =====
-- What the operations of the constraint store return and leave
-- (interstate-pbs-module/src/constraints.rs).
use proposer_commitment_netw.Base.{
  ℕ, ◌<◌, ◌≡◌, ◌≢◌, ◌↔◌, none, List, [], ◌∷◌, ◌++◌, ok, err, length, leb, unwrap_or, ◌==◌,
  if◌then◌else◌, inl, inr, Result-cases, arith,
}
use proposer_commitment_netw.Base.Assoc
use proposer_commitment_netw.Base.Assoc.{
  Assoc, Distinct, lookup-insert, lookup-modify_self, lookup-modify_ne, lookup-remove,
  lookup-retain,
}
use proposer_commitment_netw.Pbs.Message.{
  ConstraintsMessage, ConstraintsWithProofData, PbsLib, try_from,
}
use proposer_commitment_netw.Pbs.Store.{
  ConstraintStore, StoreError, check_conflicts, per_slot_max_constraints, push, add_decoded,
  add_constraints, remove_before_constraints, remove_constraints,
}

-- The messages stored for a slot.
abbrev pub stored : ConstraintStore → ℕ → List ConstraintsWithProofData
stored s slot = unwrap_or (Assoc.lookup slot s.cache) []

module _ (lib : PbsLib) (s : ConstraintStore) (slot : ℕ) (c : ConstraintsMessage) where
  -- A refused message leaves the store as it was.
  pub add_constraints_refused :
      (e : StoreError)
      → (add_constraints lib s slot c).1 ≡ err e
      → (add_constraints lib s slot c).0 ≡ s
  unfolding add_constraints add_decoded push
  add_constraints_refused e h = ground arith

  stored_only_if :
      (add_constraints lib s slot c).1 ≡ ok tt
      → (check_conflicts s slot c ≡ none)
        × ((d : ConstraintsWithProofData) × (try_from lib c ≡ ok d)
            × (length (stored s slot) < per_slot_max_constraints))
  unfolding add_constraints add_decoded push
  stored_only_if h = elim (Result-cases (try_from lib c)) [
    | inl (d, e) ↦ (ground arith, (d, e, ground arith))
    | inr (inl (x, e)) ↦ absurd (ground arith)
    | inr (inr e) ↦ absurd (ground arith)
  ]

  pub stored_if :
      (d : ConstraintsWithProofData)
      → check_conflicts s slot c ≡ none
      → try_from lib c ≡ ok d
      → length (stored s slot) < per_slot_max_constraints
      → ((add_constraints lib s slot c).1 ≡ ok tt)
        × ((k : ℕ)
            → stored (add_constraints lib s slot c).0 k
              ≡ (if slot == k then stored s slot ++ d ∷ [] else stored s k))
  unfolding add_constraints add_decoded push
  stored_if d free e room = (
    ground arith,
    λ k. ground (
      arith,
      lookup-insert slot k (d ∷ []) s.cache,
      lookup-modify_self slot (λ ds. ds ++ d ∷ []) (stored s slot) s.cache,
      lookup-modify_ne slot k (λ ds. ds ++ d ∷ []) s.cache,
    ),
  )

  -- A message is stored exactly when it conflicts with none of its slot, decodes, and the slot
  -- is new or has room.
  pub add_constraints_iff : ((add_constraints lib s slot c).1 ≡ ok tt) ↔ (
      (check_conflicts s slot c ≡ none)
      × (d : ConstraintsWithProofData) × (try_from lib c ≡ ok d)
      × (length (stored s slot) < per_slot_max_constraints))
  add_constraints_iff = (
    λ h. let (free, (d, e, room)) = stored_only_if h in (free, d, e, room),
    λ (free, d, e, room). (stored_if d free e room).0,
  )

  -- A stored message stands last in its slot, with the proof data of its transactions; the other
  -- slots are as before.
  pub stored-add_constraints :
      (add_constraints lib s slot c).1 ≡ ok tt
      → (d : ConstraintsWithProofData) × (try_from lib c ≡ ok d)
        × ((k : ℕ)
            → stored (add_constraints lib s slot c).0 k
              ≡ (if slot == k then stored s slot ++ d ∷ [] else stored s k))
  stored-add_constraints h =
      let (free, (d, e, room)) = stored_only_if h in (d, e, (stored_if d free e room).1)

  -- A slot with no entry accepts every message that decodes: a transaction that the message
  -- holds twice is no conflict.
  pub add_constraints_new_slot :
      (d : ConstraintsWithProofData)
      → Assoc.lookup slot s.cache ≡ none
      → try_from lib c ≡ ok d
      → ((add_constraints lib s slot c).1 ≡ ok tt)
        × (stored (add_constraints lib s slot c).0 slot ≡ d ∷ [])
  unfolding add_constraints check_conflicts add_decoded push
  add_constraints_new_slot d e k = ground (arith, lookup-insert slot slot (d ∷ []) s.cache)

-- With no slot twice in the table, after the clean-up the slots from the given one on are as before,
-- and the older ones are gone.
pub stored-remove_before :
    (s : ConstraintStore) (slot k : ℕ)
    → Distinct s.cache
    → stored (remove_before_constraints s slot) k ≡ (if leb slot k then stored s k else [])
unfolding remove_before_constraints
stored-remove_before s slot k d = ground (arith, lookup-retain (λ j _. leb slot j) k s.cache d)

-- The messages of a slot are returned once: they are what was stored, a second call returns
-- nothing, and the other slots are as before.
pub remove_constraints_lem :
    (s : ConstraintStore) (slot k : ℕ)
    → ((remove_constraints s slot).1 ≡ Assoc.lookup slot s.cache)
      × ((remove_constraints (remove_constraints s slot).0 slot).1 ≡ none)
      × (slot ≢ k → stored (remove_constraints s slot).0 k ≡ stored s k)
unfolding remove_constraints
remove_constraints_lem s slot k = (
  ground arith,
  ground (arith, lookup-remove slot slot s.cache),
  λ n. ground (arith, lookup-remove slot k s.cache),
)
