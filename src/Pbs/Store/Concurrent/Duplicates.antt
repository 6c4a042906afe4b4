-- ===== src/Pbs/Store/Concurrent/Duplicates.antt =====
-- What the constraint store (interstate-pbs-module/src/constraints.rs) lets calls do to one another,
-- and what they do one after the other.
use proposer_commitment_netw.Base.{
  ℕ, ◌+◌, ◌≤◌, ◌<◌, ◌≡◌, refl, sym, subst, ap, ◌∙◌, Option, none, some, List, [], ◌∷◌, ◌++◌, Result,
  ok, err, panic, length, length-append, append_assoc, inl, inr, Option-cases, Result-cases, arith,
}
use proposer_commitment_netw.Base.Assoc
use proposer_commitment_netw.Base.Assoc.{lookup-insert, lookup-modify_self}
use proposer_commitment_netw.Pbs.Message.{
  ConstraintsMessage, ConstraintsWithProofData, Eip2718Error, PbsLib, try_from,
}
use proposer_commitment_netw.Pbs.Store.{
  ConstraintStore, StoreConflict, check_conflicts, per_slot_max_constraints, push, add_decoded,
  add_constraints, remove_before_constraints, retain_from, total_constraints,
}
use proposer_commitment_netw.Pbs.Store.Lookup.{stored}
use proposer_commitment_netw.Pbs.Store.Refinement.{Call, add, take, clean, call, run}
use proposer_commitment_netw.Pbs.Store.Concurrent.{
  Part, checking, writing, retaining, counting, setting, removing, System, then_write, advance,
  resume, Step, Reach, here, next,
}

module _ (lib : PbsLib) where
  Reach_trans : {s t u : System} → Reach lib s t → Reach lib t u → Reach lib s u
  Reach_trans r here = r
  Reach_trans r (next q step) = next (Reach_trans r q) step

  -- The first call goes on.
  first_goes_on :
      (s : System) (p : Part) (calls : List Part)
      → Reach lib (record s { calls = p ∷ calls }) (resume [] calls (advance lib s.store p))
  first_goes_on s p calls = next here (Step.go_on [] p calls refl)

  -- A call of `add_constraints` begins, and its first part runs.
  checked :
      (s : System) (slot : ℕ) (c : ConstraintsMessage) (left : List Part)
      → then_write slot (check_conflicts s.store slot c) (try_from lib c) ≡ left
      → Reach lib s (record s { calls = left ++ s.calls })
  unfolding advance
  checked s slot c left e =
      subst (λ w. Reach lib s (record s { calls = w ++ s.calls })) e
        (Reach_trans (next here (Step.add slot c)) (first_goes_on s (checking slot c) s.calls))

  push-stored :
      (s : ConstraintStore) (slot : ℕ) (d : ConstraintsWithProofData)
      → length (stored s slot) < per_slot_max_constraints
      → stored (push s slot d (Assoc.lookup slot s.cache)).0 slot ≡ stored s slot ++ (d ∷ [])
  unfolding push
  push-stored s slot d room = ground (
    arith,
    lookup-insert slot slot (d ∷ []) s.cache,
    lookup-modify_self slot (λ ds. ds ++ d ∷ []) (stored s slot) s.cache,
  )

  -- Two calls with the same message, at the same time: if it conflicts with nothing in its slot, can
  -- be decoded, and the slot has room for two, then both can pass the check before either writes, and
  -- the message is stored twice.
  pub stored-twice :
      (s : System) (slot : ℕ) (c : ConstraintsMessage) (d : ConstraintsWithProofData)
      → check_conflicts s.store slot c ≡ none
      → try_from lib c ≡ ok d
      → length (stored s.store slot) + 2 ≤ per_slot_max_constraints
      → (u : System) × Reach lib s u
        × (u.calls ≡ s.calls)
        × (stored u.store slot ≡ stored s.store slot ++ (d ∷ d ∷ []))
  unfolding advance
  stored-twice s slot c d free decoded room =
      let passes : then_write slot (check_conflicts s.store slot c) (try_from lib c)
          ≡ writing slot d ∷ [] =
        rw (free, decoded) refl in
      let one = push s.store slot d (Assoc.lookup slot s.store.cache) in
      let two = push one.0 slot d (Assoc.lookup slot one.0.cache) in
      let stored_one = push-stored s.store slot d (omega arith) in
      let room_one : length (stored one.0 slot) < per_slot_max_constraints =
        subst (λ l. length l < per_slot_max_constraints) (sym stored_one)
          (omega (arith, length-append (stored s.store slot) (d ∷ []))) in
      let waiting = record s { calls = writing slot d ∷ s.calls } in
      let both =
        Reach_trans (checked s slot c (writing slot d ∷ []) passes)
          (checked waiting slot c (writing slot d ∷ []) passes) in
      let written = record s { store = one.0 } in
      (
        record s { store = two.0 },
        Reach_trans both (
            Reach_trans (first_goes_on s (writing slot d) (writing slot d ∷ s.calls))
              (first_goes_on written (writing slot d) s.calls)),
        refl,
        push-stored one.0 slot d room_one
            ∙ (ap (λ l. l ++ (d ∷ [])) stored_one
                ∙ append_assoc (stored s.store slot) (d ∷ []) (d ∷ [])),
      )

  -- What is left after the check, run at once.
  abbrev finish : ConstraintStore → List Part → ConstraintStore
  finish s [] = s
  finish s (p ∷ ps) = (advance lib s p).0

  left_finishes :
      (s : System) (slot : ℕ) (o : Option StoreConflict)
      (r : Result Eip2718Error ConstraintsWithProofData)
      → let left = then_write slot o r in
        Reach lib (record s { calls = left ++ s.calls }) (record s { store = finish s.store left })
  unfolding advance
  left_finishes s slot (some x) r = here
  left_finishes s slot none (ok d) = first_goes_on s (writing slot d) s.calls
  left_finishes s slot none (err x) = here
  left_finishes s slot none panic = here

  added-then_write :
      (s : ConstraintStore) (slot : ℕ) (c : ConstraintsMessage) (left : List Part)
      → then_write slot (check_conflicts s slot c) (try_from lib c) ≡ left
      → (add_constraints lib s slot c).0 ≡ finish s left
  unfolding advance add_constraints add_decoded
  added-then_write s slot c left e = elim (Option-cases (check_conflicts s slot c)) [
    | inr (x, f) ↦ ground arith
    | inl f ↦ elim (Result-cases (try_from lib c)) [
      | inl (d, q) ↦ ground arith
      | inr (inl (x, q)) ↦ ground arith
      | inr (inr q) ↦ ground arith
    ]
  ]

  -- A call that no other interrupts.
  alone : (s : System) (c : Call) → Reach lib s (record s { store = call lib s.store c })
  unfolding advance remove_before_constraints
  alone s (add slot c) =
      let left = then_write slot (check_conflicts s.store slot c) (try_from lib c) in
      let same = added-then_write s.store slot c left refl in
      subst (λ st. Reach lib s (record s { store = st })) (sym same)
        (Reach_trans (checked s slot c left refl)
          (left_finishes s slot (check_conflicts s.store slot c) (try_from lib c)))
  alone s (take slot) =
      next (next here (Step.remove slot)) (Step.go_on [] (removing slot) s.calls refl)
  alone s (clean slot) =
      let s1 = record s { store = retain_from s.store slot } in
      Reach_trans (next here (Step.remove_before slot)) (
        Reach_trans (first_goes_on s (retaining slot) s.calls) (
          Reach_trans (first_goes_on s1 counting s.calls)
            (first_goes_on s1 (setting (total_constraints s1.store.cache)) s.calls)))

  -- Calls that run one after the other are one of the ways in which they interleave.
  pub one_after_another :
      (s : System) (cs : List Call) → Reach lib s (record s { store = run lib s.store cs })
  one_after_another s [] = here
  one_after_another s (c ∷ cs) =
      Reach_trans (alone s c) (one_after_another (record s { store = call lib s.store c }) cs)
