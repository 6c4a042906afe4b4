-- ===== src/Pbs/Store/Concurrent/Bounds.antt =====
-- What holds of the constraint store (interstate-pbs-module/src/constraints.rs) however its calls
-- interleave.
use proposer_commitment_netw.Base.{
  ℕ, ◌≤◌, ◌<◌, ◌≡◌, refl, subst, sym, Bool, Option, none, some, List, [], ◌∷◌, ◌++◌, Result, ok,
  err, panic, All, All-append, length, length-append, leb, ◌==◌, inl, inr, Bool-cases, Option-cases,
  arith,
}
use proposer_commitment_netw.Base.Assoc
use proposer_commitment_netw.Base.Assoc.{
  Assoc, Distinct, Distinct-insert, Distinct-modify, Distinct-remove, Distinct-retain,
}
use proposer_commitment_netw.Pbs.Message.{
  ConstraintsMessage, ConstraintsWithProofData, Eip2718Error, PbsLib, try_from,
}
use proposer_commitment_netw.Pbs.Store
use proposer_commitment_netw.Pbs.Store.{
  ConstraintStore, StoreConflict, check_conflicts, per_slot_max_constraints, push,
  remove_constraints, retain_from,
}
use proposer_commitment_netw.Pbs.Store.Invariant.{message-try_from}
use proposer_commitment_netw.Pbs.Store.Concurrent.{
  Part, checking, writing, retaining, counting, setting, removing, System, start, then_write,
  advance, Step, add, remove_before, remove, go_on, Reach, here, next,
}

module _ (lib : PbsLib) where
  -- The proof data is what the message decodes to.
  abbrev pub Decoded : ConstraintsWithProofData → Type 0
  Decoded d = try_from lib d.message ≡ ok d

  -- At most 128 messages for each slot, all decoded.
  abbrev pub SlotsBounded : Assoc (List ConstraintsWithProofData) → Type 0
  SlotsBounded [] = Unit
  SlotsBounded ((_, cs) ∷ m) =
      (length cs ≤ per_slot_max_constraints) × All Decoded cs × SlotsBounded m

  abbrev pub PartDecoded : Part → Type 0
  PartDecoded (checking slot c) = Unit
  PartDecoded (writing slot d) = Decoded d
  PartDecoded (retaining slot) = Unit
  PartDecoded counting = Unit
  PartDecoded (setting count) = Unit
  PartDecoded (removing slot) = Unit

  pub record IsBounded (s : System) : Type 0 where
    pub distinct : Distinct s.store.cache
    pub slots : SlotsBounded s.store.cache
    pub decoded : All PartDecoded s.calls

  SlotsBounded-insert :
      (k : ℕ) (d : ConstraintsWithProofData) (m : Assoc (List ConstraintsWithProofData))
      → Decoded d
      → SlotsBounded m
      → SlotsBounded (Assoc.insert k (d ∷ []) m)
  unfolding Assoc.insert
  SlotsBounded-insert k d [] e h = (omega arith, (e, tt), tt)
  SlotsBounded-insert k d ((j, cs) ∷ m) e h = elim (Bool-cases (j == k)) [
    | inl q ↦ rw q (omega arith, (e, tt), h.2)
    | inr q ↦ rw q (h.0, h.1, SlotsBounded-insert k d m e h.2)
  ]

  SlotsBounded-modify :
      (k : ℕ) (d : ConstraintsWithProofData) (cs : List ConstraintsWithProofData)
      (m : Assoc (List ConstraintsWithProofData))
      → Assoc.lookup k m ≡ some cs
      → length cs < per_slot_max_constraints
      → Decoded d
      → SlotsBounded m
      → SlotsBounded (Assoc.modify k (λ ds. ds ++ d ∷ []) m)
  unfolding Assoc.modify Assoc.lookup
  SlotsBounded-modify k d cs [] e l n h = cc
  SlotsBounded-modify k d cs ((j, ds) ∷ m) e l n h = elim (Bool-cases (j == k)) [
    | inl q ↦
        let same : ds ≡ cs = ground arith in
        rw (q, same)
          (
            omega (arith, length-append cs (d ∷ [])),
            All-append Decoded cs (d ∷ []) (rw same at h.1) (n, tt),
            h.2,
          )
    | inr q ↦ rw q (h.0, h.1, SlotsBounded-modify k d cs m (ground arith) l n h.2)
  ]

  SlotsBounded-retain :
      (p : ℕ → List ConstraintsWithProofData → Bool) (m : Assoc (List ConstraintsWithProofData))
      → SlotsBounded m
      → SlotsBounded (Assoc.retain p m)
  unfolding Assoc.retain
  SlotsBounded-retain p [] h = tt
  SlotsBounded-retain p ((j, cs) ∷ m) h = elim (Bool-cases (p j cs)) [
    | inl e ↦ rw e (h.0, h.1, SlotsBounded-retain p m h.2)
    | inr e ↦ rw e (SlotsBounded-retain p m h.2)
  ]

  SlotsBounded-remove :
      (k : ℕ) (m : Assoc (List ConstraintsWithProofData))
      → SlotsBounded m
      → SlotsBounded (Assoc.remove k m)
  unfolding Assoc.remove
  SlotsBounded-remove k [] h = tt
  SlotsBounded-remove k ((j, cs) ∷ m) h = elim (Bool-cases (j == k)) [
    | inl e ↦ rw e (SlotsBounded-remove k m h.2)
    | inr e ↦ rw e (h.0, h.1, SlotsBounded-remove k m h.2)
  ]

  abbrev StoreBounded : ConstraintStore → Type 0
  StoreBounded s = Distinct s.cache × SlotsBounded s.cache

  push-StoreBounded :
      (s : ConstraintStore) (slot : ℕ) (d : ConstraintsWithProofData)
      → StoreBounded s
      → Decoded d
      → StoreBounded (push s slot d (Assoc.lookup slot s.cache)).0
  unfolding push
  push-StoreBounded s slot d (distinct, slots) n = elim (Option-cases (Assoc.lookup slot s.cache)) [
    | inl e ↦
        rw (e, push)
          (Distinct-insert slot _ s.cache distinct, SlotsBounded-insert slot d s.cache n slots)
    | inr (cs, e) ↦ elim (Bool-cases (leb per_slot_max_constraints (length cs))) [
      | inl full ↦ rw (e, push, full) (distinct, slots)
      | inr room ↦
          rw (e, push, room)
            (
              Distinct-modify slot _ s.cache distinct,
              SlotsBounded-modify slot d cs s.cache e (ground arith) n slots,
            )
    ]
  ]

  then_write-decoded :
      (slot : ℕ) (c : ConstraintsMessage) (o : Option StoreConflict)
      (r : Result Eip2718Error ConstraintsWithProofData)
      → try_from lib c ≡ r
      → All PartDecoded (then_write slot o r)
  then_write-decoded slot c (some x) r e = tt
  then_write-decoded slot c none (ok d) e =
      (subst (λ m. try_from lib m ≡ ok d) (sym (message-try_from lib c d e)) e, tt)
  then_write-decoded slot c none (err x) e = tt
  then_write-decoded slot c none panic e = tt

  advance-StoreBounded :
      (s : ConstraintStore) (p : Part)
      → StoreBounded s
      → PartDecoded p
      → StoreBounded (advance lib s p).0 × All PartDecoded (advance lib s p).1
  unfolding advance remove_constraints
  advance-StoreBounded s (checking slot c) v d = (v, then_write-decoded slot c _ _ refl)
  advance-StoreBounded s (writing slot m) v d = (push-StoreBounded s slot m v d, tt)
  advance-StoreBounded s (retaining slot) v d =
      ((Distinct-retain _ s.cache v.0, SlotsBounded-retain _ s.cache v.1), (tt, tt))
  advance-StoreBounded s counting v d = (v, (tt, tt))
  advance-StoreBounded s (setting count) v d = (v, tt)
  advance-StoreBounded s (removing slot) v d = elim (Option-cases (Assoc.lookup slot s.cache)) [
    | inl e ↦ rw (e, remove_constraints) (v, tt)
    | inr (cs, e) ↦
        rw (e, remove_constraints)
          ((Distinct-remove slot s.cache v.0, SlotsBounded-remove slot s.cache v.1), tt)
  ]

  All-resume :
      (before after left : List Part) (p : Part)
      → All PartDecoded (before ++ (p ∷ after))
      → All PartDecoded left
      → PartDecoded p × All PartDecoded (before ++ (left ++ after))
  All-resume [] after left p h l = (h.0, All-append PartDecoded left after l h.1)
  All-resume (b ∷ before) after left p h l =
      let (d, rest) = All-resume before after left p h.1 l in (d, (h.0, rest))

  Step-IsBounded : {s t : System} → Step lib s t → IsBounded s → IsBounded t
  Step-IsBounded (add slot c) v = record {
    distinct = v.distinct;
    slots = v.slots;
    decoded = (tt, v.decoded);
  }
  Step-IsBounded (remove_before slot) v = record {
    distinct = v.distinct;
    slots = v.slots;
    decoded = (tt, v.decoded);
  }
  Step-IsBounded (remove slot) v = record {
    distinct = v.distinct;
    slots = v.slots;
    decoded = (tt, v.decoded);
  }
  Step-IsBounded {s} (go_on before p after e) v =
      let all = subst (All PartDecoded) e v.decoded in
      let d = (All-resume before after [] p all tt).0 in
      let (store, left) = advance-StoreBounded s.store p (v.distinct, v.slots) d in
      record {
        distinct = store.0;
        slots = store.1;
        decoded = (All-resume before after (advance lib s.store p).1 p all left).1;
      }

  -- However calls of the store interleave, from the empty store on: no slot stands twice in the table, a
  -- slot has at most 128 messages, and each message stands with the proof data that it decodes to.
  pub Reach-IsBounded : (s : System) → Reach lib start s → IsBounded s
  unfolding start Store.new
  Reach-IsBounded s r = reached r (record { distinct = tt; slots = tt; decoded = tt })
    where
      reached : {t u : System} → Reach lib t u → IsBounded t → IsBounded u
      reached here v = v
      reached (next q step) v = Step-IsBounded step (reached q v)
