-- ===== src/Pbs/Submission.antt =====
-- A block that the gateway sends to the PBS module (`submit_constraints` of
-- interstate-pbs-module/src/server.rs), message by message.
pub mod Blocks
pub mod Chosen
use proposer_commitment_netw.Base.{
  ℕ, ◌*◌, ◌+◌, ◌≤◌, ◌<◌, ◌≡◌, ◌≢◌, ◌↔◌, refl, sym, ap, subst, ◌∙◌, true, false, Option, none, some,
  List, [], ◌∷◌, ◌++◌, map, Result, ok, err, panic, ◌>>=◌, ltb, if◌then◌else◌, inl, inr, ◌⊎◌,
  Bool-cases, Result-cases, Option-cases, any_of, All, length, length-append, append_assoc,
  append-nil, >>=-eq-ok, ◌==◌, arith,
}
use proposer_commitment_netw.Base.Assoc
use proposer_commitment_netw.Base.Words.{add_u64}
use proposer_commitment_netw.Pbs.Message.{
  ConstraintsMessage, ConstraintsWithProofData, Eip2718Error, PbsLib, try_from,
}
use proposer_commitment_netw.Pbs.Store.{
  ConstraintStore, StoreError, shares, check_conflicts, per_slot_max_constraints, add_constraints,
}
use proposer_commitment_netw.Pbs.Store.Invariant.{Apart, Apart-append, message-try_from}
use proposer_commitment_netw.Pbs.Store.Lookup.{
  stored, stored_if, add_constraints_iff, stored-add_constraints,
}
use proposer_commitment_netw.Pbs.Server.{
  PbsClientError, VerifiedConstraints, epoch_slots, save_all, stop_on_error,
}

-- The messages with the data of their proofs, if all can be decoded.
unfoldable pub decode_all :
    PbsLib → List VerifiedConstraints → Result Eip2718Error (List ConstraintsWithProofData)
decode_all lib [] = ok []
decode_all lib (c ∷ cs) = do d ← try_from lib c.message; ds ← decode_all lib cs; ok (d ∷ ds)

All-middle :
    (P : ConstraintsWithProofData → Type 0) (ds : List ConstraintsWithProofData)
    (d : ConstraintsWithProofData) (more : List ConstraintsWithProofData)
    → All P (ds ++ (d ∷ more))
    → P d
All-middle P [] d more h = h.0
All-middle P (x ∷ ds) d more h = All-middle P ds d more h.1

Apart-prefix :
    (ds : List ConstraintsWithProofData) (d : ConstraintsWithProofData)
    (more : List ConstraintsWithProofData)
    → Apart (ds ++ (d ∷ more))
    → any_of (λ saved. shares d.message saved) ds ≡ false
Apart-prefix [] d more h = refl
Apart-prefix (x ∷ ds) d more h = ground (
  arith,
  All-middle (λ later. shares later.message x ≡ false) ds d more h.0,
  Apart-prefix ds d more h.1,
)

check_conflicts_iff :
    (s : ConstraintStore) (slot : ℕ) (c : ConstraintsMessage)
    → (check_conflicts s slot c ≡ none) ↔ (any_of (λ saved. shares c saved) (stored s slot) ≡ false)
unfolding check_conflicts
check_conflicts_iff s slot c = (λ h. ground arith, λ h. ground arith)

stop_on_error-ok :
    (r : ConstraintStore × Result StoreError (Unit {0}))
    (rest : ConstraintStore → ConstraintStore × Result PbsClientError (Unit {0}))
    → (stop_on_error r rest).1 ≡ ok tt
    → r.1 ≡ ok tt
stop_on_error-ok (s, ok u) rest h = refl
stop_on_error-ok (s, err e) rest h = cc
stop_on_error-ok (s, panic) rest h = cc

stop_on_error_goes_on :
    (r : ConstraintStore × Result StoreError (Unit {0}))
    (rest : ConstraintStore → ConstraintStore × Result PbsClientError (Unit {0}))
    → r.1 ≡ ok tt
    → stop_on_error r rest ≡ rest r.0
stop_on_error_goes_on (s, ok u) rest h = refl
stop_on_error_goes_on (s, err e) rest h = cc
stop_on_error_goes_on (s, panic) rest h = cc

module _ (lib : PbsLib) (current_slot slot : ℕ)
    (timely : slot ≤ add_u64 current_slot (epoch_slots * 2)) where
  save_all_next :
      (s : ConstraintStore) (c : VerifiedConstraints) (cs : List VerifiedConstraints)
      → c.message.slot ≡ slot
      → save_all lib current_slot s (c ∷ cs)
        ≡ stop_on_error
            (add_constraints lib s slot c.message)
            (λ s'. save_all lib current_slot s' cs)
  unfolding save_all add_constraints
  save_all_next s c cs e =
      let soon : ltb (add_u64 current_slot (epoch_slots * 2)) c.message.slot ≡ false =
        ground arith in
      rw soon (
        ap
          (λ k.
            stop_on_error (add_constraints lib s k c.message)
              (λ s'. save_all lib current_slot s' cs))
          e)

  -- What the messages add to a slot that fits them.
  abbrev pub Fits :
      ConstraintStore → List VerifiedConstraints → List ConstraintsWithProofData → Type 0
  Fits s cs ds =
      (decode_all lib cs ≡ ok ds)
      × Apart (stored s slot ++ ds)
      × (length (stored s slot ++ ds) ≤ per_slot_max_constraints)

  abbrev pub ForSlot : VerifiedConstraints → Type 0
  ForSlot c = c.message.slot ≡ slot

  pub saved_only_if :
      (s : ConstraintStore) (cs : List VerifiedConstraints)
      → All ForSlot cs
      → Apart (stored s slot)
      → length (stored s slot) ≤ per_slot_max_constraints
      → (save_all lib current_slot s cs).1 ≡ ok tt
      → (ds : List ConstraintsWithProofData) × Fits s cs ds
        × (stored (save_all lib current_slot s cs).0 slot ≡ stored s slot ++ ds)
  unfolding save_all decode_all
  saved_only_if s [] h a l e = (
    [],
    (refl, rw (append-nil (stored s slot)) a, rw (append-nil (stored s slot)) l),
    sym (append-nil _),
  )
  saved_only_if s (c ∷ cs) (h, hs) a l e =
      let r = add_constraints lib s slot c.message in
      let next = save_all_next s c cs h in
      let first = stop_on_error-ok r _ (sym (ap (λ q. q.1) next) ∙ e) in
      let rest = next ∙ stop_on_error_goes_on r _ first in
      let (d, decoded, at) = stored-add_constraints lib s slot c.message first in
      let here : stored r.0 slot ≡ stored s slot ++ (d ∷ []) = at slot ∙ ground arith in
      let (conflicts, d', e', room) = (add_constraints_iff lib s slot c.message).0 first in
      let free = (check_conflicts_iff s slot c.message).0 conflicts in
      let same = message-try_from lib c.message d decoded in
      let fuller : length (stored s slot ++ (d ∷ [])) ≤ per_slot_max_constraints =
        omega (arith, length-append (stored s slot) (d ∷ [])) in
      let (ds, (all, apart, bound), kept) =
        saved_only_if r.0 cs hs
          (subst Apart (sym here) (
            Apart-append (stored s slot) d a (
              subst (λ m. any_of (λ saved. shares m saved) (stored s slot) ≡ false) (sym same)
                free)))
          (subst (λ l. length l ≤ per_slot_max_constraints) (sym here) fuller)
          (sym (ap (λ q. q.1) rest) ∙ e) in
      let grown : stored r.0 slot ++ ds ≡ stored s slot ++ (d ∷ ds) =
        ap (λ l. l ++ ds) here ∙ append_assoc (stored s slot) (d ∷ []) ds in
      (
        d ∷ ds,
        (
          rw (decoded, all) refl,
          subst Apart grown apart,
          subst (λ l. length l ≤ per_slot_max_constraints) grown bound,
        ),
        ap (λ q. stored q.0 slot) rest ∙ (kept ∙ grown),
      )

  pub saved_if :
      (s : ConstraintStore) (cs : List VerifiedConstraints) (ds : List ConstraintsWithProofData)
      → All ForSlot cs
      → Fits s cs ds
      → (save_all lib current_slot s cs).1 ≡ ok tt
  unfolding save_all decode_all
  saved_if s [] ds h f = refl
  saved_if s (c ∷ cs) ds (h, hs) (e, a, l) =
      let (d, decoded, next) = >>=-eq-ok (try_from lib c.message) _ e in
      let (rest, all, whole) = >>=-eq-ok (decode_all lib cs) _ next in
      let same = message-try_from lib c.message d decoded in
      let whole' : d ∷ rest ≡ ds = ground arith in
      let apart = subst (λ l. Apart (stored s slot ++ l)) (sym whole') a in
      let bound =
        subst (λ l. length (stored s slot ++ l) ≤ per_slot_max_constraints) (sym whole') l in
      let free =
        subst (λ m. any_of (λ saved. shares m saved) (stored s slot) ≡ false) same
          (Apart-prefix (stored s slot) d rest apart) in
      let room : length (stored s slot) < per_slot_max_constraints =
        omega (arith, length-append (stored s slot) (d ∷ rest)) in
      let r = add_constraints lib s slot c.message in
      let (first, at) =
        stored_if lib s slot c.message d ((check_conflicts_iff s slot c.message).1 free) decoded
          room in
      let here : stored r.0 slot ≡ stored s slot ++ (d ∷ []) = at slot ∙ ground arith in
      let grown : stored s slot ++ (d ∷ rest) ≡ stored r.0 slot ++ rest =
        sym (append_assoc (stored s slot) (d ∷ []) rest) ∙ ap (λ l. l ++ rest) (sym here) in
      ap (λ q. q.1) (save_all_next s c cs h ∙ stop_on_error_goes_on r _ first)
      ∙ saved_if r.0 cs rest hs (
        all,
        subst Apart grown apart,
        subst (λ l. length l ≤ per_slot_max_constraints) grown bound,
      )
