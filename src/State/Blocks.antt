-- ===== src/State/Blocks.antt =====
-- The blocks and the deadline of `ConstraintState` (interstate-gateway/src/state/mod.rs).
use proposer_commitment_netw.Base.{
  Option, Result, err, panic, ℕ, ◌+◌, ◌≤◌, ◌<◌, ◌≡◌, refl, ap, inl, inr, Bool-cases, true, false,
  none, some, ok, ◌==◌, if◌then◌else◌, leb, length, arith,
}
use proposer_commitment_netw.Base.Assoc.{lookup, lookup-insert}
use proposer_commitment_netw.Tx.{TxLib}
use proposer_commitment_netw.Request.{PreconfRequest}
use proposer_commitment_netw.Constraints.{SignedConstraints}
use proposer_commitment_netw.State.{
  ConstraintState, StateError, Block, block_or_default, transactions_count, block_at,
  add_constraint, add_constraints, deadline, poll, wait, ready, pending, poll_sleep,
}
use proposer_commitment_netw.State.Checks.{
  check, has_room, verify, answer, validate_preconf_request,
}
use proposer_commitment_netw.Tx.Fees.{AccountState}
use proposer_commitment_netw.Pricing.{F64}
use proposer_commitment_netw.Errors.{ValidationError}

-- Adding a constraint puts it at the end of the block of its slot, and leaves the other slots.
pub add_constraint_lem :
    (st : ConstraintState) (slot other : ℕ) (c : SignedConstraints)
    → block_at (add_constraint st slot c).blocks other ≡ (
        if slot == other
        then add_constraints c (block_at st.blocks slot)
        else block_at st.blocks other)
unfolding add_constraint
add_constraint_lem st slot other c = elim (Bool-cases (slot == other)) [
  | inl e ↦ rw (lookup-insert slot other _ st.blocks, e) refl
  | inr e ↦ rw (lookup-insert slot other _ st.blocks, e) refl
]

-- A new deadline is pending until its duration is over; a wait after that gives its slot, and the
-- next wait, at any time, gives none.
pub wait_once :
    (slot duration start now later : ℕ)
    → let d = deadline slot duration start in
      (now < start + duration → wait d now ≡ (d, pending))
      × (start + duration ≤ now
          → ((wait d now).1 ≡ ready (some slot)) × ((wait (wait d now).0 later).1 ≡ ready none))
unfolding deadline wait poll poll_sleep
wait_once slot duration start now later = (
  λ h. let e : leb (start + duration) now ≡ false = ground arith in rw (e) refl,
  λ h. let e : leb (start + duration) now ≡ true = ground arith in rw (e) (refl, refl),
)

room_for :
    (o : Option Block) (more limit : ℕ)
    → more < limit
    → has_room o more limit ≡ true
    → length (block_or_default o).signed_constraints_list + more < limit
unfolding transactions_count
room_for none more limit small h = omega arith
room_for (some b) more limit small h = ground arith

-- A request that passes the checks leaves its slot's block below the limit of commitments, if its
-- transactions are added once.
pub check-room :
    (lib : TxLib) (st : ConstraintState) (request : PreconfRequest) (now key : ℕ)
    → check lib st request now ≡ ok key
    → length (block_at st.blocks request.slot).signed_constraints_list + length request.txs
      < st.max_commitments_in_block
unfolding check
check-room lib st request now key h =
    room_for (lookup request.slot st.blocks) (length request.txs) st.max_commitments_in_block
      (ground arith) (ground arith)

module _ (lib : TxLib) (f : F64) (fetch : ℕ → Option AccountState) where
  answer-ok :
      (public_key key : ℕ) (r : Result ValidationError (Unit {0}))
      → answer lib public_key r ≡ ok key
      → public_key ≡ key
  answer-ok public_key key (ok u) h = cc
  answer-ok public_key key (err e) h = cc
  answer-ok public_key key panic h = cc

  verified :
      (st : ConstraintState) (request : PreconfRequest) (r : Result StateError ℕ) (key : ℕ)
      → (verify lib f fetch st request r).1 ≡ ok key
      → r ≡ ok key
  verified st request (ok public_key) key h = ap ok (answer-ok public_key key _ h)
  verified st request (err e) key h = cc
  verified st request panic key h = cc

  pub validated-check :
      (st : ConstraintState) (request : PreconfRequest) (now key : ℕ)
      → (validate_preconf_request lib f fetch st request now).1 ≡ ok key
      → check lib st request now ≡ ok key
  unfolding validate_preconf_request
  validated-check st request now key h = verified st request (check lib st request now) key h
