-- ===== src/State/Head.antt =====
-- The head updates of `ConstraintState` (interstate-gateway/src/state/mod.rs), with their retries.
use proposer_commitment_netw.Base.{
  ℕ, zero, suc, ◌/◌, Option, none, some, List, Result, ok, err, panic, ◌==◌, if◌then◌else◌,
}
use proposer_commitment_netw.Base.Assoc
use proposer_commitment_netw.Base.Words.{add_u64, mul_u64}
use proposer_commitment_netw.State.{
  StateError, failed_fetching_proposer_duties, max_retries_exceeded, timeout, ProposerDuty,
  ConstraintState, deadline,
}

-- What one request of the beacon header comes to; a header is its slot.
pub data Attempt : Type 0 where
  timed_out failed : Attempt
  header : ℕ → Attempt

abbrev pub max_retries : ℕ
max_retries = 5

abbrev pub slots_per_epoch : ℕ
slots_per_epoch = 32

abbrev pub header_of : Attempt → Result StateError ℕ → Result StateError ℕ
header_of timed_out rest = err timeout
header_of failed rest = rest
header_of (header slot) rest = ok slot

-- The loop of `get_beacon_header_with_retry` from its `n`th request on.
unfoldable pub header_loop : (ℕ → Attempt) → ℕ → ℕ → Result StateError ℕ
header_loop answer zero n = header_of (answer n) (err max_retries_exceeded)
header_loop answer (suc retries_remaining) n =
    header_of (answer n) (header_loop answer retries_remaining (suc n))

unfoldable pub get_beacon_header_with_retry : (ℕ → Attempt) → Result StateError ℕ
unfolding header_loop
get_beacon_header_with_retry answer = header_loop answer max_retries 0

abbrev pub duties_of :
    Option (List ProposerDuty)
    → Result StateError (List ProposerDuty)
    → Result StateError (List ProposerDuty)
duties_of none rest = rest
duties_of (some duties) rest = ok duties

-- The loop of `fetch_proposer_duties`.
unfoldable pub duties_loop :
    (ℕ → Option (List ProposerDuty)) → ℕ → ℕ → Result StateError (List ProposerDuty)
duties_loop answer zero n = duties_of (answer n) (err failed_fetching_proposer_duties)
duties_loop answer (suc retries) n = duties_of (answer n) (duties_loop answer retries (suc n))

abbrev pub with_duties :
    ConstraintState
    → Result StateError (List ProposerDuty)
    → ConstraintState × Result StateError (Unit {0})
with_duties st (ok duties) =
    (record st { current_epoch = record st.current_epoch { proposer_duties = duties } }, ok tt)
with_duties st (err e) = (st, err e)
with_duties st panic = (st, panic)

unfoldable pub fetch_proposer_duties :
    (ℕ → Option (List ProposerDuty))
    → ConstraintState
    → ConstraintState × Result StateError (Unit {0})
unfolding duties_loop
fetch_proposer_duties answer st = with_duties st (duties_loop answer max_retries 0)

-- `update_head` from the answer to the header's request on, at the time `now`.
unfoldable pub apply_header :
    (ℕ → Option (List ProposerDuty))
    → ConstraintState
    → ℕ
    → ℕ
    → Result StateError ℕ
    → ConstraintState × Result StateError (Unit {0})
apply_header duties st head now (err e) = (st, err e)
apply_header duties st head now panic = (st, panic)
apply_header duties st head now (ok slot) =
    let epoch = slot / slots_per_epoch in
    let st' : ConstraintState = record st {
      header = slot;
      latest_slot_timestamp = now;
      latest_slot = head;
      blocks = Assoc.remove slot st.blocks;
    } in
    let st'' : ConstraintState = record st' {
      current_epoch = record st'.current_epoch {
        value = epoch;
        start_slot = mul_u64 epoch slots_per_epoch;
      };
    } in
    if epoch == st.current_epoch.value then (st', ok tt) else fetch_proposer_duties duties st''

-- `started` is the time of the event, `now` that of the header's arrival.
unfoldable pub update_head :
    (ℕ → Attempt)
    → (ℕ → Option (List ProposerDuty))
    → ℕ
    → ℕ
    → ConstraintState
    → ℕ
    → ConstraintState × Result StateError (Unit {0})
unfolding apply_header
update_head headers duties started now st head =
    let st' : ConstraintState = record st {
      commitment_deadline = deadline (add_u64 head 1) st.deadline_duration started;
    } in
    apply_header duties st' head now (get_beacon_header_with_retry headers)
