-- ===== src/Pbs/Routes.antt =====
-- The other routes of the PBS module (interstate-pbs-module/src/server.rs). What the relays, the beacon
-- node and the PBS library answer is an argument. A request that others interrupt is what its calls
-- of the store are, in Pbs/Store/Concurrent.
pub mod Runs
use proposer_commitment_netw.Base.{ℕ, Option, none, some, List, [], ◌∷◌, Result, ok, err, panic}
use proposer_commitment_netw.Pbs.Message.{PbsLib}
use proposer_commitment_netw.Pbs.Store.{ConstraintStore, remove_before_constraints}
use proposer_commitment_netw.Pbs.Server.{
  PbsClientError, VerifiedConstraints, Bid, Header, relay_post_request, submit_constraints,
  get_header_with_proofs,
}

-- `register_validator`: the old constraints go, then the library's function registers. It does
-- nothing if the beacon node does not give the slot.
unfoldable pub register_validator :
    Option ℕ
    → Result (Unit {0}) (Unit {0})
    → ConstraintStore
    → ConstraintStore × Result (Unit {0}) (Unit {0})
register_validator none registered s = (s, err tt)
register_validator (some slot) registered s = (remove_before_constraints s slot, registered)

-- The delegations are only passed on.
unfoldable pub delegate : List (Option ℕ) → Result PbsClientError (Unit {0})
unfolding relay_post_request
delegate answers = relay_post_request answers

unfoldable pub revoke : List (Option ℕ) → Result PbsClientError (Unit {0})
unfolding relay_post_request
revoke answers = relay_post_request answers
