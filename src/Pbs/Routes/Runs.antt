-- ===== src/Pbs/Routes/Runs.antt =====
-- What holds of two requests for a header (interstate-pbs-module/src/server.rs).
use proposer_commitment_netw.Base.{
  ℕ, ◌≡◌, ◌≢◌, refl, ap, ◌∙◌, inl, inr, Option-cases, Option, none, some, List, [], ◌∷◌, ==_of_ne,
  ==_refl,
}
use proposer_commitment_netw.Base.Assoc.{lookup, lookup-remove}
use proposer_commitment_netw.Pbs.Message.{PbsLib}
use proposer_commitment_netw.Pbs.Store.{ConstraintStore, remove_constraints}
use proposer_commitment_netw.Pbs.Server.{
  Bid, Header, choose_header, get_header_with_proofs, collect_bids, is_proven, max_by_value,
}

-- The headers of all answers, with their proofs unread.
abbrev pub headers_of : List (Option Bid) → List Header
headers_of [] = []
headers_of (none ∷ rs) = headers_of rs
headers_of (some bid ∷ rs) = bid.header ∷ headers_of rs

collect_bids-headers_of :
    (lib : PbsLib) (results : List (Option Bid))
    → collect_bids lib none results ≡ headers_of results
unfolding collect_bids is_proven
collect_bids-headers_of lib [] = refl
collect_bids-headers_of lib (none ∷ rs) = collect_bids-headers_of lib rs
collect_bids-headers_of lib (some bid ∷ rs) =
    ap (λ l. bid.header ∷ l) (collect_bids-headers_of lib rs)

removed-none :
    (s : ConstraintStore) (slot : ℕ) → lookup slot (remove_constraints s slot).0.cache ≡ none
unfolding remove_constraints lookup
removed-none s slot = elim (Option-cases (lookup slot s.cache)) [
  | inl e ↦ rw (e, remove_constraints) e
  | inr (c, e) ↦ rw (e, remove_constraints) (lookup-remove slot slot s.cache ∙ rw (==_refl) refl)
]

none-removed :
    (s : ConstraintStore) (slot : ℕ)
    → lookup slot s.cache ≡ none
    → remove_constraints s slot ≡ (s, none)
unfolding remove_constraints
none-removed s slot e = rw (e, remove_constraints) refl

-- A slot's constraints are checked once. If a second header is asked for the same slot in time and
-- nothing was submitted in between, the header of the largest value wins, whatever its proofs.
pub second_header_unproven :
    (lib : PbsLib) (s : ConstraintStore) (slot first_timeout timeout : ℕ)
    (first_results results : List (Option Bid))
    → first_timeout ≢ 0
    → timeout ≢ 0
    → let s' = (get_header_with_proofs lib first_timeout s slot first_results).0 in
      get_header_with_proofs lib timeout s' slot results ≡ (s', max_by_value (headers_of results))
unfolding get_header_with_proofs choose_header
second_header_unproven lib s slot first_timeout timeout first_results results f t =
    rw
      (
        ==_of_ne first_timeout 0 f,
        ==_of_ne timeout 0 t,
        none-removed (remove_constraints s slot).0 slot (removed-none s slot),
        collect_bids-headers_of lib results,
      )
      refl
