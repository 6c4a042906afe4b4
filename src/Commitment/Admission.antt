-- ===== src/Commitment/Admission.antt =====
-- Which requests reach the event loop (interstate-gateway/src/commitment/request.rs).
use proposer_commitment_netw.Base.{
  ℕ, ◌≡◌, refl, ◌↔◌, true, Option, some, List, [], ◌∷◌, ok, All, all_of, ==_refl, inl, inr,
  Result-cases, arith,
}
use proposer_commitment_netw.Tx.{TxLib, Constraint, validate}
use proposer_commitment_netw.Request.{PreconfRequest}
use proposer_commitment_netw.Digest.{request_digest}
use proposer_commitment_netw.Commitment.{EventLoop, check_request, handle_commitment_request}

-- The transaction was signed by the sender.
abbrev pub SignedBy : TxLib → ℕ → Constraint → Type 0
SignedBy lib sender c = lib.recover_signer c.tx ≡ some sender

validate_iff :
    (lib : TxLib) (c : Constraint) (sender : ℕ)
    → (validate lib c sender ≡ true) ↔ SignedBy lib sender c
unfolding validate
validate_iff lib c sender = (λ h. ground arith, λ h. ground arith)

validate_each :
    (lib : TxLib) (sender : ℕ) (cs : List Constraint)
    → (all_of (λ tx. validate lib tx sender) cs ≡ true) ↔ All (SignedBy lib sender) cs
validate_each lib sender [] = (λ h. tt, λ h. refl)
validate_each lib sender (c ∷ cs) = (
  λ h. (
    (validate_iff lib c sender).0 (ground arith),
    (validate_each lib sender cs).0 (ground arith),
  ),
  λ (h, hs). rw ((validate_iff lib c sender).1 h, (validate_each lib sender cs).1 hs) refl,
)

module _ (lib : TxLib) (keccak256 : List ℕ → ℕ) (recover : ℕ → ℕ → Option ℕ) (loop : EventLoop)
    (request : PreconfRequest) where
  check_request_iff : (check_request lib keccak256 recover request ≡ ok tt) ↔ (
      (recover request.signature (request_digest lib keccak256 request) ≡ some request.sender)
      × All (SignedBy lib request.sender) request.txs)
  unfolding check_request
  check_request_iff = (
    λ h. (ground arith, (validate_each lib request.sender request.txs).0 (ground arith)),
    λ (s, a).
        rw (s, ==_refl request.sender, (validate_each lib request.sender request.txs).1 a) refl,
  )

  -- A request reaches the event loop exactly when the sender has signed its digest and each of its
  -- transactions, and the channel has room.
  pub handle_commitment_request_iff :
      ((handle_commitment_request lib keccak256 recover loop request).0 ≡ some request) ↔ (
        (recover request.signature (request_digest lib keccak256 request) ≡ some request.sender)
        × All (SignedBy lib request.sender) request.txs
        × (loop.has_room ≡ true))
  unfolding handle_commitment_request
  handle_commitment_request_iff = (
    λ h. elim (Result-cases (check_request lib keccak256 recover request)) [
      | inl (u, c) ↦ let (s, a) = check_request_iff.0 c in (s, a, ground arith)
      | inr (inl (e, c)) ↦ absurd (ground arith)
      | inr (inr c) ↦ absurd (ground arith)
    ],
    λ (s, a, r). rw (check_request_iff.1 (s, a), r) refl,
  )
