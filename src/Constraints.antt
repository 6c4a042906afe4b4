-- ===== src/Constraints.antt =====
-- Signed constraints (interstate-gateway/src/constraints/mod.rs; builder/constraint.rs declares the
-- same shapes over its own transaction type). SHA-256 and the byte forms are parameters.
pub mod Texts
use proposer_commitment_netw.Base.{ℕ, Bool, false, List, [], ◌∷◌}
use proposer_commitment_netw.Tx.{Constraint}
use proposer_commitment_netw.Request.{PreconfRequest}

pub record ConstraintsMessage : Type 0 where
  pub pubkey : ℕ
  pub slot : ℕ
  pub top : Bool
  pub transactions : List Constraint

pub record SignedConstraints : Type 0 where
  pub message : ConstraintsMessage
  pub signature : ℕ

unfoldable pub build : ℕ → PreconfRequest → ConstraintsMessage
build validator_pubkey request = record {
  pubkey = validator_pubkey;
  slot = request.slot;
  top = false;
  transactions = request.txs;
}

unfoldable pub from_tx : ℕ → ℕ → Constraint → ConstraintsMessage
from_tx validator_pubkey slot constraint = record {
  pubkey = validator_pubkey;
  slot = slot;
  top = false;
  transactions = constraint ∷ [];
}
