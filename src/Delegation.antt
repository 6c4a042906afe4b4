-- ===== src/Delegation.antt =====
-- Delegations and revocations (scripts/delegate-sidecar/src/main.rs and
-- scripts/revoke-sidecar/src/main.rs, which hold copies of the same functions;
-- interstate-gateway/delegate-only-sidecar/src): the messages, their digests, the signing root and
-- its verification. Keys, signatures and texts are lists of bytes; SHA-256, SSZ and BLS are
-- `BlsLib`.
pub mod Keystores
pub mod Web3Signer
pub mod Signers
pub mod Scripts
pub mod Sidecar
pub mod Verified
use proposer_commitment_netw.Base.{
  ℕ, Bool, true, false, Option, none, some, List, [], ◌∷◌, ◌++◌, Result, ok, err, panic, ◌>>=◌,
  ◌>>◌, ensure, ok_or, take, ◌==◌, if◌then◌else◌,
}

abbrev pub Bytes : Type 0
Bytes = List ℕ

pub data Chain : Type 0 where
  mainnet holesky helder kurtosis : Chain

unfoldable pub fork_version : Chain → Bytes
fork_version mainnet = 0 ∷ 0 ∷ 0 ∷ 0 ∷ []
fork_version holesky = 1 ∷ 1 ∷ 112 ∷ 0 ∷ []
fork_version helder = 16 ∷ 0 ∷ 0 ∷ 0 ∷ []
fork_version kurtosis = 16 ∷ 0 ∷ 0 ∷ 56 ∷ []

unfoldable pub from_id : ℕ → Option Chain
from_id id =
    if id == 1
    then some mainnet
    else if id == 17_000
    then some holesky
    else if id == 3_151_908
    then some kurtosis
    else if id == 7_014_190_335
    then some helder
    else none

pub data Action : Type 0 where
  delegate revoke : Action

pub record DelegationMessage : Type 0 where
  pub action : ℕ
  pub validator_pubkey : Bytes
  pub delegatee_pubkey : Bytes

pub record RevocationMessage : Type 0 where
  pub action : ℕ
  pub validator_pubkey : Bytes
  pub delegatee_pubkey : Bytes

pub record SignedDelegation : Type 0 where
  pub message : DelegationMessage
  pub signature : Bytes

pub record SignedRevocation : Type 0 where
  pub message : RevocationMessage
  pub signature : Bytes

pub data SignedMessage : Type 0 where
  delegation : SignedDelegation → SignedMessage
  revocation : SignedRevocation → SignedMessage

-- `SignedMessageAction`, as its byte
abbrev pub delegation_action : ℕ
delegation_action = 0

abbrev pub revocation_action : ℕ
revocation_action = 1

unfoldable pub new_delegation : Bytes → Bytes → DelegationMessage
new_delegation validator_pubkey delegatee_pubkey = record {
  action = delegation_action;
  validator_pubkey = validator_pubkey;
  delegatee_pubkey = delegatee_pubkey;
}

unfoldable pub new_revocation : Bytes → Bytes → RevocationMessage
new_revocation validator_pubkey delegatee_pubkey = record {
  action = revocation_action;
  validator_pubkey = validator_pubkey;
  delegatee_pubkey = delegatee_pubkey;
}

pub data DelegationError : Type 0 where
  read_directory eth2_keystore missing_password invalid_key invalid_signature signing_root_failed
        bls_verification_failed invalid_hex request_failed :
      DelegationError

-- The libraries: SHA-256, SSZ roots and BLS. `parse_signature` and `parse_key` are the checks of the
-- consensus library, `reads_signature` and `reads_key` those of blst; the bytes stay the same.
pub record BlsLib : Type 0 where
  pub sha256 : Bytes → Bytes
  pub fork_data_root : Bytes → Bytes
  pub signing_root : Bytes → Bytes → Option Bytes
  pub sign : ℕ → Bytes → Bytes
  pub verify : Bytes → Bytes → Bytes → Bool
  pub parse_signature : Bytes → Bool
  pub parse_key : Bytes → Bool
  pub reads_signature : Bytes → Bool
  pub reads_key : Bytes → Bool

abbrev pub delegation_preimage : DelegationMessage → Bytes
delegation_preimage m = m.action ∷ m.validator_pubkey ++ m.delegatee_pubkey

abbrev pub revocation_preimage : RevocationMessage → Bytes
revocation_preimage m = m.action ∷ m.validator_pubkey ++ m.delegatee_pubkey

abbrev pub commit_boost_domain_mask : Bytes
commit_boost_domain_mask = 109 ∷ 109 ∷ 111 ∷ 67 ∷ []

module _ (lib : BlsLib) where
  unfoldable pub delegation_digest : DelegationMessage → Bytes
  delegation_digest m = lib.sha256 (delegation_preimage m)

  unfoldable pub revocation_digest : RevocationMessage → Bytes
  revocation_digest m = lib.sha256 (revocation_preimage m)

  unfoldable pub compute_domain_from_mask : Bytes → Bytes
  compute_domain_from_mask version =
      commit_boost_domain_mask ++ take 28 (lib.fork_data_root version)

  unfoldable pub compute_commit_boost_signing_root : Bytes → Chain → Result DelegationError Bytes
  unfolding compute_domain_from_mask
  compute_commit_boost_signing_root message chain =
      ok_or (lib.signing_root message (compute_domain_from_mask (fork_version chain)))
        signing_root_failed

  abbrev pub unwrapped : Bool → Result DelegationError (Unit {0})
  unwrapped true = ok tt
  unwrapped false = panic

  unfoldable pub verify_root : Bytes → Bytes → Bytes → Bytes → Result DelegationError (Unit {0})
  verify_root pubkey root signature domain = do
    signing_root ← ok_or (lib.signing_root root domain) signing_root_failed
    unwrapped (lib.reads_key pubkey)
    ensure (lib.verify pubkey signing_root signature) bls_verification_failed

  unfoldable pub verify_commit_boost_root :
      Bytes → Bytes → Bytes → Chain → Result DelegationError (Unit {0})
  unfolding verify_root compute_domain_from_mask
  verify_commit_boost_root pubkey root signature chain =
      verify_root pubkey root signature (compute_domain_from_mask (fork_version chain))

  unfoldable pub verify_message_signature :
      SignedMessage → Chain → Result DelegationError (Unit {0})
  unfolding verify_commit_boost_root delegation_digest revocation_digest
  verify_message_signature (delegation d) chain = do
    ensure (lib.reads_signature d.signature) invalid_signature
    verify_commit_boost_root d.message.validator_pubkey (delegation_digest d.message) d.signature
        chain
  verify_message_signature (revocation r) chain = do
    ensure (lib.reads_signature r.signature) invalid_signature
    verify_commit_boost_root r.message.validator_pubkey (revocation_digest r.message) r.signature
        chain
