-- ===== src/Delegation/Web3Signer.antt =====
-- Messages signed by a remote signer (scripts/revoke-sidecar/src/main.rs). Its answers are arguments;
-- hex texts are decoded and encoded by a library.
use proposer_commitment_netw.Base.{
  Option, List, [], ◌∷◌, Result, ok, err, ◌>>=◌, ◌>>◌, ensure, ok_or,
}
use proposer_commitment_netw.Delegation.{
  Bytes, Action, delegate, revoke, SignedMessage, delegation, revocation, DelegationError,
  invalid_key, invalid_signature, invalid_hex, request_failed, BlsLib, new_delegation,
  new_revocation, delegation_digest, revocation_digest,
}

-- `list_accounts` and `request_signature` of the signer, and the hex library.
pub record Web3Signer : Type 0 where
  pub list_accounts : Option (List Bytes)
  pub request_signature : Bytes → Bytes → Option Bytes
  pub hex_decode : Bytes → Option Bytes
  pub hex_encode : Bytes → Bytes

-- `hex.get(2..)`, on ASCII text
unfoldable pub trim_hex_prefix : Bytes → Result DelegationError Bytes
trim_hex_prefix [] = err invalid_hex
trim_hex_prefix (c ∷ []) = err invalid_hex
trim_hex_prefix (c ∷ d ∷ cs) = ok cs

-- The text with `0x` in front.
abbrev pub prefixed : Bytes → Bytes
prefixed hex = 48 ∷ 120 ∷ hex

module _ (lib : BlsLib) (signer : Web3Signer) where
  unfoldable pub key_of : Bytes → Result DelegationError Bytes
  unfolding trim_hex_prefix
  key_of account = do
    trimmed ← trim_hex_prefix account
    pubkey ← ok_or (signer.hex_decode trimmed) invalid_hex
    ensure (lib.parse_key pubkey) invalid_key
    ok pubkey

  unfoldable pub signature_of : Bytes → Bytes → Result DelegationError Bytes
  unfolding trim_hex_prefix
  signature_of account digest = do
    returned ←
        ok_or (signer.request_signature account (prefixed (signer.hex_encode digest)))
          request_failed
    trimmed ← trim_hex_prefix returned
    signature ← ok_or (signer.hex_decode trimmed) invalid_hex
    ensure (lib.parse_signature signature) invalid_signature
    ok signature

  unfoldable pub sign_account :
      Bytes → Action → Bytes → Bytes → Result DelegationError SignedMessage
  unfolding signature_of delegation_digest revocation_digest
  sign_account delegatee_pubkey delegate account pubkey =
      let message = new_delegation pubkey delegatee_pubkey in
      do
        signature ← signature_of account (delegation_digest lib message)
        ok (delegation (record { message = message; signature = signature }))
  sign_account delegatee_pubkey revoke account pubkey =
      let message = new_revocation pubkey delegatee_pubkey in
      do
        signature ← signature_of account (revocation_digest lib message)
        ok (revocation (record { message = message; signature = signature }))

  unfoldable pub sign_accounts :
      Bytes → Action → List Bytes → Result DelegationError (List SignedMessage)
  unfolding key_of sign_account
  sign_accounts delegatee_pubkey action [] = ok []
  sign_accounts delegatee_pubkey action (account ∷ accounts) = do
    pubkey ← key_of account
    signed ← sign_account delegatee_pubkey action account pubkey
    rest ← sign_accounts delegatee_pubkey action accounts
    ok (signed ∷ rest)

  unfoldable pub generate_from_web3signer :
      Bytes → Action → Result DelegationError (List SignedMessage)
  unfolding sign_accounts
  generate_from_web3signer delegatee_pubkey action = do
    accounts ← ok_or signer.list_accounts request_failed
    sign_accounts delegatee_pubkey action accounts
