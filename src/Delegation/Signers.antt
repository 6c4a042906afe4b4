-- ===== src/Delegation/Signers.antt =====
-- The remote signers of the gateway (interstate-gateway/src/delegation/web3signer.rs, cb_signer.rs,
-- mod.rs and types.rs; the delegate-only sidecar has the same web3signer.rs). What a server answers is
-- an argument, `none` if there is no answer that can be read. The TLS credentials are not used.
pub mod Revocations
use proposer_commitment_netw.Base.{
  ℕ, Option, none, some, List, [], ◌∷◌, ◌++◌, map, Result, ok, ◌>>=◌, ◌>>◌, ensure, ok_or, ◌==◌,
  if◌then◌else◌,
}
use proposer_commitment_netw.Delegation.{
  Bytes, Chain, from_id, Action, delegate, revoke, SignedMessage, SignedDelegation, delegation,
  revocation, DelegationError, invalid_signature, request_failed, invalid_hex, read_directory,
  BlsLib, new_delegation, new_revocation, delegation_digest, revocation_digest,
}
use proposer_commitment_netw.Delegation.Web3Signer
use proposer_commitment_netw.Delegation.Web3Signer.{
  Web3Signer, trim_hex_prefix, prefixed, key_of, signature_of,
}

abbrev pub slash : ℕ
slash = 47

unfoldable pub trim_start_slashes : Bytes → Bytes
trim_start_slashes [] = []
trim_start_slashes (c ∷ cs) = if c == slash then trim_start_slashes cs else c ∷ cs

abbrev pub keep_unless_end : ℕ → Bytes → Bytes
keep_unless_end c [] = if c == slash then [] else c ∷ []
keep_unless_end c (d ∷ ds) = c ∷ d ∷ ds

unfoldable pub trim_end_slashes : Bytes → Bytes
trim_end_slashes [] = []
trim_end_slashes (c ∷ cs) = keep_unless_end c (trim_end_slashes cs)

-- `CBSigner::full_url`
unfoldable pub full_url : Bytes → Bytes → Bytes
unfolding trim_start_slashes trim_end_slashes
full_url base_url endpoint = trim_end_slashes base_url ++ (slash ∷ trim_start_slashes endpoint)

-- The keys of the signer's response; those of its proxies are not read.
pub record Keys : Type 0 where
  pub consensus : Bytes
  pub proxy_bls : List Bytes
  pub proxy_ecdsa : List Bytes

unfoldable pub list_accounts : Option (List Keys) → Result DelegationError (List Bytes)
list_accounts response = do
  keys ← ok_or response request_failed
  ok (map (λ (k : Keys). k.consensus) keys)

pub record SignatureRequest : Type 0 where
  pub type : Bytes
  pub pubkey : Bytes
  pub object_root : Bytes

abbrev pub consensus_type : Bytes
consensus_type = 99 ∷ 111 ∷ 110 ∷ 115 ∷ 101 ∷ 110 ∷ 115 ∷ 117 ∷ 115 ∷ []

-- `post` is what the signer answers to a body.
unfoldable pub request_signature : (SignatureRequest → Option Bytes) → Bytes → Bytes → Option Bytes
request_signature post pub_key object_root =
    post (record { type = consensus_type; pubkey = pub_key; object_root = object_root })

-- `load_signed_delegations`: the file's text, and its JSON.
unfoldable pub load_signed_delegations :
    Option Bytes
    → (Bytes → Option (List SignedDelegation))
    → Result DelegationError (List SignedDelegation)
load_signed_delegations file from_json = do
  content ← ok_or file read_directory
  ok_or (from_json content) invalid_hex

-- The errors are texts in the code.
unfoldable pub try_from_id : ℕ → Result DelegationError Chain
try_from_id id = ok_or (from_id id) request_failed

unfoldable pub try_from_provider : Option ℕ → Result DelegationError Chain
unfolding try_from_id
try_from_provider provider = do id ← ok_or provider request_failed; try_from_id id

module _ (lib : BlsLib) (signer : Web3Signer) where
  -- A revocation's signature is taken from the text as it is, not from what it encodes.
  unfoldable pub undecoded_signature : Bytes → Bytes → Result DelegationError Bytes
  undecoded_signature account digest = do
    returned ←
        ok_or (signer.request_signature account (prefixed (signer.hex_encode digest)))
          request_failed
    trimmed ← trim_hex_prefix returned
    ensure (lib.parse_signature trimmed) invalid_signature
    ok trimmed

  unfoldable pub sign_account :
      Bytes → Action → Bytes → Bytes → Result DelegationError SignedMessage
  unfolding signature_of undecoded_signature delegation_digest revocation_digest
  sign_account delegatee_pubkey delegate account pubkey =
      let message = new_delegation pubkey delegatee_pubkey in
      do
        signature ← signature_of lib signer account (delegation_digest lib message)
        ok (delegation (record { message = message; signature = signature }))
  sign_account delegatee_pubkey revoke account pubkey =
      let message = new_revocation pubkey delegatee_pubkey in
      do
        signature ← undecoded_signature account (revocation_digest lib message)
        ok (revocation (record { message = message; signature = signature }))

  unfoldable pub sign_accounts :
      Bytes → Action → List Bytes → Result DelegationError (List SignedMessage)
  unfolding key_of sign_account
  sign_accounts delegatee_pubkey action [] = ok []
  sign_accounts delegatee_pubkey action (account ∷ accounts) = do
    pubkey ← key_of lib signer account
    signed ← sign_account delegatee_pubkey action account pubkey
    rest ← sign_accounts delegatee_pubkey action accounts
    ok (signed ∷ rest)

  -- `generate_from_web3signer`, with a signer that is connected.
  unfoldable pub generate : Bytes → Action → Result DelegationError (List SignedMessage)
  unfolding sign_accounts
  generate delegatee_pubkey action = do
    accounts ← ok_or signer.list_accounts request_failed
    sign_accounts delegatee_pubkey action accounts
