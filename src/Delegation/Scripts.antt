-- ===== src/Delegation/Scripts.antt =====
-- The scripts (`main` of scripts/delegate-sidecar/src/main.rs and of
-- scripts/revoke-sidecar/src/main.rs), up to the request to the relay: its answer is only logged.
-- A value is the list of the requests' bodies.
use proposer_commitment_netw.Base.{
  Bool, true, false, Option, List, [], ◌∷◌, ◌++◌, Result, ok, err, panic, ◌>>=◌, ◌>>◌, ok_or,
  expect, bytes_eq, if◌then◌else◌,
}
use proposer_commitment_netw.Delegation.{
  Bytes, Chain, helder, Action, delegate, revoke, SignedMessage, DelegationError, invalid_hex,
  invalid_key, BlsLib, verify_message_signature,
}
use proposer_commitment_netw.Delegation.Keystores.{
  KeystoreSecret, SecretEntry, KeyEntry, Keystore, from_directory, generate_from_keystore,
}
use proposer_commitment_netw.Delegation.Web3Signer.{Web3Signer, generate_from_web3signer}

-- The environment variables, and the files and the signer that they point to.
pub record Env : Type 0 where
  pub signer_type : Option Bytes
  pub relay_url : Option Bytes
  pub delegatee_pubkey : Option Bytes
  pub out_file : Option Bytes
  pub keys_path : Option (Option (List (Option KeyEntry)))
  pub secrets_path : Option (Option (List (Option SecretEntry)))
  pub web3signer_url : Option Web3Signer
  pub from_json_file : Bytes → Option Keystore
  pub hex_decode : Bytes → Option Bytes
  -- whether a post to the relay is answered
  pub posted : List SignedMessage → Bool

-- `expect` and `unwrap` on a result.
abbrev pub unwrap_ok {ℓ} : {A : Type ℓ} → Result DelegationError A → Result DelegationError A
unwrap_ok (ok a) = ok a
unwrap_ok (err e) = panic
unwrap_ok panic = panic

abbrev pub keystores : Bytes
keystores = 75 ∷ 69 ∷ 89 ∷ 83 ∷ 84 ∷ 79 ∷ 82 ∷ 69 ∷ 83 ∷ []

abbrev pub web3signer : Bytes
web3signer = 87 ∷ 69 ∷ 66 ∷ 51 ∷ 83 ∷ 73 ∷ 71 ∷ 78 ∷ 69 ∷ 82 ∷ []

unfoldable pub strip_0x : Bytes → Bytes
strip_0x (c ∷ d ∷ cs) = if bytes_eq (c ∷ d ∷ []) (48 ∷ 120 ∷ []) then cs else c ∷ d ∷ cs
strip_0x cs = cs

module _ (lib : BlsLib) (env : Env) where
  unfoldable pub parse_bls_public_key : Bytes → Result DelegationError Bytes
  unfolding strip_0x
  parse_bls_public_key text = do
    key ← ok_or (env.hex_decode (strip_0x text)) invalid_hex
    if lib.parse_key key then ok key else err invalid_key

  unfoldable pub verify_all : List SignedMessage → Chain → Result DelegationError (Unit {0})
  unfolding verify_message_signature
  verify_all [] chain = ok tt
  verify_all (m ∷ ms) chain = do
    unwrap_ok (verify_message_signature lib m chain)
    verify_all ms chain

  abbrev pub post : List SignedMessage → Result DelegationError (List (List SignedMessage))
  post messages =
      if env.posted messages then ok (messages ∷ []) else err DelegationError.request_failed

  -- Sign with the keystores, verify, post.
  unfoldable pub with_keystores :
      Option (List (Option KeyEntry))
      → KeystoreSecret
      → Bytes
      → Action
      → Result DelegationError (List (List SignedMessage))
  unfolding verify_all
  with_keystores keys secret delegatee_pubkey action = do
    messages ←
        unwrap_ok
          (generate_from_keystore lib keys env.from_json_file secret delegatee_pubkey helder action)
    verify_all messages helder
    post messages

  abbrev pub is_type : Bytes → Bytes → Bool
  is_type signer_type name = bytes_eq signer_type name

  unfoldable pub delegate_keystores : Bytes → Result DelegationError (List (List SignedMessage))
  unfolding with_keystores
  delegate_keystores delegatee_pubkey = do
    keys ← expect env.keys_path
    password_dir ← expect env.secrets_path
    secret ← unwrap_ok (from_directory password_dir)
    with_keystores keys secret delegatee_pubkey delegate

  -- The messages of the remote signer are posted as they are.
  unfoldable pub delegate_web3signer : Bytes → Result DelegationError (List (List SignedMessage))
  delegate_web3signer delegatee_pubkey = do
    signer ← expect env.web3signer_url
    messages ← generate_from_web3signer lib signer delegatee_pubkey delegate
    post messages

  abbrev pub when :
      Bool
      → Result DelegationError (List (List SignedMessage))
      → Result DelegationError (List (List SignedMessage))
  when true r = r
  when false r = ok []

  unfoldable pub delegate_main : Result DelegationError (List (List SignedMessage))
  unfolding parse_bls_public_key delegate_keystores delegate_web3signer
  delegate_main = do
    signer_type ← expect env.signer_type
    relay_url ← expect env.relay_url
    text ← expect env.delegatee_pubkey
    delegatee_pubkey ← unwrap_ok (parse_bls_public_key text)
    out ← expect env.out_file
    first ← when (is_type signer_type keystores) (delegate_keystores delegatee_pubkey)
    second ← when (is_type signer_type web3signer) (delegate_web3signer delegatee_pubkey)
    ok (first ++ second)

  -- The remote signer's messages are verified before they are posted.
  unfoldable pub revoke_web3signer :
      Web3Signer → Bytes → Result DelegationError (List (List SignedMessage))
  unfolding verify_all
  revoke_web3signer signer delegatee_pubkey = do
    messages ← generate_from_web3signer lib signer delegatee_pubkey revoke
    verify_all messages helder
    post messages

  unfoldable pub revoke_main : Result DelegationError (List (List SignedMessage))
  unfolding parse_bls_public_key with_keystores revoke_web3signer
  revoke_main = do
    signer_type ← expect env.signer_type
    keys ← expect env.keys_path
    password_dir ← expect env.secrets_path
    out ← expect env.out_file
    relay_url ← expect env.relay_url
    signer ← expect env.web3signer_url
    text ← expect env.delegatee_pubkey
    delegatee_pubkey ← unwrap_ok (parse_bls_public_key text)
    secret ← unwrap_ok (from_directory password_dir)
    if is_type signer_type keystores
        then with_keystores keys secret delegatee_pubkey revoke
        else when (is_type signer_type web3signer) (revoke_web3signer signer delegatee_pubkey)
