-- ===== src/Delegation/Sidecar.antt =====
-- The delegate-only sidecar (interstate-gateway/delegate-only-sidecar/src/main.rs), whose other files
-- are copies of the scripts' functions. It signs for the Kurtosis chain. A value is the body that is
-- posted to the relay, whose answer is only logged.
pub mod Posted
use proposer_commitment_netw.Base.{
  Bool, Option, List, Result, ok, err, panic, ◌>>=◌, ◌>>◌, expect, if◌then◌else◌,
}
use proposer_commitment_netw.Delegation.{
  Bytes, kurtosis, delegate, SignedMessage, DelegationError, request_failed, BlsLib,
}
use proposer_commitment_netw.Delegation.Keystores.{
  SecretEntry, KeyEntry, Keystore, from_directory, generate_from_keystore,
}
use proposer_commitment_netw.Delegation.Scripts.{unwrap_ok}
use proposer_commitment_netw.Delegation.Scripts

-- The environment variables, with the files that they name.
pub record SidecarEnv : Type 0 where
  pub keys_path : Option (Option (List (Option KeyEntry)))
  pub secrets_path : Option (Option (List (Option SecretEntry)))
  pub out_file : Option Bytes
  pub out_file_web3 : Option Bytes
  pub relay_url : Option Bytes
  pub web3signer_url : Option Bytes
  pub delegatee_pubkey : Option Bytes
  pub from_json_file : Bytes → Option Keystore
  pub hex_decode : Bytes → Option Bytes
  -- whether the post is answered
  pub posted : List SignedMessage → Bool

-- The part of the environment that the functions shared with the scripts read.
abbrev pub scripts_env : SidecarEnv → Scripts.Env
scripts_env env = record {
  signer_type = Option.none;
  relay_url = env.relay_url;
  delegatee_pubkey = env.delegatee_pubkey;
  out_file = env.out_file;
  keys_path = env.keys_path;
  secrets_path = env.secrets_path;
  web3signer_url = Option.none;
  from_json_file = env.from_json_file;
  hex_decode = env.hex_decode;
  posted = env.posted;
}

module _ (lib : BlsLib) (env : SidecarEnv) where
  unfoldable pub sidecar_main : Result DelegationError (List SignedMessage)
  unfolding Scripts.parse_bls_public_key Scripts.verify_all
  sidecar_main = do
    keys ← expect env.keys_path
    password_dir ← expect env.secrets_path
    out ← expect env.out_file
    out_web3 ← expect env.out_file_web3
    relay_url ← expect env.relay_url
    web3signer_url ← expect env.web3signer_url
    text ← expect env.delegatee_pubkey
    delegatee_pubkey ← unwrap_ok (Scripts.parse_bls_public_key lib (scripts_env env) text)
    secret ← unwrap_ok (from_directory password_dir)
    messages ← unwrap_ok (
        generate_from_keystore lib keys env.from_json_file secret delegatee_pubkey kurtosis
          delegate)
    Scripts.verify_all lib (scripts_env env) messages kurtosis
    if env.posted messages then ok messages else err request_failed
