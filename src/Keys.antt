-- ===== src/Keys.antt =====
-- The gateway's keys (`Keystores` of interstate-gateway/src/keystores/mod.rs), and the signing of
-- builder messages (interstate-gateway/src/constraints/signature.rs). The directories are as in `Delegation.Keystores`.
pub mod Signed
use proposer_commitment_netw.Base.{
  ℕ, Bool, true, false, Option, none, some, List, [], ◌∷◌, ◌++◌, map, Result, ok, err, panic, ◌>>=◌,
  ◌>>◌, ensure, ok_or, expect, bytes_eq, if◌then◌else◌,
}
use proposer_commitment_netw.Config.{ChainConfig, commit_boost_domain}
use proposer_commitment_netw.Delegation.{Bytes, DelegationError}
use proposer_commitment_netw.Delegation.Keystores.{KeyEntry, Keypair, Keystore, keystore_paths}

pub record Keystores : Type 0 where
  pub keypairs : List Keypair
  pub chain : ChainConfig

pub data KeystoreError : Type 0 where
  unknown_public_key signature_length : KeystoreError

-- The libraries: the signing root of a root in a domain, and BLS.
pub record SignLib : Type 0 where
  pub fork_data_root : Bytes → Bytes
  pub compute_signing_root : Bytes → Bytes → Bytes
  pub sign : ℕ → Bytes → Bytes
  pub verify : Bytes → Bytes → Bytes → Bool
  -- a signature has its 96 bytes
  pub is_signature : Bytes → Bool

-- The secret of a keystore is in the file named by its key.
abbrev pub secret_name : Keystore → Bytes
secret_name keystore = 48 ∷ 120 ∷ keystore.pubkey

abbrev pub unwrap_paths : Result DelegationError (List Bytes) → Result KeystoreError (List Bytes)
unwrap_paths (ok paths) = ok paths
unwrap_paths (err e) = panic
unwrap_paths panic = panic

unfoldable pub load_pairs :
    (Bytes → Option Keystore)
    → (Bytes → Option Bytes)
    → List Bytes
    → Result KeystoreError (List Keypair)
load_pairs from_json_file read_secret [] = ok []
load_pairs from_json_file read_secret (path ∷ paths) = do
  keystore ← expect (from_json_file path)
  password ← expect (read_secret (secret_name keystore))
  keypair ← expect (keystore.decrypt_keypair password)
  rest ← load_pairs from_json_file read_secret paths
  ok (keypair ∷ rest)

-- Every failure is a panic.
unfoldable pub new :
    Option (List (Option KeyEntry))
    → (Bytes → Option Keystore)
    → (Bytes → Option Bytes)
    → ChainConfig
    → Result KeystoreError Keystores
unfolding load_pairs
new pubkeys_root from_json_file read_secret chain = do
  paths ← unwrap_paths (keystore_paths pubkeys_root)
  keypairs ← load_pairs from_json_file read_secret paths
  ok (record { keypairs = keypairs; chain = chain })

unfoldable pub get_pubkeys : Keystores → List Bytes
get_pubkeys k = map (λ kp. kp.pk) k.keypairs

unfoldable pub find_pair : Bytes → List Keypair → Option Keypair
find_pair public_key [] = none
find_pair public_key (kp ∷ rest) =
    if bytes_eq kp.pk public_key then some kp else find_pair public_key rest

module _ (lib : SignLib) where
  unfoldable pub sign_root : Keystores → Bytes → Bytes → Bytes → Result KeystoreError Bytes
  unfolding find_pair
  sign_root k root public_key domain = do
    kp ← ok_or (find_pair public_key k.keypairs) unknown_public_key
    ensure (lib.is_signature (lib.sign kp.sk (lib.compute_signing_root root domain)))
        signature_length
    ok (lib.sign kp.sk (lib.compute_signing_root root domain))

  unfoldable pub sign_commit_boost_root : Keystores → Bytes → Bytes → Result KeystoreError Bytes
  unfolding sign_root
  sign_commit_boost_root k root public_key =
      sign_root k root public_key (commit_boost_domain lib.fork_data_root k.chain)
