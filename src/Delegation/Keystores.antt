-- ===== src/Delegation/Keystores.antt =====
-- Keystores on disk (scripts/delegate-sidecar/src/main.rs). A directory is what reading it gives:
-- `none` for a failure, of the whole or of an entry.
use proposer_commitment_netw.Base.{
  ℕ, Bool, false, ◌&&◌, Option, none, some, List, [], ◌∷◌, ◌++◌, Result, ok, ◌>>=◌, ◌>>◌, ensure,
  ok_or, bytes_eq, ◌==◌, if◌then◌else◌,
}
use proposer_commitment_netw.Delegation.{
  Bytes, Chain, Action, delegate, revoke, SignedMessage, delegation, revocation, DelegationError,
  read_directory, eth2_keystore, missing_password, invalid_key, invalid_signature, BlsLib,
  new_delegation, new_revocation, delegation_digest, revocation_digest,
  compute_commit_boost_signing_root,
}

-- `trim_start_matches("0x")`
unfoldable pub trim_start_0x : Bytes → Bytes
trim_start_0x (c ∷ d ∷ cs) =
    let rest = trim_start_0x cs in if c == 48 && d == 120 then rest else c ∷ d ∷ cs
trim_start_0x cs = cs

-- `directory` has the last secret of a name first.
pub data KeystoreSecret : Type 0 where
  unique : Bytes → KeystoreSecret
  directory : List (Bytes × Bytes) → KeystoreSecret

unfoldable pub find_secret : Bytes → List (Bytes × Bytes) → Option Bytes
find_secret name [] = none
find_secret name ((n, secret) ∷ rest) =
    if bytes_eq name n then some secret else find_secret name rest

-- `KeystoreSecret::get`
unfoldable pub get : KeystoreSecret → Bytes → Option Bytes
unfolding find_secret
get (unique password) validator_pubkey = some password
get (directory secrets) validator_pubkey = find_secret validator_pubkey secrets

-- An entry of the secrets' directory: its name, if it has one, and its text.
abbrev pub SecretEntry : Type 0
SecretEntry = Option Bytes × Option Bytes

unfoldable pub secrets_from :
    List (Bytes × Bytes) → List (Option SecretEntry) → Result DelegationError (List (Bytes × Bytes))
unfolding trim_start_0x
secrets_from secrets [] = ok secrets
secrets_from secrets (entry ∷ entries) = do
  e ← ok_or entry read_directory
  filename ← ok_or e.0 read_directory
  secret ← ok_or e.1 read_directory
  secrets_from ((trim_start_0x filename, secret) ∷ secrets) entries

-- `KeystoreSecret::from_directory`
unfoldable pub from_directory :
    Option (List (Option SecretEntry)) → Result DelegationError KeystoreSecret
unfolding secrets_from
from_directory dir = do
  entries ← ok_or dir read_directory
  secrets ← secrets_from [] entries
  ok (directory secrets)

pub record KeyFile : Type 0 where
  pub path : Bytes
  pub is_file : Bool
  pub extension : Option Bytes

-- An entry of the keys' directory: a directory, or not.
pub data KeyEntry : Type 0 where
  dir : Option (List (Option KeyFile)) → KeyEntry
  not_dir : KeyEntry

abbrev pub json_extension : Bytes
json_extension = 106 ∷ 115 ∷ 111 ∷ 110 ∷ []

abbrev pub has_extension : Option Bytes → Bool
has_extension none = false
has_extension (some e) = bytes_eq e json_extension

unfoldable pub json_files : List (Option KeyFile) → Result DelegationError (List Bytes)
json_files [] = ok []
json_files (entry ∷ entries) = do
  f ← ok_or entry read_directory
  paths ← json_files entries
  ok (if f.is_file && has_extension f.extension then f.path ∷ paths else paths)

abbrev pub files_of : KeyEntry → Result DelegationError (List Bytes)
files_of not_dir = ok []
files_of (dir d) = do entries ← ok_or d read_directory; json_files entries

unfoldable pub paths_from : List (Option KeyEntry) → Result DelegationError (List Bytes)
unfolding json_files
paths_from [] = ok []
paths_from (entry ∷ entries) = do
  e ← ok_or entry read_directory
  here ← files_of e
  rest ← paths_from entries
  ok (here ++ rest)

unfoldable pub keystore_paths :
    Option (List (Option KeyEntry)) → Result DelegationError (List Bytes)
unfolding paths_from
keystore_paths d = do entries ← ok_or d read_directory; paths_from entries

-- A decrypted key pair.
pub record Keypair : Type 0 where
  pub pk : Bytes
  pub sk : ℕ

-- A keystore file of the keystore library: the public key that it names, and its decryption.
pub record Keystore : Type 0 where
  pub pubkey : Bytes
  pub decrypt_keypair : Bytes → Option Keypair

module _ (lib : BlsLib) where
  unfoldable pub sign_message :
      Keypair → Bytes → Chain → Action → Result DelegationError SignedMessage
  unfolding delegation_digest revocation_digest compute_commit_boost_signing_root
  sign_message kp delegatee_pubkey chain delegate =
      let message = new_delegation kp.pk delegatee_pubkey in
      do
        signing_root ← compute_commit_boost_signing_root lib (delegation_digest lib message) chain
        ensure (lib.parse_signature (lib.sign kp.sk signing_root)) invalid_signature
        ok (delegation (record { message = message; signature = lib.sign kp.sk signing_root }))
  sign_message kp delegatee_pubkey chain revoke =
      let message = new_revocation kp.pk delegatee_pubkey in
      do
        signing_root ← compute_commit_boost_signing_root lib (revocation_digest lib message) chain
        ensure (lib.parse_signature (lib.sign kp.sk signing_root)) invalid_signature
        ok (revocation (record { message = message; signature = lib.sign kp.sk signing_root }))

  -- The body of the loop over the files; `read` is `Keystore::from_json_file`.
  unfoldable pub sign_keystore :
      (Bytes → Option Keystore)
      → KeystoreSecret
      → Bytes
      → Chain
      → Action
      → Bytes
      → Result DelegationError SignedMessage
  unfolding sign_message
  sign_keystore read keystore_secret delegatee_pubkey chain action path = do
    ks ← ok_or (read path) eth2_keystore
    password ← ok_or (get keystore_secret ks.pubkey) missing_password
    kp ← ok_or (ks.decrypt_keypair password) eth2_keystore
    ensure (lib.parse_key kp.pk) invalid_key
    sign_message kp delegatee_pubkey chain action

  unfoldable pub sign_keystores :
      (Bytes → Option Keystore)
      → KeystoreSecret
      → Bytes
      → Chain
      → Action
      → List Bytes
      → Result DelegationError (List SignedMessage)
  unfolding sign_keystore
  sign_keystores read keystore_secret delegatee_pubkey chain action [] = ok []
  sign_keystores read keystore_secret delegatee_pubkey chain action (path ∷ paths) = do
    signed ← sign_keystore read keystore_secret delegatee_pubkey chain action path
    rest ← sign_keystores read keystore_secret delegatee_pubkey chain action paths
    ok (signed ∷ rest)

  unfoldable pub generate_from_keystore :
      Option (List (Option KeyEntry))
      → (Bytes → Option Keystore)
      → KeystoreSecret
      → Bytes
      → Chain
      → Action
      → Result DelegationError (List SignedMessage)
  unfolding sign_keystores
  generate_from_keystore keys read keystore_secret delegatee_pubkey chain action = do
    paths ← keystore_paths keys
    sign_keystores read keystore_secret delegatee_pubkey chain action paths
