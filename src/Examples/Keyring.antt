-- ===== src/Examples/Keyring.antt =====
-- Concrete runs of the keys, the delegation scripts, the digests and the configuration.
use proposer_commitment_netw.Base.{
  ℕ, ◌≡◌, ◌≢◌, ◌↔◌, refl, true, false, Option, none, some, List, [], ◌∷◌, ◌++◌, ok, All, length,
  bytes_eq, bytes_eq_refl,
}
use proposer_commitment_netw.Base.Text.{
  codes, split, trim, trim_start, trim_end, contains, starts_with, before_dots, after_dots,
  parse_u64, digits,
}
use proposer_commitment_netw.Tx.{PooledTransactionsElement}
use proposer_commitment_netw.Constraints.{ConstraintsMessage}
use proposer_commitment_netw.Pbs.Message.{PbsLib, other}
use proposer_commitment_netw.Digest.{gateway_digest, pbs_digest, sent}
use proposer_commitment_netw.Digest.Binding.{pbs_digest-sent}
use proposer_commitment_netw.Config
use proposer_commitment_netw.Config.{
  ChainConfig, default_chain_config, get_fork_version, commit_boost_domain, from_str, read_parts,
  read_part, range, has_index,
}
use proposer_commitment_netw.Config.Domains.{commit_boost_domain_agrees}
use proposer_commitment_netw.Delegation.{
  Bytes, BlsLib, Chain, helder, delegate, SignedMessage, fork_version, compute_domain_from_mask,
  compute_commit_boost_signing_root, new_delegation, delegation_digest,
}
use proposer_commitment_netw.Delegation.Keystores.{
  unique, KeyEntry, dir, Keypair, Keystore, get, generate_from_keystore, sign_keystores,
  sign_keystore, sign_message, keystore_paths, paths_from, json_files,
}
use proposer_commitment_netw.Delegation.Scripts.{Env, verify_all}
use proposer_commitment_netw.Delegation.Verified.{IsFor, IsPair, generate_from_keystore_verifies}
use proposer_commitment_netw.Keys.{Keystores, SignLib, sign_commit_boost_root}
use proposer_commitment_netw.Keys.Signed.{KnownIn, sign_commit_boost_root_iff}
use proposer_commitment_netw.Examples.{lib, signed_by, nonce_of, first}

-- A public key is one byte, the secret key; a signature is the key in front of the message.
abbrev pub bls : BlsLib
bls = record {
  sha256 = λ bytes. bytes;
  fork_data_root = λ version. version;
  signing_root = λ root domain. some (root ++ domain);
  sign = λ sk message. sk ∷ message;
  verify = λ pk message signature. bytes_eq (pk ++ message) signature;
  parse_signature = λ s. true;
  parse_key = λ k. true;
  reads_signature = λ s. true;
  reads_key = λ k. true;
}

abbrev five : Keypair
five = record { pk = 5 ∷ []; sk = 5 }

abbrev pub read_keystore : Bytes → Option Keystore
read_keystore path = some (record { pubkey = 5 ∷ []; decrypt_keypair = λ password. some five })

abbrev pub keys_dir : Option (List (Option KeyEntry))
keys_dir = some (
    some (
      dir (
        some (
          some (record { path = 1 ∷ []; is_file = true; extension = some (codes "json") })
          ∷ some (record { path = 2 ∷ []; is_file = true; extension = none })
          ∷ [])))
    ∷ [])

abbrev env : Env
env = record {
  signer_type = some (codes "KEYSTORES");
  relay_url = some [];
  delegatee_pubkey = some (8 ∷ []);
  out_file = some [];
  keys_path = some keys_dir;
  secrets_path = none;
  web3signer_url = none;
  from_json_file = read_keystore;
  hex_decode = λ text. some text;
  posted = λ messages. true;
}

abbrev signed : SignedMessage
signed = SignedMessage.delegation (record {
  message = record { action = 0; validator_pubkey = 5 ∷ []; delegatee_pubkey = 8 ∷ [] };
  signature = 5 ∷ 0 ∷ 5 ∷ 8 ∷ 109 ∷ 109 ∷ 111 ∷ 67 ∷ 16 ∷ 0 ∷ 0 ∷ 0 ∷ [];
})

generated :
    generate_from_keystore bls keys_dir read_keystore (unique []) (8 ∷ []) helder delegate
    ≡ ok (signed ∷ [])
unfolding generate_from_keystore sign_keystores sign_keystore sign_message keystore_paths paths_from
    json_files bytes_eq get new_delegation delegation_digest compute_commit_boost_signing_root
    compute_domain_from_mask fork_version
generated = refl

pub five-IsPair :
    (path password : Bytes) (ks : Keystore) (kp : Keypair)
    → read_keystore path ≡ some ks
    → ks.decrypt_keypair password ≡ some kp
    → IsPair bls kp
five-IsPair path password ks kp read decrypted m =
    let keystore : ◌≡◌ {A = Keystore} (record { pubkey = 5 ∷ []; decrypt_keypair = λ _. some five })
        ks =
      cc in
    let decrypts : ◌≡◌ {A = Option Keypair} (some five) (some kp) = rw (← keystore) at decrypted in
    let same : five ≡ kp = cc in rw (← same) (bytes_eq_refl (5 ∷ m))

generate_from_keystore_verifies_example :
    (paths : List Bytes) × (keystore_paths keys_dir ≡ ok paths)
    × (length (signed ∷ []) ≡ length paths)
    × All (IsFor delegate (8 ∷ [])) (signed ∷ [])
    × (verify_all bls env (signed ∷ []) helder ≡ ok tt)
generate_from_keystore_verifies_example =
    generate_from_keystore_verifies bls (λ k e. e, λ s e. e) helder (8 ∷ []) read_keystore
      (unique []) five-IsPair env keys_dir delegate (signed ∷ []) generated

abbrev encode : PooledTransactionsElement → List ℕ
encode tx = nonce_of tx ∷ []

abbrev reading : PbsLib
reading = record {
  keccak256 = first;
  hash_tree_root = first;
  decode_2718 = λ bytes. some (other (first bytes));
  encode_2718 = λ _ _ _. [];
  verify_merkle_multiproof = λ leaves hashes indexes root. true;
}

abbrev constraints : ConstraintsMessage
constraints = record {
  pubkey = 77;
  slot = 40;
  top = false;
  transactions = signed_by 9 3 ∷ signed_by 9 4 ∷ [];
}

pbs_digest-sent_example :
    pbs_digest reading length (sent encode constraints) ≡ ok (gateway_digest lib length constraints)
pbs_digest-sent_example =
    pbs_digest-sent lib reading encode length constraints (λ tx. (other (nonce_of tx), refl, refl))

abbrev signing : SignLib
signing = record {
  fork_data_root = λ version. version;
  compute_signing_root = λ root domain. root ++ domain;
  sign = λ sk message. sk ∷ message;
  verify = λ pk message signature. bytes_eq (pk ++ message) signature;
  is_signature = λ s. true;
}

abbrev keyring : Keystores
keyring = record { keypairs = five ∷ []; chain = default_chain_config }

keyring_signs : (m : Bytes) → bytes_eq (5 ∷ m) (5 ∷ m) ≡ true
keyring_signs m = bytes_eq_refl (5 ∷ m)

sign_commit_boost_root_iff_example :
    ((signature : Bytes) × (sign_commit_boost_root signing keyring (1 ∷ []) (5 ∷ []) ≡ ok signature)
      × (signing.verify
            (5 ∷ [])
            (signing.compute_signing_root
              (1 ∷ [])
              (commit_boost_domain signing.fork_data_root default_chain_config))
            signature
          ≡ true))
    ↔ KnownIn (five ∷ []) (5 ∷ [])
sign_commit_boost_root_iff_example =
    sign_commit_boost_root_iff signing keyring (1 ∷ []) (5 ∷ []) ((keyring_signs, λ m. refl), tt)

four_indexes : from_str (codes " 1,3..5") ≡ ok (1 ∷ 3 ∷ 4 ∷ 5 ∷ [])
unfolding from_str read_parts read_part range split trim trim_start trim_end contains starts_with
    before_dots after_dots parse_u64 digits
four_indexes = refl

commit_boost_domain_agrees_example :
    ((get_fork_version Config.Chain.holesky ≡ fork_version Chain.holesky)
      ↔ (Config.Chain.holesky ≢ Config.Chain.mainnet))
    × (Config.Chain.holesky ≢ Config.Chain.mainnet
        → commit_boost_domain bls.fork_data_root default_chain_config
          ≡ compute_domain_from_mask bls (fork_version Chain.holesky))
unfolding default_chain_config
commit_boost_domain_agrees_example = commit_boost_domain_agrees bls default_chain_config
