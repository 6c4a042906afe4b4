-- ===== src/Examples/Tools.antt =====
-- Concrete runs of the remote signer, the delegate-only sidecar, the configuration and the texts of
-- transactions.
use proposer_commitment_netw.Base.{
  ◌+◌, ◌-◌, map, ap, ◌∙◌, ◌≡◌, refl, true, Option, some, List, [], ◌∷◌, ok, length, ◌==◌, arith,
}
use proposer_commitment_netw.Base.Text.{Text, codes, parse_u64}
use proposer_commitment_netw.Constraints.Texts.{Encoding}
use proposer_commitment_netw.Config
use proposer_commitment_netw.Config.Environment.{Parsers, new_config}
use proposer_commitment_netw.Config.Environment.Reads.{
  Texts, Values, environment, config_of, Parses, new_config_reads,
}
use proposer_commitment_netw.Delegation.{BlsLib, kurtosis, delegate, revoke, SignedMessage}
use proposer_commitment_netw.Delegation.Keystores.{directory, KeystoreSecret, SecretEntry}
use proposer_commitment_netw.Delegation.Scripts
use proposer_commitment_netw.Delegation.Web3Signer.{Web3Signer, generate_from_web3signer}
use proposer_commitment_netw.Delegation.Signers.{generate}
use proposer_commitment_netw.Delegation.Signers.Revocations.{SignsInHex, generate_lem}
use proposer_commitment_netw.Delegation.Sidecar.{SidecarEnv}
use proposer_commitment_netw.Constraints.Texts.{
  serialize_txs, deserialize_txs, forget_sender, deserialize-serialize_txs,
}
use proposer_commitment_netw.Examples.{transfer, nonce_of, first, signed_by}
use proposer_commitment_netw.Examples.Keyring.{bls, read_keystore, keys_dir}

abbrev strict : BlsLib
strict = record bls { parse_signature = λ bytes. length bytes == 96 }

abbrev answer : Text
answer = codes "0x0a0b"

abbrev remote : Web3Signer
remote = record {
  list_accounts = some (codes "0x05" ∷ []);
  request_signature = λ account root. some answer;
  hex_decode = λ text. some text;
  hex_encode = λ bytes. bytes;
}

remote-SignsInHex : SignsInHex strict remote
remote-SignsInHex = (
  λ bytes h. ground arith,
  λ account root text h long.
      let same : answer ≡ text = cc in
      let short : length answer ≡ 98 = ap length same ∙ long in absurd (omega arith),
)

generate_lem_example :
    (generate strict remote (8 ∷ []) delegate
      ≡ generate_from_web3signer strict remote (8 ∷ []) delegate)
    × ((ms : List SignedMessage)
        → generate strict remote (8 ∷ []) revoke ≡ ok ms
        → remote.list_accounts ≡ some [])
generate_lem_example = generate_lem strict remote (8 ∷ []) remote-SignsInHex

abbrev sidecar_env : SidecarEnv
sidecar_env = record {
  keys_path = some keys_dir;
  secrets_path = some (some (some (some (5 ∷ []), some (1 ∷ [])) ∷ []));
  out_file = some [];
  out_file_web3 = some [];
  relay_url = some [];
  web3signer_url = some [];
  delegatee_pubkey = some (8 ∷ []);
  from_json_file = read_keystore;
  hex_decode = λ text. some text;
  posted = λ messages. true;
}

abbrev delegated : SignedMessage
delegated = SignedMessage.delegation (record {
  message = record { action = 0; validator_pubkey = 5 ∷ []; delegatee_pubkey = 8 ∷ [] };
  signature = 5 ∷ 0 ∷ 5 ∷ 8 ∷ 109 ∷ 109 ∷ 111 ∷ 67 ∷ 16 ∷ 0 ∷ 0 ∷ 56 ∷ [];
})

abbrev entries : Option (List (Option SecretEntry))
entries = some (some (some (5 ∷ []), some (1 ∷ [])) ∷ [])

abbrev names : KeystoreSecret
names = directory ((5 ∷ [], 1 ∷ []) ∷ [])

abbrev parsers : Parsers
parsers = record {
  parse_url = λ text. some text;
  parse_checksummed = λ text. some (length text);
  parse_address = λ text. some (length text);
}

abbrev written : Texts
written = record {
  deadline = codes "8000";
  slot_time = codes "12";
  commitment_port = codes "8001";
  metrics_port = codes "8018";
  builder_port = codes "18552";
  relay_url = codes "http://relay";
  beacon_api_url = codes "http://beacon";
  execution_api_url = codes "http://el";
  engine_api_url = codes "http://engine";
  jwt = codes "secret";
  fee_recipient = codes "0x01";
  secrets_path = codes "/secrets";
  pubkeys_path = codes "/keys";
}

abbrev values : Values
values = record {
  deadline = 8_000;
  slot_time = 12;
  commitment_port = 8_001;
  metrics_port = 8_018;
  builder_port = 18_552;
  sender_url = codes "http://localhost:8000";
  relay_url = codes "http://relay";
  beacon_api_url = codes "http://beacon";
  execution_api_url = codes "http://el";
  engine_api_url = codes "http://engine";
  fee_recipient = 4;
  contract = 42;
}

written-Parses : Parses parsers written values
unfolding parse_u64
written-Parses = record {
  deadline = refl;
  slot_time = refl;
  commitment_port = refl;
  metrics_port = refl;
  builder_port = refl;
  sender_url = refl;
  relay_url = refl;
  beacon_api_url = refl;
  execution_api_url = refl;
  engine_api_url = refl;
  fee_recipient = refl;
  contract = refl;
}

new_config_reads_example :
    new_config parsers (environment Config.kurtosis written []) 7
    ≡ ok (config_of Config.kurtosis written values 7)
new_config_reads_example =
    new_config_reads parsers written values written-Parses [] Config.kurtosis 7

-- A transfer is encoded as its nonce, and a byte as itself above the letters.
abbrev encoding : Encoding
encoding = record {
  encoded_2718 = λ tx. nonce_of tx ∷ [];
  decode_2718 = λ bytes. some (transfer (first bytes));
  hex_encode = λ bytes. map (λ b. b + 200) bytes;
  hex_decode = λ text. some (map (λ c. c - 200) text);
}

deserialize-serialize_txs_example :
    deserialize_txs encoding (serialize_txs encoding (signed_by 9 3 ∷ signed_by 9 4 ∷ []))
    ≡ ok (map (forget_sender encoding) (signed_by 9 3 ∷ signed_by 9 4 ∷ []))
deserialize-serialize_txs_example =
    deserialize-serialize_txs encoding (signed_by 9 3 ∷ signed_by 9 4 ∷ []) (
      (refl, refl, (λ h. absurd (omega arith), tt)),
      ((refl, refl, (λ h. absurd (omega arith), tt)), tt),
    )
