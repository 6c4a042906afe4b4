-- ===== src/Config/Environment/Reads.antt =====
-- What `Config::new` (interstate-gateway/src/config/mod.rs) makes of an environment.
use proposer_commitment_netw.Base.{
  ℕ, ◌≡◌, refl, some, [], ◌∷◌, ok, panic, ltb, ◌&&◌, if◌then◌else◌, bytes_eq, Bool-cases, inl, inr,
  arith,
}
use proposer_commitment_netw.Base.Text.{Text, codes, parse_u64}
use proposer_commitment_netw.Config.{Chain, mainnet, holesky, kurtosis, helder}
use proposer_commitment_netw.Config.Environment.{
  Envs, lookup, Parsers, Config, chain_of, chain_id_of, parse_u16, read_chain, read_ports,
  read_urls, new_config,
}

-- The values of the variables, as texts.
pub record Texts : Type 0 where
  pub deadline : Text
  pub slot_time : Text
  pub commitment_port : Text
  pub metrics_port : Text
  pub builder_port : Text
  pub relay_url : Text
  pub beacon_api_url : Text
  pub execution_api_url : Text
  pub engine_api_url : Text
  pub jwt : Text
  pub fee_recipient : Text
  pub secrets_path : Text
  pub pubkeys_path : Text

abbrev pub name_of : Chain → Text
name_of mainnet = codes "mainnet"
name_of holesky = codes "holesky"
name_of kurtosis = codes "kurtosis"
name_of helder = codes "helder"

abbrev pub id_of : Chain → ℕ
id_of mainnet = 1
id_of holesky = 17_000
id_of kurtosis = 3_151_908
id_of helder = 7_014_190_335

-- An environment with these variables, and any others.
abbrev pub environment : Chain → Texts → Envs → Envs
environment chain t others =
    (codes "CHAIN", name_of chain)
    ∷ (codes "COMMITMENT_DEADLINE", t.deadline)
    ∷ (codes "SLOT_TIME", t.slot_time)
    ∷ (codes "COMMITMENT_PORT", t.commitment_port)
    ∷ (codes "METRICS_PORT", t.metrics_port)
    ∷ (codes "BUILDER_PORT", t.builder_port)
    ∷ (codes "RELAY_URL", t.relay_url)
    ∷ (codes "BEACON_API_URL", t.beacon_api_url)
    ∷ (codes "EXECUTION_API_URL", t.execution_api_url)
    ∷ (codes "ENGINE_API_URL", t.engine_api_url)
    ∷ (codes "JWT", t.jwt)
    ∷ (codes "FEE_RECIPIENT", t.fee_recipient)
    ∷ (codes "KEYSTORE_SECRETS_PATH", t.secrets_path)
    ∷ (codes "KEYSTORE_PUBKEYS_PATH", t.pubkeys_path)
    ∷ others

-- What the texts stand for.
pub record Values : Type 0 where
  pub deadline : ℕ
  pub slot_time : ℕ
  pub commitment_port : ℕ
  pub metrics_port : ℕ
  pub builder_port : ℕ
  pub sender_url : Text
  pub relay_url : Text
  pub beacon_api_url : Text
  pub execution_api_url : Text
  pub engine_api_url : Text
  pub fee_recipient : ℕ
  pub contract : ℕ

pub record Parses (lib : Parsers) (t : Texts) (v : Values) : Type 0 where
  pub deadline : parse_u64 t.deadline ≡ some v.deadline
  pub slot_time : parse_u64 t.slot_time ≡ some v.slot_time
  pub commitment_port : parse_u64 t.commitment_port ≡ some v.commitment_port
  pub metrics_port : parse_u64 t.metrics_port ≡ some v.metrics_port
  pub builder_port : parse_u64 t.builder_port ≡ some v.builder_port
  pub sender_url : lib.parse_url (codes "http://localhost:8000") ≡ some v.sender_url
  pub relay_url : lib.parse_url t.relay_url ≡ some v.relay_url
  pub beacon_api_url : lib.parse_url t.beacon_api_url ≡ some v.beacon_api_url
  pub execution_api_url : lib.parse_url t.execution_api_url ≡ some v.execution_api_url
  pub engine_api_url : lib.parse_url t.engine_api_url ≡ some v.engine_api_url
  pub fee_recipient : lib.parse_checksummed t.fee_recipient ≡ some v.fee_recipient
  pub contract :
      lib.parse_address (codes "0x8aC112a5540f441cC9beBcC647041A6E0D595B94") ≡ some v.contract

-- The configuration with these values.
abbrev pub config_of : Chain → Texts → Values → ℕ → Config
config_of chain t v key = record {
  commitment_port = v.commitment_port;
  metrics_port = v.metrics_port;
  builder_port = v.builder_port;
  cb_url = v.relay_url;
  relay_url = v.relay_url;
  sidecar_info_sender_url = v.sender_url;
  beacon_api_url = v.beacon_api_url;
  execution_api_url = v.execution_api_url;
  engine_api_url = v.engine_api_url;
  chain = record {
    chain = chain;
    commitment_deadline = v.deadline;
    slot_time = v.slot_time;
    id = id_of chain;
  };
  jwt_hex = t.jwt;
  fee_recipient = v.fee_recipient;
  builder_bls_private_key = key;
  keystore_secrets_path = t.secrets_path;
  keystore_pubkeys_path = t.pubkeys_path;
  gateway_contract = v.contract;
  web3signer_url = codes "http://localhost:3030";
  ca_cert_path = [];
  combined_pem_path = [];
  commit_boost_signer_url = codes "http://localhost:3030";
}

module _ (lib : Parsers) (t : Texts) (v : Values) (p : Parses lib t v) (others : Envs) where
  read_chain_lem :
      (chain : Chain)
      → read_chain lib (environment chain t others)
        ≡ ok (record {
          chain = chain;
          commitment_deadline = v.deadline;
          slot_time = v.slot_time;
          id = id_of chain;
        })
  unfolding read_chain lookup chain_of chain_id_of bytes_eq
  read_chain_lem mainnet = rw (p.deadline, p.slot_time) refl
  read_chain_lem holesky = rw (p.deadline, p.slot_time) refl
  read_chain_lem kurtosis = rw (p.deadline, p.slot_time) refl
  read_chain_lem helder = rw (p.deadline, p.slot_time) refl

  read_ports_lem :
      (chain : Chain)
      → read_ports lib (environment chain t others) ≡ (
          if ltb v.commitment_port 65_536
            && (ltb v.metrics_port 65_536 && ltb v.builder_port 65_536)
          then ok (record {
            commitment = v.commitment_port;
            metrics = v.metrics_port;
            builder = v.builder_port;
          })
          else panic)
  unfolding read_ports lookup parse_u16 bytes_eq
  read_ports_lem chain = rw (p.commitment_port, p.metrics_port, p.builder_port) (ground arith)

  read_urls_lem :
      (chain : Chain)
      → read_urls lib (environment chain t others)
        ≡ ok (record {
          cb = v.relay_url;
          relay = v.relay_url;
          sidecar_info_sender = v.sender_url;
          beacon_api = v.beacon_api_url;
          execution_api = v.execution_api_url;
          engine_api = v.engine_api_url;
        })
  unfolding read_urls lookup bytes_eq
  read_urls_lem chain =
      rw (p.relay_url, p.sender_url, p.beacon_api_url, p.execution_api_url, p.engine_api_url) refl

  -- An environment with each of the variables, and whatever others, gives the configuration with the
  -- values that the texts stand for, each at its place, on the chain of the name, if the three ports
  -- are below 65536; otherwise the code panics.
  pub new_config_reads :
      (chain : Chain) (key : ℕ)
      → new_config lib (environment chain t others) key ≡ (
          if ltb v.commitment_port 65_536
            && (ltb v.metrics_port 65_536 && ltb v.builder_port 65_536)
          then ok (config_of chain t v key)
          else panic)
  unfolding new_config lookup bytes_eq
  new_config_reads chain key =
      elim (Bool-cases (
        ltb v.commitment_port 65_536 && (ltb v.metrics_port 65_536 && ltb v.builder_port 65_536))) [
          | inl e ↦
              rw
                (
                  read_chain_lem chain,
                  read_ports_lem chain,
                  e,
                  read_urls_lem chain,
                  p.fee_recipient,
                  p.contract,
                )
                refl
          | inr e ↦ rw (read_chain_lem chain, read_ports_lem chain, e) refl
        ]
