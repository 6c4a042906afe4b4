-- ===== src/Config/Environment.antt =====
-- The configuration (`Config` of interstate-gateway/src/config/mod.rs), read from the environment: a
-- table of texts. A key that is missing, and a value that cannot be read, panics. URLs and addresses
-- are parsed by libraries; the builder's key is random.
pub mod Reads
use proposer_commitment_netw.Base.{
  ℕ, Bool, true, false, Option, none, some, List, [], ◌∷◌, Result, ok, panic, ◌>>=◌, expect, ltb,
  bytes_eq, if◌then◌else◌,
}
use proposer_commitment_netw.Base.Text.{Text, codes, parse_u64}
use proposer_commitment_netw.Config.{
  Chain, mainnet, holesky, kurtosis, helder, ChainConfig, default_chain_config,
}

abbrev pub Envs : Type 0
Envs = List (Text × Text)

-- `envs[name]`
unfoldable pub lookup : Text → Envs → Option Text
lookup name [] = none
lookup name ((key, value) ∷ envs) = if bytes_eq key name then some value else lookup name envs

abbrev pub mainnet_chain_id : ℕ
mainnet_chain_id = 1

abbrev pub holesky_chain_id : ℕ
holesky_chain_id = 17_000

abbrev pub kurtosis_chain_id : ℕ
kurtosis_chain_id = 3_151_908

abbrev pub helder_chain_id : ℕ
helder_chain_id = 7_014_190_335

pub record Parsers : Type 0 where
  pub parse_url : Text → Option Text
  pub parse_checksummed : Text → Option ℕ
  pub parse_address : Text → Option ℕ

pub record Config : Type 0 where
  pub commitment_port : ℕ
  pub metrics_port : ℕ
  pub builder_port : ℕ
  pub cb_url : Text
  pub relay_url : Text
  pub sidecar_info_sender_url : Text
  pub beacon_api_url : Text
  pub execution_api_url : Text
  pub engine_api_url : Text
  pub chain : ChainConfig
  pub jwt_hex : Text
  pub fee_recipient : ℕ
  pub builder_bls_private_key : ℕ
  pub keystore_secrets_path : Text
  pub keystore_pubkeys_path : Text
  pub gateway_contract : ℕ
  pub web3signer_url : Text
  pub ca_cert_path : Text
  pub combined_pem_path : Text
  pub commit_boost_signer_url : Text

-- The fields of `Config` that are ports, and those that are URLs.
pub record Ports : Type 0 where
  pub commitment : ℕ
  pub metrics : ℕ
  pub builder : ℕ

pub record Urls : Type 0 where
  pub cb : Text
  pub relay : Text
  pub sidecar_info_sender : Text
  pub beacon_api : Text
  pub execution_api : Text
  pub engine_api : Text

-- The chain of a name, holesky for any other.
unfoldable pub chain_of : Text → Chain
chain_of name =
    if bytes_eq name (codes "kurtosis")
    then kurtosis
    else if bytes_eq name (codes "mainnet")
    then mainnet
    else if bytes_eq name (codes "holesky")
    then holesky
    else if bytes_eq name (codes "helder")
    then helder
    else holesky

unfoldable pub chain_id_of : Text → ℕ
chain_id_of name =
    if bytes_eq name (codes "kurtosis")
    then kurtosis_chain_id
    else if bytes_eq name (codes "mainnet")
    then mainnet_chain_id
    else if bytes_eq name (codes "holesky")
    then holesky_chain_id
    else if bytes_eq name (codes "helder")
    then helder_chain_id
    else holesky_chain_id

abbrev pub u16_of : Option ℕ → Option ℕ
u16_of none = none
u16_of (some n) = if ltb n 65_536 then some n else none

-- `str::parse::<u16>`
unfoldable pub parse_u16 : Text → Option ℕ
unfolding parse_u64
parse_u16 text = u16_of (parse_u64 text)

abbrev pub default_contract : Text
default_contract = codes "0x8aC112a5540f441cC9beBcC647041A6E0D595B94"

abbrev pub local_relay : Text
local_relay = codes "http://localhost:3030"

-- Every value is read or the code panics, so no error stands in the result.
abbrev pub Read : Type 0 → Type 0
Read A = Result (Unit {0}) A

module _ (lib : Parsers) (envs : Envs) where
  -- `envs[name]`, parsed
  abbrev pub read {ℓ} : {A : Type ℓ} → (Text → Option A) → Text → Result (Unit {0}) A
  read parse name = do text ← expect (lookup name envs); expect (parse text)

  unfoldable pub read_chain : Read ChainConfig
  unfolding lookup chain_of chain_id_of parse_u64
  read_chain = do
    name ← expect (lookup (codes "CHAIN") envs)
    deadline ← read parse_u64 (codes "COMMITMENT_DEADLINE")
    slot_time ← read parse_u64 (codes "SLOT_TIME")
    ok (record {
      chain = chain_of name;
      commitment_deadline = deadline;
      slot_time = slot_time;
      id = chain_id_of name;
    })

  unfoldable pub read_ports : Read Ports
  unfolding lookup parse_u16
  read_ports = do
    commitment ← read parse_u16 (codes "COMMITMENT_PORT")
    metrics ← read parse_u16 (codes "METRICS_PORT")
    builder ← read parse_u16 (codes "BUILDER_PORT")
    ok (record { commitment = commitment; metrics = metrics; builder = builder })

  unfoldable pub read_urls : Read Urls
  unfolding lookup
  read_urls = do
    cb_url ← read lib.parse_url (codes "RELAY_URL")
    relay_url ← read lib.parse_url (codes "RELAY_URL")
    sidecar_info_sender_url ← expect (lib.parse_url (codes "http://localhost:8000"))
    beacon_api_url ← read lib.parse_url (codes "BEACON_API_URL")
    execution_api_url ← read lib.parse_url (codes "EXECUTION_API_URL")
    engine_api_url ← read lib.parse_url (codes "ENGINE_API_URL")
    ok (record {
      cb = cb_url;
      relay = relay_url;
      sidecar_info_sender = sidecar_info_sender_url;
      beacon_api = beacon_api_url;
      execution_api = execution_api_url;
      engine_api = engine_api_url;
    })

  -- `Config::new`
  unfoldable pub new_config : ℕ → Read Config
  unfolding read_chain read_ports read_urls
  new_config random_key = do
    chain ← read_chain
    ports ← read_ports
    urls ← read_urls
    jwt_hex ← expect (lookup (codes "JWT") envs)
    fee_recipient ← read lib.parse_checksummed (codes "FEE_RECIPIENT")
    gateway_contract ← expect (lib.parse_address default_contract)
    secrets_path ← expect (lookup (codes "KEYSTORE_SECRETS_PATH") envs)
    pubkeys_path ← expect (lookup (codes "KEYSTORE_PUBKEYS_PATH") envs)
    ok (record {
      commitment_port = ports.commitment;
      metrics_port = ports.metrics;
      builder_port = ports.builder;
      cb_url = urls.cb;
      relay_url = urls.relay;
      sidecar_info_sender_url = urls.sidecar_info_sender;
      beacon_api_url = urls.beacon_api;
      execution_api_url = urls.execution_api;
      engine_api_url = urls.engine_api;
      chain = chain;
      jwt_hex = jwt_hex;
      fee_recipient = fee_recipient;
      builder_bls_private_key = random_key;
      keystore_secrets_path = secrets_path;
      keystore_pubkeys_path = pubkeys_path;
      gateway_contract = gateway_contract;
      web3signer_url = local_relay;
      ca_cert_path = [];
      combined_pem_path = [];
      commit_boost_signer_url = local_relay;
    })

  -- `Config::default`
  unfoldable pub default_config : ℕ → Read Config
  default_config random_key = do
    cb_url ← expect (lib.parse_url (codes "http://localhost:3030"))
    relay_url ← expect (lib.parse_url (codes "http://localhost:3040"))
    sidecar_info_sender_url ← expect (lib.parse_url (codes "http://localhost:8000"))
    beacon_api_url ← expect (lib.parse_url (codes "http://localhost:5052"))
    execution_api_url ← expect (lib.parse_url (codes "http://localhost:8545"))
    engine_api_url ← expect (lib.parse_url (codes "http://localhost:8551"))
    gateway_contract ← expect (lib.parse_address default_contract)
    ok (record {
      commitment_port = 8000;
      metrics_port = 8018;
      builder_port = 18551;
      cb_url = cb_url;
      relay_url = relay_url;
      sidecar_info_sender_url = sidecar_info_sender_url;
      beacon_api_url = beacon_api_url;
      execution_api_url = execution_api_url;
      engine_api_url = engine_api_url;
      chain = default_chain_config;
      jwt_hex = [];
      fee_recipient = 0;
      builder_bls_private_key = random_key;
      keystore_secrets_path = codes "/root/assigned_data/secrets";
      keystore_pubkeys_path = codes "/root/assigned_data/keys";
      gateway_contract = gateway_contract;
      web3signer_url = [];
      ca_cert_path = [];
      combined_pem_path = [];
      commit_boost_signer_url = [];
    })
