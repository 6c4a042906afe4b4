-- ===== src/Builder/Engine.antt =====
-- `EngineHinter` (interstate-gateway/src/constraints/block_builder.rs): what an answer of the
-- execution engine says about the payload it was sent.
pub mod Answers
use proposer_commitment_netw.Base.{
  ℕ, ◌+◌, ◌-◌, ◌*◌, ◌^◌, Bool, true, false, ◌&&◌, ◌||◌, Option, none, some, List, [], ◌∷◌, Result,
  ok, err, panic, ◌>>=◌, ok_or, leb, ltb, ◌==◌, if◌then◌else◌,
}
use proposer_commitment_netw.Base.Text.{codes, contains, parse_u64}
use proposer_commitment_netw.Builder.{
  Text, BuilderError, BuilderLib, parse, hex, jwt, reqwest, invalid_engine_hint, engine_unreachable,
  engine_not_supported, no_hint_parsed,
}
use proposer_commitment_netw.Builder.Draft.{
  EngineApiHint, block_hash, gas_used, state_root, receipts_root, logs_bloom, valid_payload,
  base_fee,
}

pub data EngineType : Type 0 where
  geth reth besu nethermind : EngineType

-- `jwt_hex` is whether the secret can be read, `version` the text of the answer, if there is one.
unfoldable pub get_el_node_type : Bool → Option Text → Result BuilderError EngineType
unfolding contains
get_el_node_type false version = err jwt
get_el_node_type true none = err reqwest
get_el_node_type true (some raw_version) =
    if contains (codes "\"result\":\"Geth") raw_version then ok geth else err engine_unreachable

unfoldable pub read_hash :
    BuilderLib → (ℕ → EngineApiHint) → Text → Result BuilderError EngineApiHint
read_hash lib make value = do hash ← ok_or (lib.b256_from_hex value) hex; ok (make hash)

unfoldable pub read_number : (ℕ → EngineApiHint) → Text → Result BuilderError EngineApiHint
unfolding parse_u64
read_number make value = do n ← ok_or (parse_u64 value) parse; ok (make n)

-- The cascade of tests on the answer, which says what the captured value is.
unfoldable pub match_hint : BuilderLib → Text → Text → Result BuilderError EngineApiHint
unfolding contains read_hash read_number
match_hint lib raw_hint hint_value =
    if contains (codes "blockhash mismatch") raw_hint
    then read_hash lib block_hash hint_value
    else if contains (codes "invalid gas used") raw_hint
    then read_number gas_used hint_value
    else if contains (codes "invalid merkle root") raw_hint
    then read_hash lib state_root hint_value
    else if contains (codes "invalid receipt root hash") raw_hint
    then read_hash lib receipts_root hint_value
    else if contains (codes "invalid bloom") raw_hint
    then (do bloom ← ok_or (lib.bloom_from_hex hint_value) hex; ok (logs_bloom bloom))
    else if contains (codes "invalid baseFee") raw_hint
    then read_number base_fee hint_value
    else err no_hint_parsed

unfoldable pub geth_hint : BuilderLib → Text → Option Text → Result BuilderError EngineApiHint
unfolding match_hint
geth_hint lib raw_hint (some hint_value) = match_hint lib raw_hint hint_value
geth_hint lib raw_hint none =
    if contains (codes "\"status\":\"VALID\"") raw_hint
    then ok valid_payload
    else err (invalid_engine_hint raw_hint)

unfoldable pub hint_of : BuilderLib → Text → EngineType → Result BuilderError EngineApiHint
unfolding geth_hint
hint_of lib raw_hint geth = geth_hint lib raw_hint (lib.capture_hint raw_hint)
hint_of lib raw_hint _ = err engine_not_supported

-- `raw` is the text of the engine's answer to the payload, if there is one.
unfoldable pub fetch_next_payload_hint :
    BuilderLib → Bool → Option Text → Option Text → Result BuilderError EngineApiHint
unfolding get_el_node_type hint_of
fetch_next_payload_hint lib false raw version = err jwt
fetch_next_payload_hint lib true none version = err reqwest
fetch_next_payload_hint lib true (some raw_hint) version = do
  el_type ← get_el_node_type true version
  hint_of lib raw_hint el_type
