-- ===== src/Builder/Engine/Answers.antt =====
-- Which answers of the engine count as a valid payload
-- (`fetch_next_payload_hint` of interstate-gateway/src/constraints/block_builder.rs).
use proposer_commitment_netw.Base.{
  ℕ, ◌≡◌, refl, ◌↔◌, Bool, true, false, Option, none, some, ok, inl, inr, Bool-cases, Option-cases,
  arith,
}
use proposer_commitment_netw.Base.Text.{codes, contains, parse_u64}
use proposer_commitment_netw.Builder.{Text, BuilderLib}
use proposer_commitment_netw.Builder.Draft.{EngineApiHint, valid_payload}
use proposer_commitment_netw.Builder.Engine.{
  get_el_node_type, read_hash, read_number, match_hint, geth_hint, hint_of, fetch_next_payload_hint,
}

read_hash-not_valid :
    (lib : BuilderLib) (make : ℕ → EngineApiHint) (value : Text)
    → ((n : ℕ) → ¬ (make n ≡ valid_payload))
    → ¬ (read_hash lib make value ≡ ok valid_payload)
unfolding read_hash
read_hash-not_valid lib make value h e = elim (Option-cases (lib.b256_from_hex value)) [
  | inl n ↦ ground arith
  | inr (n, m) ↦ h n (ground arith)
]

read_number-not_valid :
    (make : ℕ → EngineApiHint) (value : Text)
    → ((n : ℕ) → ¬ (make n ≡ valid_payload))
    → ¬ (read_number make value ≡ ok valid_payload)
unfolding read_number
read_number-not_valid make value h e = elim (Option-cases (parse_u64 value)) [
  | inl n ↦ ground arith
  | inr (n, m) ↦ h n (ground arith)
]

-- A value that was captured is never taken for a valid payload.
match_hint-not_valid :
    (lib : BuilderLib) (raw value : Text) → ¬ (match_hint lib raw value ≡ ok valid_payload)
unfolding match_hint
match_hint-not_valid lib raw value e = ground (
  arith,
  read_hash-not_valid lib EngineApiHint.block_hash value (λ n h. cc),
  read_number-not_valid EngineApiHint.gas_used value (λ n h. cc),
  read_hash-not_valid lib EngineApiHint.state_root value (λ n h. cc),
  read_hash-not_valid lib EngineApiHint.receipts_root value (λ n h. cc),
  read_number-not_valid EngineApiHint.base_fee value (λ n h. cc),
)

-- The answer is from Geth, says VALID, and holds nothing that the regular expression captures.
pub record SaysValid (lib : BuilderLib) (raw version : Option Text) : Type 0 where
  pub answer : Text
  pub answered : raw ≡ some answer
  pub client : Text
  pub identified : version ≡ some client
  pub is_geth : contains (codes "\"result\":\"Geth") client ≡ true
  pub no_capture : lib.capture_hint answer ≡ none
  pub says_valid : contains (codes "\"status\":\"VALID\"") answer ≡ true

fetch_sound :
    (lib : BuilderLib) (jwt : Bool) (raw version : Option Text)
    → fetch_next_payload_hint lib jwt raw version ≡ ok valid_payload
    → (jwt ≡ true) × SaysValid lib raw version
unfolding fetch_next_payload_hint get_el_node_type hint_of geth_hint
fetch_sound lib false raw version e = cc
fetch_sound lib true none version e = cc
fetch_sound lib true (some raw) none e = cc
fetch_sound lib true (some raw) (some v) e =
    elim (Bool-cases (contains (codes "\"result\":\"Geth") v)) [
      | inr n ↦ absurd (ground arith)
      | inl g ↦ elim (Option-cases (lib.capture_hint raw)) [
        | inr (value, c) ↦ absurd (match_hint-not_valid lib raw value (ground arith))
        | inl c ↦ (
          refl,
          record {
            answer = raw;
            answered = refl;
            client = v;
            identified = refl;
            is_geth = g;
            no_capture = c;
            says_valid = ground arith;
          },
        )
      ]
    ]

-- A payload counts as valid exactly when the JWT secret can be read, the node is Geth, and its answer says
-- VALID and holds nothing that the hints' regular expression captures.
pub fetch_next_payload_hint_valid_iff :
    (lib : BuilderLib) (jwt : Bool) (raw version : Option Text)
    → (fetch_next_payload_hint lib jwt raw version ≡ ok valid_payload)
      ↔ ((jwt ≡ true) × SaysValid lib raw version)
unfolding fetch_next_payload_hint get_el_node_type hint_of geth_hint
fetch_next_payload_hint_valid_iff lib jwt raw version = (
  fetch_sound lib jwt raw version,
  λ (j, v). rw (j, v.answered, v.identified, v.is_geth, v.no_capture, v.says_valid) refl,
)
