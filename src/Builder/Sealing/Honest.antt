-- ===== src/Builder/Sealing/Honest.antt =====
-- `build_sealed_block` (interstate-gateway/src/constraints/block_builder.rs) with an engine that
-- executes the block: it names the first of the four results of the execution that is wrong in the
-- payload, in the order in which Geth validates them.
use proposer_commitment_netw.Base.{
  ℕ, suc, ◌≤◌, ◌≡◌, refl, none, some, ok, unwrap_or, ◌==◌, inl, inr, Bool-cases, if◌then◌else◌,
  arith,
}
use proposer_commitment_netw.Builder.{SealedBlock, BuilderLib}
use proposer_commitment_netw.Builder.Draft.{
  Hints, default_hints, EngineApiHint, apply_hint, build_header_with_hints_and_context,
}
use proposer_commitment_netw.Builder.Payload.{
  ExecutionPayloadV1, ExecutionPayloadV3, create_alloy_execution_payload,
}
use proposer_commitment_netw.Builder.Sealing.{Draft, seal, proposed, seal_loop, rounds}
use proposer_commitment_netw.Builder.Sealing.Rounds.{Ask}

-- What the execution of the block comes to.
pub record Executed : Type 0 where
  pub gas_used : ℕ
  pub logs_bloom : ℕ
  pub receipts_root : ℕ
  pub state_root : ℕ

abbrev pub first_wrong : Executed → ExecutionPayloadV1 → EngineApiHint
first_wrong x p =
    if p.gas_used == x.gas_used
    then if p.logs_bloom == x.logs_bloom
      then if p.receipts_root == x.receipts_root
        then if p.state_root == x.state_root
          then EngineApiHint.valid_payload
          else EngineApiHint.state_root x.state_root
        else EngineApiHint.receipts_root x.receipts_root
      else EngineApiHint.logs_bloom x.logs_bloom
    else EngineApiHint.gas_used x.gas_used

-- The header of the block has these results.
abbrev pub Agrees : Executed → SealedBlock → Type 0
Agrees x b =
    (b.header.gas_used ≡ x.gas_used)
    × (b.header.logs_bloom ≡ x.logs_bloom)
    × (b.header.receipts_root ≡ x.receipts_root)
    × (b.header.state_root ≡ x.state_root)

module _ (lib : BuilderLib) (x : Executed) (ask : Ask) (d : Draft)
    (honest : (i : ℕ) (p : ExecutionPayloadV3)
      → ask i p ≡ ok (first_wrong x p.payload_inner.payload_inner)) where
  abbrev pub Solved : ℕ → ℕ → Hints → Type 0
  Solved fuel i h = (b : SealedBlock) × (seal_loop lib ask d fuel i h ≡ some (ok b)) × Agrees x b

  from_state :
      (fuel i : ℕ) (h : Hints)
      → i ≤ 20
      → unwrap_or h.gas_used 0 ≡ x.gas_used
      → unwrap_or h.logs_bloom 0 ≡ x.logs_bloom
      → unwrap_or h.receipts_root 0 ≡ x.receipts_root
      → Solved (suc (suc fuel)) i h
  unfolding seal_loop apply_hint proposed seal build_header_with_hints_and_context
      create_alloy_execution_payload
  from_state fuel i h l g b r = elim (Bool-cases (unwrap_or h.state_root 0 == x.state_root)) [
    | inl e ↦ (seal lib d h, ground (arith, honest i (proposed lib d h)), (g, b, r, ground arith))
    | inr e ↦
        let next : Hints = record h { state_root = some x.state_root; block_hash = none } in
        (
          seal lib d next,
          ground (arith, honest i (proposed lib d h), honest (suc i) (proposed lib d next)),
          (g, b, r, refl),
        )
  ]

  from_receipts :
      (fuel i : ℕ) (h : Hints)
      → i ≤ 19
      → unwrap_or h.gas_used 0 ≡ x.gas_used
      → unwrap_or h.logs_bloom 0 ≡ x.logs_bloom
      → Solved (suc (suc (suc fuel))) i h
  unfolding seal_loop apply_hint proposed seal build_header_with_hints_and_context
      create_alloy_execution_payload
  from_receipts fuel i h l g m =
      elim (Bool-cases (unwrap_or h.receipts_root 0 == x.receipts_root)) [
        | inl e ↦ from_state (suc fuel) i h (omega arith) g m (ground arith)
        | inr e ↦
            let next : Hints = record h {
              receipts_root = some x.receipts_root;
              block_hash = none;
            } in
            let (b, found, a) = from_state fuel (suc i) next (omega arith) g m refl in
            (b, ground (arith, honest i (proposed lib d h), found), a)
      ]

  from_bloom :
      (fuel i : ℕ) (h : Hints)
      → i ≤ 18
      → unwrap_or h.gas_used 0 ≡ x.gas_used
      → Solved (suc (suc (suc (suc fuel)))) i h
  unfolding seal_loop apply_hint proposed seal build_header_with_hints_and_context
      create_alloy_execution_payload
  from_bloom fuel i h l g = elim (Bool-cases (unwrap_or h.logs_bloom 0 == x.logs_bloom)) [
    | inl e ↦ from_receipts (suc fuel) i h (omega arith) g (ground arith)
    | inr e ↦
        let next : Hints = record h { logs_bloom = some x.logs_bloom; block_hash = none } in
        let (b, found, a) = from_receipts fuel (suc i) next (omega arith) g refl in
        (b, ground (arith, honest i (proposed lib d h), found), a)
  ]

  from_gas : (fuel i : ℕ) (h : Hints) → i ≤ 17 → Solved (suc (suc (suc (suc (suc fuel))))) i h
  unfolding seal_loop apply_hint proposed seal build_header_with_hints_and_context
      create_alloy_execution_payload
  from_gas fuel i h l = elim (Bool-cases (unwrap_or h.gas_used 0 == x.gas_used)) [
    | inl e ↦ from_bloom (suc fuel) i h (omega arith) (ground arith)
    | inr e ↦
        let next : Hints = record h { gas_used = some x.gas_used; block_hash = none } in
        let (b, found, a) = from_bloom fuel (suc i) next (omega arith) refl in
        (b, ground (arith, honest i (proposed lib d h), found), a)
  ]

  -- With an engine that answers each payload with the first of these four results that is wrong in it, and calls it valid if none is, the loop returns a block with all four results right.
  pub seal_loop_honest :
      (b : SealedBlock) × (seal_loop lib ask d (rounds lib) 0 default_hints ≡ some (ok b))
      × Agrees x b
  seal_loop_honest = from_gas 17 0 default_hints (omega arith)
