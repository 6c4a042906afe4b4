-- ===== src/Builder/Sealing/Rounds.antt =====
-- The rounds of `build_sealed_block` (interstate-gateway/src/constraints/block_builder.rs).
use proposer_commitment_netw.Base.{
  ℕ, zero, suc, ◌+◌, ◌<◌, ◌≡◌, ◌↔◌, refl, ap, Option, none, some, Result, ok, err, panic, inl, inr,
  Option-cases, Result-cases, arith,
}
use proposer_commitment_netw.Builder.{SealedBlock, BuilderError, BuilderLib, too_many_iterations}
use proposer_commitment_netw.Builder.Draft.{
  Hints, default_hints, EngineApiHint, valid_payload, apply_hint,
}
use proposer_commitment_netw.Builder.Payload.{ExecutionPayloadV3}
use proposer_commitment_netw.Builder.Sealing.{Draft, seal, proposed, seal_loop, rounds}

abbrev pub Ask : Type 0
Ask = ℕ → ExecutionPayloadV3 → Result BuilderError EngineApiHint

-- The hints after one answer; `none` if it ends the loop.
abbrev pub hinted : Hints → Result BuilderError EngineApiHint → Option Hints
hinted h (ok hint) = apply_hint h hint
hinted h (err e) = none
hinted h panic = none

abbrev pub then_hints : Option Hints → (Hints → Option Hints) → Option Hints
then_hints none k = none
then_hints (some h) k = k h

module _ (lib : BuilderLib) (ask : Ask) (d : Draft) where
  -- The hints after `k` rounds from round `i` on, if each of them gives one.
  abbrev pub advance : ℕ → Hints → ℕ → Option Hints
  advance i h zero = some h
  advance i h (suc k) =
      then_hints (hinted h (ask i (proposed lib d h))) λ next. advance (suc i) next k

  -- Round `k` is the first one in which the engine calls the payload valid; `b` is its block.
  abbrev pub ValidAt : ℕ → Hints → ℕ → SealedBlock → Type 0
  ValidAt i h k b =
      (final : Hints) × (advance i h k ≡ some final)
      × (ask (i + k) (proposed lib d final) ≡ ok valid_payload)
      × (seal lib d final ≡ b)

valid_of_none : (h : Hints) (hint : EngineApiHint) → apply_hint h hint ≡ none → hint ≡ valid_payload
unfolding apply_hint
valid_of_none h EngineApiHint.valid_payload e = refl
valid_of_none h (EngineApiHint.block_hash x) e = cc
valid_of_none h (EngineApiHint.gas_used x) e = cc
valid_of_none h (EngineApiHint.state_root x) e = cc
valid_of_none h (EngineApiHint.receipts_root x) e = cc
valid_of_none h (EngineApiHint.logs_bloom x) e = cc
valid_of_none h (EngineApiHint.base_fee x) e = cc

some-injective {ℓ} : {A : Type ℓ} {a b : A} → some a ≡ some b → a ≡ b
some-injective h = cc

module _ (lib : BuilderLib) (ask : Ask) (d : Draft) where
  loop_sound :
      (fuel i : ℕ) (h : Hints) (b : SealedBlock)
      → seal_loop lib ask d fuel i h ≡ some (ok b)
      → (k : ℕ) × (k < fuel) × ValidAt lib ask d i h k b
  unfolding seal_loop
  loop_sound zero i h b e = cc
  loop_sound (suc fuel) i h b e = elim (Result-cases (ask i (proposed lib d h))) [
    | inl (hint, a) ↦ elim (Option-cases (apply_hint h hint)) [
      | inl n ↦
          let here : i + 0 ≡ i = omega arith in
          (0, omega arith, (h, refl, rw (here, a) (ap ok (valid_of_none h hint n)), ground arith))
      | inr (next, n) ↦
          let (k, l, (final, r, v, s)) = loop_sound fuel (suc i) next b (ground arith) in
          let later : i + suc k ≡ suc i + k = omega arith in
          (suc k, omega arith, (final, rw (a, n) r, rw later v, s))
    ]
    | inr (inl (x, a)) ↦ absurd (ground arith)
    | inr (inr a) ↦ absurd (ground arith)
  ]

  loop_complete :
      (fuel i : ℕ) (h : Hints) (b : SealedBlock) (k : ℕ)
      → i + fuel ≡ rounds lib
      → k < fuel
      → ValidAt lib ask d i h k b
      → seal_loop lib ask d fuel i h ≡ some (ok b)
  unfolding seal_loop apply_hint
  loop_complete zero i h b k e l v = absurd (omega arith)
  loop_complete (suc fuel) i h b zero e l (final, r, v, s) =
      let here : i + 0 ≡ i = omega arith in
      let same : h ≡ final = some-injective r in
      let valid : ask i (proposed lib d final) ≡ ok valid_payload = rw here at v in
      rw (same, valid, apply_hint) (ap (λ x. some (ok x)) s)
  loop_complete (suc fuel) i h b (suc k) e l (final, r, v, s) =
      elim (Result-cases (ask i (proposed lib d h))) [
        | inl (hint, a) ↦ elim (Option-cases (apply_hint h hint)) [
          | inl n ↦ absurd (ground arith)
          | inr (next, n) ↦
              let later : suc i + k ≡ i + suc k = omega arith in
              let rest =
                loop_complete fuel (suc i) next b k (omega arith) (omega arith)
                  (final, ground arith, rw later v, s) in
              ground arith
        ]
        | inr (inl (x, a)) ↦ absurd (ground arith)
        | inr (inr a) ↦ absurd (ground arith)
      ]

  loop_ends :
      (fuel i : ℕ) (h : Hints)
      → i + suc fuel ≡ rounds lib
      → (r : Result BuilderError SealedBlock) × (seal_loop lib ask d (suc fuel) i h ≡ some r)
  unfolding seal_loop
  loop_ends zero i h e = elim (Result-cases (ask i (proposed lib d h))) [
    | inl (hint, a) ↦ elim (Option-cases (apply_hint h hint)) [
      | inl n ↦ (ok (seal lib d h), ground arith)
      | inr (next, n) ↦ (err too_many_iterations, ground arith)
    ]
    | inr (inl (x, a)) ↦ (err x, ground arith)
    | inr (inr a) ↦ (panic, ground arith)
  ]
  loop_ends (suc fuel) i h e = elim (Result-cases (ask i (proposed lib d h))) [
    | inl (hint, a) ↦ elim (Option-cases (apply_hint h hint)) [
      | inl n ↦ (ok (seal lib d h), ground arith)
      | inr (next, n) ↦
          let (r, same) = loop_ends fuel (suc i) next (omega arith) in (r, ground arith)
    ]
    | inr (inl (x, a)) ↦ (err x, ground arith)
    | inr (inr a) ↦ (panic, ground arith)
  ]

  -- Whatever is answered, the loop is over after 22 payloads at most.
  pub seal_loop_ends :
      (r : Result BuilderError SealedBlock) × (seal_loop lib ask d (rounds lib) 0 default_hints
        ≡ some r)
  seal_loop_ends = loop_ends 21 0 default_hints refl

  -- The loop returns a block exactly when one of the 22 payloads is called valid and each one
  -- before it was answered with a hint; it is the block with the hints of these answers.
  pub seal_loop_iff :
      (b : SealedBlock)
      → (seal_loop lib ask d (rounds lib) 0 default_hints ≡ some (ok b))
        ↔ ((k : ℕ) × (k < rounds lib) × ValidAt lib ask d 0 default_hints k b)
  seal_loop_iff b = (
    loop_sound (rounds lib) 0 default_hints b,
    λ (k, l, v). loop_complete (rounds lib) 0 default_hints b k refl l v,
  )
