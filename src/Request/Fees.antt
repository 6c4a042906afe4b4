-- ===== src/Request/Fees.antt =====
-- What the fee validators of a request promise (interstate-gateway/src/commitment/request.rs).
use proposer_commitment_netw.Base.{
  ℕ, ◌+◌, ◌≤◌, ◌≡◌, refl, ◌↔◌, true, some, ok, List, [], ◌∷◌, min, All, unwrap_or, arith, >>=-eq-ok,
}
use proposer_commitment_netw.Base.Words.{add_u64, saturating_add_u64}
use proposer_commitment_netw.Errors.{PricingError}
use proposer_commitment_netw.Pricing.{F64, PreconfPricer, calculate_min_priority_fee}
use proposer_commitment_netw.Tx
use proposer_commitment_netw.Tx.{TxLib, Constraint, effective_tip_per_gas}
use proposer_commitment_netw.Request.{
  PreconfRequest, tips_below_fee, validate_max_priority_fee, fees_from, validate_basefee,
  tips_cover, validate_min_priority_fee,
}

module _ (lib : TxLib) where
  -- The transaction's tip is at most its fee, if it names a tip.
  abbrev pub TipBelowFee : Constraint → Type 0
  TipBelowFee c =
      (tip : ℕ) → lib.max_priority_fee_per_gas c.tx ≡ some tip → tip ≤ lib.max_fee_per_gas c.tx

  tips_sound : (cs : List Constraint) → tips_below_fee lib cs ≡ true → All TipBelowFee cs
  unfolding tips_below_fee
  tips_sound [] h = tt
  tips_sound (c ∷ cs) h = (λ tip e. ground arith, tips_sound cs (ground arith))

  fees_sound :
      (floor : ℕ) (cs : List Constraint)
      → fees_from lib floor cs ≡ true
      → All (λ c. floor ≤ lib.max_fee_per_gas c.tx) cs
  unfolding fees_from
  fees_sound floor [] h = tt
  fees_sound floor (c ∷ cs) h = (ground arith, fees_sound floor cs (ground arith))

  -- The tip left at a base fee is bounded by the room above the base fee and by the named tip,
  -- and there is one exactly when the fee reaches the base fee.
  pub effective_tip_per_gas_iff :
      (c : Constraint) (base_fee tip : ℕ)
      → (effective_tip_per_gas lib c base_fee ≡ some tip) ↔ (
          (base_fee ≤ lib.max_fee_per_gas c.tx)
          × (tip + base_fee
              ≡ min (lib.max_fee_per_gas c.tx) (
                  unwrap_or (lib.max_priority_fee_per_gas c.tx) (lib.max_fee_per_gas c.tx)
                  + base_fee)))
  unfolding effective_tip_per_gas
  effective_tip_per_gas_iff c base_fee tip = ground arith

  module _ (f : F64) (pricing : PreconfPricer) (preconfirmed_gas profit base_fee : ℕ) where
    -- A transaction pays its way: at the base fee it leaves the price of its gas on top of
    -- `preconfirmed_gas`, and the profit.
    abbrev pub PaysWay : Constraint → Type 0
    PaysWay c =
        (gas : ℕ) × (fee : ℕ) × (Tx.gas_limit {E = PricingError} c.tx ≡ ok gas)
        × (calculate_min_priority_fee f pricing gas preconfirmed_gas ≡ ok fee)
        × (add_u64 fee profit ≤ unwrap_or (effective_tip_per_gas lib c base_fee) 0)

    tips_cover_sound :
        (counter : ℕ) (cs : List Constraint)
        → tips_cover lib f pricing preconfirmed_gas profit base_fee counter cs ≡ ok true
        → All PaysWay cs
    unfolding tips_cover
    tips_cover_sound counter [] h = tt
    tips_cover_sound counter (c ∷ cs) h =
        let (gas, e, h1) = >>=-eq-ok (Tx.gas_limit {E = PricingError} c.tx) _ h in
        let (fee, e', h2) =
          >>=-eq-ok (calculate_min_priority_fee f pricing gas preconfirmed_gas) _ h1 in
        (
          (gas, fee, e, e', ground arith),
          tips_cover_sound (saturating_add_u64 counter gas) cs (ground arith),
        )

    tips_cover_complete :
        (counter : ℕ) (cs : List Constraint)
        → All PaysWay cs
        → tips_cover lib f pricing preconfirmed_gas profit base_fee counter cs ≡ ok true
    unfolding tips_cover
    tips_cover_complete counter [] h = refl
    tips_cover_complete counter (c ∷ cs) ((gas, fee, e, e', l), rest) =
        rw (e, e') (ground (arith, tips_cover_complete (saturating_add_u64 counter gas) cs rest))

    -- The tips of a request are accepted exactly when each transaction pays for its own gas on
    -- top of the same `preconfirmed_gas`: the gas of the transactions before it in the request
    -- does not enter its price.
    pub validate_min_priority_fee_iff :
        (req : PreconfRequest)
        → (validate_min_priority_fee lib f pricing preconfirmed_gas profit base_fee req ≡ ok true)
          ↔ All PaysWay req.txs
    unfolding validate_min_priority_fee
    validate_min_priority_fee_iff req =
        (tips_cover_sound preconfirmed_gas req.txs, tips_cover_complete preconfirmed_gas req.txs)

  -- The remaining fee validators: no transaction's tip is above its fee, and every fee reaches
  -- the floor.
  pub validate_fees_sound :
      (req : PreconfRequest) (floor : ℕ)
      → validate_max_priority_fee lib req ≡ true
      → validate_basefee lib req floor ≡ true
      → All TipBelowFee req.txs × All (λ c. floor ≤ lib.max_fee_per_gas c.tx) req.txs
  unfolding validate_max_priority_fee validate_basefee
  validate_fees_sound req floor h k = (tips_sound req.txs h, fees_sound floor req.txs k)
