-- ===== src/ScoreCache/Eviction.antt =====
-- The eviction loop of the score cache (interstate-gateway/src/utils/score_cache.rs): it ends, makes
-- room, and drops no more than it must.
use proposer_commitment_netw.Base.{
  ℕ, zero, suc, ◌+◌, ◌≤◌, ◌<◌, ◌≡◌, refl, sym, ◌∙◌, none, some, [], ◌∷◌, length, inl, inr, arith,
  ◌⊎◌,
}
use native.Mathlib.Decide.{dec_le}
use proposer_commitment_netw.Base.Assoc
use proposer_commitment_netw.Base.Assoc.{Assoc}
use proposer_commitment_netw.Base.Int.{ℤ}
use proposer_commitment_netw.ScoreCache.{ScoreCache, is_fresh, clear_loop, max_score, clear_stales}

module _ {ℓ} {V : Type ℓ} where
  retain_nothing : (i : ℕ) (m : Assoc (V × ℤ)) → max_score m ≤ i → Assoc.retain (is_fresh i) m ≡ []
  unfolding max_score Assoc.retain
  retain_nothing i [] h = refl
  retain_nothing i ((k, (v, score)) ∷ m) h = ground (arith, retain_nothing i m (omega arith))

  max_score-retain-le :
      (i : ℕ) (m : Assoc (V × ℤ)) → max_score (Assoc.retain (is_fresh i) m) ≤ max_score m
  unfolding max_score Assoc.retain
  max_score-retain-le i [] = omega arith
  max_score-retain-le i ((k, (v, score)) ∷ m) = ground (arith, max_score-retain-le i m)

  -- A round after one with a lower threshold keeps what it alone would keep.
  retain-retain :
      (i j : ℕ) (m : Assoc (V × ℤ))
      → i ≤ j
      → Assoc.retain (is_fresh j) (Assoc.retain (is_fresh i) m) ≡ Assoc.retain (is_fresh j) m
  unfolding Assoc.retain
  retain-retain i j [] h = refl
  retain-retain i j ((k, (v, score)) ∷ m) h = ground (arith, retain-retain i j m h)

  module _ (max_len : ℕ) where
    loop_stop :
        (fuel i : ℕ) (m : Assoc (V × ℤ))
        → length m < max_len
        → clear_loop max_len (suc fuel) i m ≡ some m
    unfolding clear_loop
    loop_stop fuel i m h = ground arith

    loop_empty : (i : ℕ) (m : Assoc (V × ℤ)) → clear_loop max_len zero i m ≡ none
    unfolding clear_loop
    loop_empty i m = refl

    loop_round :
        (fuel i : ℕ) (m : Assoc (V × ℤ))
        → max_len ≤ length m
        → clear_loop max_len (suc fuel) i m
          ≡ clear_loop max_len fuel (suc i) (Assoc.retain (is_fresh i) m)
    unfolding clear_loop
    loop_round fuel i m h = ground arith

    loop_total :
        (d i : ℕ) (m : Assoc (V × ℤ))
        → 0 < max_len
        → max_score m ≤ i + d
        → (r : Assoc (V × ℤ)) × (clear_loop max_len (suc (suc d)) i m ≡ some r)
    loop_total zero i m pos_len h = elim (dec_le max_len (length m)) [
      | no few ↦ (m, loop_stop 1 i m (omega arith))
      | yes full ↦ (
        [],
        loop_round 1 i m full
            ∙ rw (retain_nothing i m (omega arith)) (loop_stop zero (suc i) [] pos_len),
      )
    ]
    loop_total (suc d) i m pos_len h = elim (dec_le max_len (length m)) [
      | no few ↦ (m, loop_stop (suc (suc d)) i m (omega arith))
      | yes full ↦
          let (r, e) =
            loop_total d (suc i) (Assoc.retain (is_fresh i) m) pos_len
              (omega (arith, max_score-retain-le i m)) in
          (r, loop_round (suc (suc d)) i m full ∙ e)
    ]

    -- The rounds from `i` on end at the threshold `t`, the least that makes room.
    pub record Evicts (i : ℕ) (m r : Assoc (V × ℤ)) : Type ℓ where
      pub threshold : ℕ
      pub after : i ≤ threshold
      pub full : max_len ≤ length m
      pub result : r ≡ Assoc.retain (is_fresh threshold) m
      pub least : (j : ℕ) → i ≤ j → j < threshold → max_len ≤ length (Assoc.retain (is_fresh j) m)

    Evicts-here :
        (i : ℕ) (m r : Assoc (V × ℤ))
        → max_len ≤ length m
        → r ≡ Assoc.retain (is_fresh i) m
        → Evicts i m r
    Evicts-here i m r full e = record {
      threshold = i;
      after = omega arith;
      full = full;
      result = e;
      least = λ j p q. absurd (omega arith);
    }

    Evicts-later :
        (i : ℕ) (m r : Assoc (V × ℤ))
        → max_len ≤ length m
        → Evicts (suc i) (Assoc.retain (is_fresh i) m) r
        → Evicts i m r
    Evicts-later i m r full e = record {
      threshold = e.threshold;
      after = omega (arith, e.after);
      full = full;
      result = e.result ∙ retain-retain i e.threshold m (omega (arith, e.after));
      least = λ j p q. elim (dec_le (suc i) j) [
        | yes later ↦ rw (← retain-retain i j m p) (e.least j later q)
        | no now ↦ let here : j ≡ i = omega arith in rw here e.full
      ];
    }

    loop-Evicts :
        (fuel i : ℕ) (m r : Assoc (V × ℤ))
        → clear_loop max_len fuel i m ≡ some r
        → (length r < max_len) × ((r ≡ m) ⊎ Evicts i m r)
    loop-Evicts zero i m r h = absurd (cc (h, loop_empty i m))
    loop-Evicts (suc fuel) i m r h = elim (dec_le max_len (length m)) [
      | no few ↦
          let e : r ≡ m = cc (h, loop_stop fuel i m (omega arith)) in (rw e (omega arith), inl e)
      | yes full ↦
          let (room, how) =
            loop-Evicts fuel (suc i) (Assoc.retain (is_fresh i) m) r
              (sym (loop_round fuel i m full) ∙ h) in
          (
            room,
            elim how [
              | inl e ↦ inr (Evicts-here i m r full e)
              | inr e ↦ inr (Evicts-later i m r full e)
            ],
          )
    ]

  -- With room for one entry or more `clear_stales` ends, and what it leaves is below the bound:
  -- either everything, or the entries with a score above the least threshold that makes room.
  pub clear_stales_ends :
      (c : ScoreCache V)
      → 0 < c.max_len
      → (r : Assoc (V × ℤ)) × (clear_stales c ≡ some (record c { map = r }))
        × (length r < c.max_len)
        × ((r ≡ c.map) ⊎ Evicts c.max_len 0 c.map r)
  unfolding clear_stales
  clear_stales_ends c h =
      let (r, e) = loop_total c.max_len (max_score c.map) 0 c.map h (omega arith) in
      let (room, how) = loop-Evicts c.max_len (suc (suc (max_score c.map))) 0 c.map r e in
      (r, rw e, room, how)

  loop_diverges : (fuel i : ℕ) (m : Assoc (V × ℤ)) → clear_loop 0 fuel i m ≡ none
  unfolding clear_loop
  loop_diverges zero i m = refl
  loop_diverges (suc fuel) i m =
      ground (arith, loop_diverges fuel (suc i) (Assoc.retain (is_fresh i) m))

  -- A cache with no room never gets out of the loop, whatever the fuel.
  pub clear_stales_diverges :
      (c : ScoreCache V) (fuel : ℕ)
      → c.max_len ≡ 0
      → (clear_loop c.max_len fuel 0 c.map ≡ none) × (clear_stales c ≡ none)
  unfolding clear_stales
  clear_stales_diverges c fuel h = (
    rw h (loop_diverges fuel 0 c.map),
    rw (h, loop_diverges (suc (suc (max_score c.map))) 0 c.map),
  )
