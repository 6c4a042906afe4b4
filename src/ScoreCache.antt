-- ===== src/ScoreCache.antt =====
-- `ScoreCache` (interstate-gateway/src/utils/score_cache.rs): a map whose entries have a score that
-- reads raise and writes lower. The const generics GET_SCORE, INSERT_SCORE and UPDATE_SCORE are
-- the section's parameters; the deployed values are those of state/account_state.rs.
pub mod Eviction
pub mod Reads
use proposer_commitment_netw.Base.{
  ℕ, zero, suc, ◌+◌, ◌≤◌, max, Bool, true, false, Option, none, some, List, [], ◌∷◌, length, leb,
  if◌then◌else◌, arith,
}
use proposer_commitment_netw.Base.Assoc
use proposer_commitment_netw.Base.Assoc.{Assoc}
use proposer_commitment_netw.Base.Int.{ℤ, pos, negsuc, pos_part, ltb_ℤ, saturating_add}
use mathlib.Core.Option

abbrev pub get_score : ℤ
get_score = pos 4

abbrev pub insert_score : ℤ
insert_score = pos 4

abbrev pub update_score : ℤ
update_score = negsuc 0

pub record ScoreCache {ℓ} (V : Type ℓ) : Type ℓ where
  pub map : Assoc (V × ℤ)
  pub max_len : ℕ

module _ {ℓ} {V : Type ℓ} where
  unfoldable pub with_max_len : ℕ → ScoreCache V
  with_max_len max_len = record { map = []; max_len = max_len }

  -- The entries that the `retain` of one round of `clear_stales` keeps.
  abbrev pub is_fresh : ℕ → ℕ → V × ℤ → Bool
  is_fresh i _ (_, score) = ltb_ℤ (pos i) score

  -- The loop of `clear_stales` from round `i`; `none` if the fuel ran out.
  unfoldable pub clear_loop : ℕ → ℕ → ℕ → Assoc (V × ℤ) → Option (Assoc (V × ℤ))
  clear_loop max_len zero i m = none
  clear_loop max_len (suc fuel) i m =
      let rest = clear_loop max_len fuel (suc i) (Assoc.retain (is_fresh i) m) in
      if leb max_len (length m) then rest else some m

  -- The largest score of the map, at least 0.
  unfoldable pub max_score : Assoc (V × ℤ) → ℕ
  max_score [] = 0
  max_score ((_, (_, score)) ∷ m) = max (pos_part score) (max_score m)

  -- `none` if the loop does not end, which is when `max_len` is 0.
  unfoldable pub clear_stales : ScoreCache V → Option (ScoreCache V)
  clear_stales c =
      Option.map (λ (m : Assoc (V × ℤ)). record c { map = m })
        (clear_loop c.max_len (suc (suc (max_score c.map))) 0 c.map)

  abbrev pub rescore : ℤ → (V → V) → V × ℤ → V × ℤ
  rescore d f (v, score) = (f v, saturating_add score d)

  abbrev pub value_of : Option (V × ℤ) → Option V
  value_of none = none
  value_of (some (v, _)) = some v

  module _ (GET_SCORE INSERT_SCORE UPDATE_SCORE : ℤ) where
    -- `get` raises the score of the entry that it finds.
    unfoldable pub get : ScoreCache V → ℕ → ScoreCache V × Option V
    get c k = (
      record c { map = Assoc.modify k (rescore GET_SCORE (λ v. v)) c.map },
      value_of (Assoc.lookup k c.map),
    )

    -- `get_mut`, with the write `f` that its caller makes through the reference.
    unfoldable pub get_mut : ScoreCache V → ℕ → (V → V) → ScoreCache V × Option V
    get_mut c k f = (
      record c { map = Assoc.modify k (rescore UPDATE_SCORE f) c.map },
      value_of (Assoc.lookup k c.map),
    )

    unfoldable pub insert : ScoreCache V → ℕ → V → Option (ScoreCache V × Option V)
    insert c k v =
        Option.map
          (λ (c' : ScoreCache V). (
            record c' { map = Assoc.insert k (v, INSERT_SCORE) c'.map },
            value_of (Assoc.lookup k c'.map),
          ))
          (clear_stales c)
