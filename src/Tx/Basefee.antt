-- ===== src/Tx/Basefee.antt =====
-- What `calculate_max_basefee` (interstate-gateway/src/utils/transactions.rs) computes.
use proposer_commitment_netw.Base.{
  sym, ap, ◌∙◌, ℕ, zero, suc, ◌+◌, ◌-◌, ◌*◌, ◌/◌, ◌≤◌, ◌<◌, ◌≡◌, refl, ◌↔◌, max, some, none, arith,
}
use native.Mathlib.Decide.{dec_le}
use proposer_commitment_netw.Base.Words.{u128_mod, add_u128, mul_u128}
use proposer_commitment_netw.Tx.Fees.{multiplier, divisor, max_basefee_loop, calculate_max_basefee}

-- One round with no bound on the numbers.
abbrev pub next_basefee : ℕ → ℕ
next_basefee b = b * 1125 / 1000 + 1

abbrev pub iterate_basefee : ℕ → ℕ → ℕ
iterate_basefee zero b = b
iterate_basefee (suc n) b = iterate_basefee n (next_basefee b)

abbrev pub basefee_limit : ℕ
basefee_limit = (u128_mod - 1) / 1125

-- After `n` blocks the base fee can be `f`: a block raises it by an eighth, or by 1, at most.
abbrev pub CanReach : ℕ → ℕ → ℕ → Type 0
CanReach zero b f = f ≤ b
CanReach (suc n) b f = (b' : ℕ) × (b' ≤ b + max (b / 8) 1) × CanReach n b' f

round_exact :
    (b : ℕ) → b ≤ basefee_limit → add_u128 (mul_u128 b multiplier / divisor) 1 ≡ next_basefee b
round_exact b h = omega arith

loop_step :
    (n b : ℕ) → b ≤ basefee_limit → max_basefee_loop (suc n) b ≡ max_basefee_loop n (next_basefee b)
unfolding max_basefee_loop
loop_step n b h = ground (arith, round_exact b h)

loop_stop : (n b : ℕ) → basefee_limit < b → max_basefee_loop (suc n) b ≡ none
unfolding max_basefee_loop
loop_stop n b h = ground arith

loop_zero : (b : ℕ) → max_basefee_loop zero b ≡ some b
unfolding max_basefee_loop
loop_zero b = refl

-- A finished loop has made its first round.
loop-suc-eq-some :
    (n b r : ℕ)
    → max_basefee_loop (suc n) b ≡ some r
    → (b ≤ basefee_limit) × (max_basefee_loop n (next_basefee b) ≡ some r)
loop-suc-eq-some n b r h = elim (dec_le b basefee_limit) [
  | yes p ↦ (p, sym (loop_step n b p) ∙ h)
  | no p ↦ absurd (cc (h, loop_stop n b (omega arith)))
]

loop-eq-some :
    (n b r : ℕ)
    → max_basefee_loop n b ≡ some r
    → (r ≡ iterate_basefee n b) × ((k : ℕ) → k < n → iterate_basefee k b ≤ basefee_limit)
loop-eq-some zero b r h = (cc (h, loop_zero b), λ k l. absurd (omega arith))
loop-eq-some (suc n) b r h =
    let (fits, rest) = loop-suc-eq-some n b r h in
    let (e, below) = loop-eq-some n (next_basefee b) r rest in (e, λ k l. below_all fits below k l)
  where
    below_all :
        b ≤ basefee_limit
        → ((k : ℕ) → k < n → iterate_basefee k (next_basefee b) ≤ basefee_limit)
        → (k : ℕ) → k < suc n
        → iterate_basefee k b ≤ basefee_limit
    below_all fits below zero l = fits
    below_all fits below (suc k) l = below k (omega arith)

loop_of_limit :
    (n b : ℕ)
    → ((k : ℕ) → k < n → iterate_basefee k b ≤ basefee_limit)
    → max_basefee_loop n b ≡ some (iterate_basefee n b)
loop_of_limit zero b h = loop_zero b
loop_of_limit (suc n) b h =
    loop_step n b (h zero (omega arith))
    ∙ loop_of_limit n (next_basefee b) (λ k l. h (suc k) (omega arith))

-- `calculate_max_basefee` returns `r` exactly when `r` is what the rounds give over unbounded
-- numbers, and no round but the last result passes `u128::MAX / 1125`. So the wrap-around of the
-- u128 operations is never met.
pub calculate_max_basefee_iff :
    (current block_diff r : ℕ)
    → (calculate_max_basefee current block_diff ≡ some r) ↔ (
        (r ≡ iterate_basefee block_diff current)
        × ((k : ℕ) → k < block_diff → iterate_basefee k current ≤ basefee_limit))
unfolding calculate_max_basefee
calculate_max_basefee_iff c n r =
    (loop-eq-some n c r, λ (e, h). loop_of_limit n c h ∙ ap some (sym e))

covers_from : (n b c f r : ℕ) → b ≤ c → CanReach n b f → max_basefee_loop n c ≡ some r → f ≤ r
covers_from zero b c f r l reach h = let e : c ≡ r = cc (loop_zero c) in omega arith
covers_from (suc n) b c f r l (b', up, reach) h =
    covers_from n b' (next_basefee c) f r (omega arith) reach (loop-suc-eq-some n c r h).1

-- The bound is sound: where each block raises the base fee by an eighth of it at most, or by 1,
-- the fee that is reached after `block_diff` blocks is at most the returned bound.
pub calculate_max_basefee_covers :
    (current block_diff f r : ℕ)
    → CanReach block_diff current f
    → calculate_max_basefee current block_diff ≡ some r
    → f ≤ r
unfolding calculate_max_basefee
calculate_max_basefee_covers c n f r reach h = covers_from n c c f r (omega arith) reach h
