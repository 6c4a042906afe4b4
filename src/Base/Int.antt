-- ===== src/Base/Int.antt =====
-- Signed machine words (`isize`), over the native numbers.
use Prim.Native.Nat.{ℕ, suc, ◌+◌, ◌-◌, ◌^◌, ◌≤◌}
use mathlib.Core.Bool.{Bool}
use native.Mathlib.Omega.{arith}
use proposer_commitment_netw.Base.Tests.{if◌then◌else◌, ltb, leb}

-- `negsuc n` is -(n + 1).
pub data ℤ : Type 0 where
  pos : ℕ → ℤ
  negsuc : ℕ → ℤ

abbrev pub pos_part : ℤ → ℕ
pos_part (pos n) = n
pos_part (negsuc n) = 0

abbrev pub neg_part : ℤ → ℕ
neg_part (pos n) = 0
neg_part (negsuc n) = suc n

abbrev pub sub_ℕ : ℕ → ℕ → ℤ
sub_ℕ a b = if leb b a then pos (a - b) else negsuc (b - a - 1)

abbrev pub ltb_ℤ : ℤ → ℤ → Bool
ltb_ℤ a b = ltb (pos_part a + neg_part b) (pos_part b + neg_part a)

abbrev pub isize_max : ℕ
isize_max = 2 ^ 63 - 1

-- `isize::saturating_add`: the sum, cut to -2^63 .. 2^63 - 1.
abbrev pub saturating_add : ℤ → ℤ → ℤ
saturating_add a b =
    let s = sub_ℕ (pos_part a + pos_part b) (neg_part a + neg_part b) in
    if ltb isize_max (pos_part s)
    then pos isize_max
    else if ltb (2 ^ 63) (neg_part s)
    then negsuc isize_max
    else s

abbrev pub IsIsize : ℤ → Type 0
IsIsize z = (pos_part z ≤ isize_max) × (neg_part z ≤ 2 ^ 63)

pub saturating_add-IsIsize : (a b : ℤ) → IsIsize (saturating_add a b)
saturating_add-IsIsize a b = ground arith
