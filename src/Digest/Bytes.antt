-- ===== src/Digest/Bytes.antt =====
-- Numbers as bytes: `to_le_bytes` and `to_be_bytes` of the unsigned words.
use proposer_commitment_netw.Base.{
  ℕ, zero, suc, ◌+◌, ◌*◌, ◌/◌, ◌%◌, ◌≡◌, refl, List, [], ◌∷◌, ◌++◌, length, length-append, arith,
}

-- The low `k` bytes of a number.
abbrev pub to_le_bytes : ℕ → ℕ → List ℕ
to_le_bytes zero n = []
to_le_bytes (suc k) n = n % 256 ∷ to_le_bytes k (n / 256)

abbrev pub to_be_bytes : ℕ → ℕ → List ℕ
to_be_bytes zero n = []
to_be_bytes (suc k) n = to_be_bytes k (n / 256) ++ n % 256 ∷ []

abbrev pub from_le_bytes : List ℕ → ℕ
from_le_bytes [] = 0
from_le_bytes (b ∷ bs) = b + 256 * from_le_bytes bs

-- `from_be_bytes`, after the bytes that `acc` stands for.
abbrev pub from_be_bytes : ℕ → List ℕ → ℕ
from_be_bytes acc [] = acc
from_be_bytes acc (b ∷ bs) = from_be_bytes (acc * 256 + b) bs

-- `n` has at most `k` bytes.
abbrev pub Fits : ℕ → ℕ → Type 0
Fits zero n = n ≡ 0
Fits (suc k) n = Fits k (n / 256)

pub le_round_trip : (k n : ℕ) → Fits k n → from_le_bytes (to_le_bytes k n) ≡ n
le_round_trip zero n h = omega (arith, h)
le_round_trip (suc k) n h = omega (arith, le_round_trip k (n / 256) h)

from_be-append :
    (acc : ℕ) (xs : List ℕ) (b : ℕ)
    → from_be_bytes acc (xs ++ b ∷ []) ≡ from_be_bytes acc xs * 256 + b
from_be-append acc [] b = refl
from_be-append acc (x ∷ xs) b = from_be-append (acc * 256 + x) xs b

pub be_round_trip : (k n : ℕ) → Fits k n → from_be_bytes 0 (to_be_bytes k n) ≡ n
be_round_trip zero n h = omega (arith, h)
be_round_trip (suc k) n h =
    omega (arith, from_be-append 0 (to_be_bytes k (n / 256)) (n % 256), be_round_trip k (n / 256) h)

pub length-to_be : (k n : ℕ) → length (to_be_bytes k n) ≡ k
length-to_be zero n = refl
length-to_be (suc k) n =
    omega (arith, length-append (to_be_bytes k (n / 256)) (n % 256 ∷ []), length-to_be k (n / 256))

pub length-to_le : (k n : ℕ) → length (to_le_bytes k n) ≡ k
length-to_le zero n = refl
length-to_le (suc k) n = omega (arith, length-to_le k (n / 256))
