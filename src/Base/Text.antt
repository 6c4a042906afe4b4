-- ===== src/Base/Text.antt =====
-- Texts as lists of code points: `contains`, `trim`, `split` and `parse` of the Rust library.
use Prim.Native.Char.{code}
use Prim.Native.Nat.{ℕ, ◌+◌, ◌-◌, ◌*◌}
use Prim.Native.String.{String}
use mathlib.Core.Bool.{Bool, true, false, ◌&&◌, ◌||◌}
use mathlib.Core.Option.{Option, none, some}
use mathlib.Core.List.{List, [], ◌∷◌}
use proposer_commitment_netw.Base.Tests.{ltb, leb, ◌==◌, if◌then◌else◌}
use proposer_commitment_netw.Base.Words.{u64_mod}

abbrev pub Text : Type 0
Text = List ℕ

abbrev pub codes : String → Text
codes String.[] = []
codes (String.◌∷◌ c s) = code c ∷ codes s

unfoldable pub starts_with : Text → Text → Bool
starts_with [] text = true
starts_with (c ∷ cs) [] = false
starts_with (c ∷ cs) (d ∷ ds) = c == d && starts_with cs ds

-- `text.contains(part)`
unfoldable pub contains : Text → Text → Bool
unfolding starts_with
contains part [] = starts_with part []
contains part (c ∷ cs) = starts_with part (c ∷ cs) || contains part cs

-- The digits of a u64, read after `n`; `none` on another character or an overflow.
unfoldable pub digits : ℕ → Text → Option ℕ
digits n [] = some n
digits n (c ∷ cs) =
    let m = n * 10 + (c - 48) in
    let rest = digits m cs in if leb 48 c && leb c 57 && ltb m u64_mod then rest else none

abbrev pub nonempty_digits : Text → Option ℕ
nonempty_digits [] = none
nonempty_digits (c ∷ cs) = digits 0 (c ∷ cs)

-- `str::parse::<u64>`, which allows a plus sign in front.
unfoldable pub parse_u64 : Text → Option ℕ
unfolding digits
parse_u64 [] = none
parse_u64 (c ∷ cs) = if c == 43 then nonempty_digits cs else nonempty_digits (c ∷ cs)

-- `text.split(c)`
abbrev pub onto_first : ℕ → List Text → List Text
onto_first c [] = (c ∷ []) ∷ []
onto_first c (part ∷ parts) = (c ∷ part) ∷ parts

unfoldable pub split : ℕ → Text → List Text
split at [] = [] ∷ []
split at (c ∷ cs) = let rest = split at cs in if c == at then [] ∷ rest else onto_first c rest

abbrev pub dots : Text
dots = 46 ∷ 46 ∷ []

-- The first part of `text.split("..")`.
unfoldable pub before_dots : Text → Text
unfolding starts_with
before_dots [] = []
before_dots (c ∷ cs) =
    let rest = before_dots cs in if starts_with dots (c ∷ cs) then [] else c ∷ rest

abbrev pub rest_of : Text → Text
rest_of [] = []
rest_of (c ∷ cs) = cs

-- What stands behind the first `..`.
unfoldable pub after_dots : Text → Option Text
unfolding starts_with
after_dots [] = none
after_dots (c ∷ cs) =
    let rest = after_dots cs in if starts_with dots (c ∷ cs) then some (rest_of cs) else rest

abbrev pub is_whitespace : ℕ → Bool
is_whitespace c =
    (leb 9 c && leb c 13)
    || c == 32
    || c == 133
    || c == 160
    || c == 5760
    || (leb 8192 c && leb c 8202)
    || c == 8232
    || c == 8233
    || c == 8239
    || c == 8287
    || c == 12288

unfoldable pub trim_start : Text → Text
trim_start [] = []
trim_start (c ∷ cs) = let rest = trim_start cs in if is_whitespace c then rest else c ∷ cs

abbrev pub unless_empty : ℕ → Text → Text
unless_empty c [] = if is_whitespace c then [] else c ∷ []
unless_empty c (d ∷ ds) = c ∷ d ∷ ds

unfoldable pub trim_end : Text → Text
trim_end [] = []
trim_end (c ∷ cs) = unless_empty c (trim_end cs)

-- `text.trim()`
unfoldable pub trim : Text → Text
unfolding trim_start trim_end
trim text = trim_end (trim_start text)
