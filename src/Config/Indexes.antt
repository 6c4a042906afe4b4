-- ===== src/Config/Indexes.antt =====
-- The indexes that `ValidatorIndexes::from_str` reads
-- (interstate-gateway/src/config/group_config.rs).
use proposer_commitment_netw.Base.{
  ok_or-some, ℕ, zero, suc, ◌+◌, ◌-◌, ◌≤◌, ◌<◌, ◌≡◌, refl, ◌↔◌, ◌⊎◌, inl, inr, Bool, true, false,
  ◌||◌, some, List, [], ◌∷◌, ◌++◌, ok, ok_or, any_of-append, >>=-eq-ok, ok-injective, Bool-cases,
  arith,
}
use proposer_commitment_netw.Base.Text.{
  Text, contains, split, before_dots, after_dots, dots, parse_u64, trim,
}
use proposer_commitment_netw.Config.{
  ValidatorIndexes, ReportError, parse_int, invalid_range, has_index, range, read_part, read_parts,
  from_str,
}

has_index-range :
    (start n i : ℕ) → (has_index (range start n) i ≡ true) ↔ ((start ≤ i) × (i < start + n))
unfolding has_index range
has_index-range start zero i = (λ h. cc, λ h. absurd (omega arith))
has_index-range start (suc n) i =
    let (to, from) = has_index-range (suc start) n i in
    (λ h. ground (arith, to), λ h. ground (arith, from))

-- A part names an index: the number itself, or a range from one number to another, both included.
abbrev pub NamesIf : Bool → ℕ → Text → Type 0
NamesIf true i part =
    (start : ℕ) × (rest : Text) × (last : ℕ) × (parse_u64 (before_dots part) ≡ some start)
    × (after_dots part ≡ some rest)
    × (parse_u64 (before_dots rest) ≡ some last)
    × (start ≤ i)
    × (i ≤ last)
NamesIf false i part = parse_u64 part ≡ some i

abbrev pub Names : ℕ → Text → Type 0
Names i part = NamesIf (contains dots part) i part

abbrev pub NamedBySome : ℕ → List Text → Type 0
NamedBySome i [] = ⊥
NamedBySome i (part ∷ parts) = Names i part ⊎ NamedBySome i parts

read_part-Names :
    (i : ℕ) (part : Text) (xs : List ℕ)
    → read_part part ≡ ok xs
    → (has_index xs i ≡ true) ↔ Names i part
unfolding read_part has_index
read_part-Names i part xs e = elim (Bool-cases (contains dots part)) [
  | inl d ↦
      let e0 = rw d at e in
      let (start, s, e1) = >>=-eq-ok (ok_or (parse_u64 (before_dots part)) parse_int) _ e0 in
      let (rest, r, e2) = >>=-eq-ok (ok_or (after_dots part) invalid_range) _ e1 in
      let (last, l, e3) = >>=-eq-ok (ok_or (parse_u64 (before_dots rest)) parse_int) _ e2 in
      let s' = ok_or-some _ _ start s in
      let r' = ok_or-some _ _ rest r in
      let l' = ok_or-some _ _ last l in
      let (to, from) = has_index-range start (suc last - start) i in
      rw (d, ← ok-injective {E = ReportError} e3)
        (
          (λ h. let (lo, hi) = to h in (start, rest, last, s', r', l', lo, omega arith)),
          λ (start', rest', last', s'', r'', l'', lo, hi).
              let same_start : start' ≡ start = ground arith in
              let same_rest : rest' ≡ rest = ground arith in
              let same_last : last' ≡ last = ground arith in from (omega arith, omega arith),
        )
  | inr d ↦
      let e0 = rw d at e in
      let (index, s, e1) = >>=-eq-ok (ok_or (parse_u64 part) parse_int) _ e0 in
      let s' = ok_or-some _ _ index s in
      rw (d, ← ok-injective {E = ReportError} e1) (λ h. ground arith, λ h. ground arith)
]

has_index-append :
    (xs ys : List ℕ) (i : ℕ) → has_index (xs ++ ys) i ≡ (has_index xs i || has_index ys i)
unfolding has_index
has_index-append xs ys i = any_of-append _ xs ys

no_index : (i : ℕ) → ¬ (has_index [] i ≡ true)
unfolding has_index
no_index i h = cc

read_parts-Names :
    (i : ℕ) (parts : List Text) (xs : List ℕ)
    → read_parts parts ≡ ok xs
    → (has_index xs i ≡ true) ↔ NamedBySome i parts
unfolding read_parts
read_parts-Names i [] xs e =
    rw (← ok-injective {E = ReportError} e) (λ h. no_index i h, λ h. absurd h)
read_parts-Names i (part ∷ parts) xs e =
    let (here, h, e1) = >>=-eq-ok (read_part part) _ e in
    let (rest, r, e2) = >>=-eq-ok (read_parts parts) _ e1 in
    let (to, from) = read_part-Names i part here h in
    let (tos, froms) = read_parts-Names i parts rest r in
    let joined = has_index-append here rest i in
    rw (← ok-injective {E = ReportError} e2, joined)
      (
        (λ t. elim (Bool-cases (has_index here i)) [
          | inl y ↦ inl (to y)
          | inr n ↦ inr (tos (ground arith))
        ]),
        (λ s. elim s [ inl y ↦ rw (from y) refl | inr y ↦ ground (arith, froms y) ]),
      )

-- A text that can be read gives the indexes that its comma-separated parts name: the numbers, and
-- the ranges with both their ends.
pub from_str_iff :
    (s : Text) (indexes : ValidatorIndexes) (i : ℕ)
    → from_str s ≡ ok indexes
    → (has_index indexes i ≡ true) ↔ NamedBySome i (split 44 (trim s))
unfolding from_str
from_str_iff s indexes i e = read_parts-Names i (split 44 (trim s)) indexes e
