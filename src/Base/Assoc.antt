-- ===== src/Base/Assoc.antt =====
-- `HashMap` with numbers for keys (slots, addresses, hashes), as an association list: a key that
-- is inserted anew takes the place of the old entry. The iteration order of the table is that of
-- the list; where the code iterates, the theorems are for every list.
use Prim.Native.Nat.{ℕ, ◌+◌, ◌≤◌}
use mathlib.Core.Path.{◌≡◌, refl}
use mathlib.Core.Logic.{inl, inr, ◌≢◌}
use mathlib.Core.Bool.{true, false, Bool}
use mathlib.Core.Option.{Option, none, some}
use mathlib.Core.List.{List, [], ◌∷◌}
use native.Mathlib.Omega.{arith}
use proposer_commitment_netw.Base.Tests.{Bool-cases, ==→eq, if◌then◌else◌, ◌==◌}
use proposer_commitment_netw.Base.Lists.{length}

abbrev pub Assoc {ℓ} : Type ℓ → Type ℓ
Assoc V = List (ℕ × V)

module _ {ℓ} {V : Type ℓ} where
  unfoldable pub lookup : ℕ → Assoc V → Option V
  lookup key [] = none
  lookup key ((i, value) ∷ rest) = if i == key then some value else lookup key rest

  unfoldable pub insert : ℕ → V → Assoc V → Assoc V
  insert key value ((i, old) ∷ rest) =
      if i == key then (key, value) ∷ rest else (i, old) ∷ insert key value rest
  insert key value [] = (key, value) ∷ []

  -- `remove`, without the removed value, which `lookup` gives.
  unfoldable pub remove : ℕ → Assoc V → Assoc V
  remove k [] = []
  remove k ((j, w) ∷ m) = if j == k then remove k m else (j, w) ∷ remove k m

  -- `get_mut` followed by a write.
  unfoldable pub modify : ℕ → (V → V) → Assoc V → Assoc V
  modify k f [] = []
  modify k f ((j, w) ∷ m) = if j == k then (j, f w) ∷ m else (j, w) ∷ modify k f m

  unfoldable pub retain : (ℕ → V → Bool) → Assoc V → Assoc V
  retain p [] = []
  retain p ((j, w) ∷ m) = if p j w then (j, w) ∷ retain p m else retain p m

  abbrev pub absent : ℕ → Assoc V → Bool
  absent k [] = true
  absent k ((j, _) ∷ m) = if j == k then false else absent k m

  abbrev pub keys : Assoc V → List ℕ
  keys [] = []
  keys ((j, w) ∷ m) = j ∷ keys m

  pub lookup-insert :
      (key other : ℕ) (value : V) (m : Assoc V)
      → lookup other (insert key value m) ≡ (if key == other then some value else lookup other m)
  unfolding insert lookup
  lookup-insert key other value ((i, old) ∷ rest) =
      ground (arith, lookup-insert key other value rest)
  lookup-insert key other value [] = refl

  pub lookup-remove :
      (k j : ℕ) (m : Assoc V) → lookup j (remove k m) ≡ (if k == j then none else lookup j m)
  unfolding lookup remove
  lookup-remove k j [] = ground arith
  lookup-remove k j ((i, w) ∷ m) = ground (arith, lookup-remove k j m)

  pub lookup-modify_ne :
      (k j : ℕ) (f : V → V) (m : Assoc V) → k ≢ j → lookup j (modify k f m) ≡ lookup j m
  unfolding lookup modify
  lookup-modify_ne k j f [] h = refl
  lookup-modify_ne k j f ((i, w) ∷ m) h = ground (arith, lookup-modify_ne k j f m)

  pub lookup-modify_self :
      (k : ℕ) (f : V → V) (v : V) (m : Assoc V)
      → lookup k m ≡ some v
      → lookup k (modify k f m) ≡ some (f v)
  unfolding lookup modify
  lookup-modify_self k f v [] h = cc
  lookup-modify_self k f v ((i, w) ∷ m) h = ground (arith, lookup-modify_self k f v m)

  pub modify_absent : (k : ℕ) (f : V → V) (m : Assoc V) → lookup k m ≡ none → modify k f m ≡ m
  unfolding lookup modify
  modify_absent k f [] h = refl
  modify_absent k f ((i, w) ∷ m) h = ground (arith, modify_absent k f m)

  pub length-modify : (k : ℕ) (f : V → V) (m : Assoc V) → length (modify k f m) ≡ length m
  unfolding modify
  length-modify k f [] = refl
  length-modify k f ((i, w) ∷ m) = ground (arith, length-modify k f m)

  pub length-insert-le : (k : ℕ) (v : V) (m : Assoc V) → length (insert k v m) ≤ length m + 1
  unfolding insert
  length-insert-le k v [] = omega arith
  length-insert-le k v ((i, w) ∷ m) = ground (arith, length-insert-le k v m)

  pub length-retain-le : (p : ℕ → V → Bool) (m : Assoc V) → length (retain p m) ≤ length m
  unfolding retain
  length-retain-le p [] = omega arith
  length-retain-le p ((i, w) ∷ m) = ground (arith, length-retain-le p m)

  -- No key has two entries, as in a table.
  abbrev pub Distinct : Assoc V → Type 0
  Distinct [] = Unit
  Distinct ((k, _) ∷ m) = (absent k m ≡ true) × Distinct m

  -- What is found after `retain`.
  abbrev pub kept : (ℕ → V → Bool) → ℕ → Option V → Option V
  kept p k none = none
  kept p k (some v) = if p k v then some v else none

  pub absent-retain :
      (p : ℕ → V → Bool) (k : ℕ) (m : Assoc V) → absent k m ≡ true → absent k (retain p m) ≡ true
  unfolding retain
  absent-retain p k [] h = refl
  absent-retain p k ((j, w) ∷ m) h = ground (arith, absent-retain p k m)

  pub absent-modify :
      (i k : ℕ) (f : V → V) (m : Assoc V) → absent k m ≡ true → absent k (modify i f m) ≡ true
  unfolding modify
  absent-modify i k f [] h = refl
  absent-modify i k f ((j, w) ∷ m) h = ground (arith, absent-modify i k f m)

  pub absent-insert :
      (i k : ℕ) (v : V) (m : Assoc V) → absent k m ≡ true → i ≢ k → absent k (insert i v m) ≡ true
  unfolding insert
  absent-insert i k v [] h n = ground arith
  absent-insert i k v ((j, w) ∷ m) h n = ground (arith, absent-insert i k v m)

  pub absent-remove : (i k : ℕ) (m : Assoc V) → absent k m ≡ true → absent k (remove i m) ≡ true
  unfolding remove
  absent-remove i k [] h = refl
  absent-remove i k ((j, w) ∷ m) h = ground (arith, absent-remove i k m)

  pub lookup_of_absent : (k : ℕ) (m : Assoc V) → absent k m ≡ true → lookup k m ≡ none
  unfolding lookup
  lookup_of_absent k [] h = refl
  lookup_of_absent k ((j, w) ∷ m) h = ground (arith, lookup_of_absent k m)

  pub Distinct-retain : (p : ℕ → V → Bool) (m : Assoc V) → Distinct m → Distinct (retain p m)
  unfolding retain
  Distinct-retain p [] d = tt
  Distinct-retain p ((j, w) ∷ m) (a, d) = elim (Bool-cases (p j w)) [
    | inl e ↦ rw e (absent-retain p j m a, Distinct-retain p m d)
    | inr e ↦ rw e (Distinct-retain p m d)
  ]

  pub Distinct-modify : (k : ℕ) (f : V → V) (m : Assoc V) → Distinct m → Distinct (modify k f m)
  unfolding modify
  Distinct-modify k f [] d = tt
  Distinct-modify k f ((j, w) ∷ m) (a, d) = elim (Bool-cases (j == k)) [
    | inl e ↦ rw e (a, d)
    | inr e ↦ rw e (absent-modify k j f m a, Distinct-modify k f m d)
  ]

  pub Distinct-insert : (k : ℕ) (v : V) (m : Assoc V) → Distinct m → Distinct (insert k v m)
  unfolding insert
  Distinct-insert k v [] d = (refl, tt)
  Distinct-insert k v ((j, w) ∷ m) (a, d) = elim (Bool-cases (j == k)) [
    | inl e ↦ let same : j ≡ k = ==→eq j k e in rw e (rw (← same) a, d)
    | inr e ↦ rw e (absent-insert k j v m a (ground arith), Distinct-insert k v m d)
  ]

  pub Distinct-remove : (k : ℕ) (m : Assoc V) → Distinct m → Distinct (remove k m)
  unfolding remove
  Distinct-remove k [] d = tt
  Distinct-remove k ((j, w) ∷ m) (a, d) = elim (Bool-cases (j == k)) [
    | inl e ↦ rw e (Distinct-remove k m d)
    | inr e ↦ rw e (absent-remove k j m a, Distinct-remove k m d)
  ]

  pub lookup-retain :
      (p : ℕ → V → Bool) (k : ℕ) (m : Assoc V)
      → Distinct m
      → lookup k (retain p m) ≡ kept p k (lookup k m)
  unfolding lookup retain
  lookup-retain p k [] d = refl
  lookup-retain p k ((j, w) ∷ m) (a, d) = ground (
    arith,
    lookup-retain p k m d,
    lookup_of_absent k m,
    absent-retain p k m,
    lookup_of_absent k (retain p m),
  )
