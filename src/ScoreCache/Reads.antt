-- ===== src/ScoreCache/Reads.antt =====
-- The invariant of the score cache, and what can be read after an operation
-- (interstate-gateway/src/utils/score_cache.rs).
use proposer_commitment_netw.Base.{
  ℕ, ◌≤◌, ◌<◌, ◌≡◌, refl, ◌≢◌, ◌⊎◌, inl, inr, Bool, Option, some, [], ◌∷◌, length, if◌then◌else◌,
  ◌==◌, Bool-cases, arith,
}
use mathlib.Core.Option
use proposer_commitment_netw.Base.Assoc
use proposer_commitment_netw.Base.Assoc.{
  Assoc, Distinct, lookup-insert, lookup-modify_ne, lookup-modify_self, modify_absent,
  length-modify, length-insert-le, Distinct-insert, Distinct-modify, Distinct-retain, lookup-retain,
}
use proposer_commitment_netw.Base.Int.{ℤ, IsIsize, saturating_add-IsIsize}
use proposer_commitment_netw.ScoreCache
use proposer_commitment_netw.ScoreCache.{ScoreCache, value_of, rescore, clear_stales, is_fresh}
use proposer_commitment_netw.ScoreCache.Eviction.{Evicts, clear_stales_ends}

module _ {ℓ} {V : Type ℓ} where
  abbrev pub ScoresFit : Assoc (V × ℤ) → Type 0
  ScoresFit [] = Unit
  ScoresFit ((_, (_, score)) ∷ m) = IsIsize score × ScoresFit m

  -- No key twice, no more entries than the bound, and every score an `isize`.
  pub record IsValid (c : ScoreCache V) : Type 0 where
    pub distinct : Distinct c.map
    pub bounded : length c.map ≤ c.max_len
    pub scores : ScoresFit c.map

  ScoresFit-modify :
      (k : ℕ) (d : ℤ) (f : V → V) (m : Assoc (V × ℤ))
      → ScoresFit m
      → ScoresFit (Assoc.modify k (rescore d f) m)
  unfolding Assoc.modify
  ScoresFit-modify k d f [] h = tt
  ScoresFit-modify k d f ((j, (v, score)) ∷ m) (fit, h) = elim (Bool-cases (j == k)) [
    | inl e ↦ rw e (saturating_add-IsIsize score d, h)
    | inr e ↦ rw e (fit, ScoresFit-modify k d f m h)
  ]

  ScoresFit-retain :
      (p : ℕ → V × ℤ → Bool) (m : Assoc (V × ℤ)) → ScoresFit m → ScoresFit (Assoc.retain p m)
  unfolding Assoc.retain
  ScoresFit-retain p [] h = tt
  ScoresFit-retain p ((j, (v, score)) ∷ m) (fit, h) = elim (Bool-cases (p j (v, score))) [
    | inl e ↦ rw e (fit, ScoresFit-retain p m h)
    | inr e ↦ rw e (ScoresFit-retain p m h)
  ]

  ScoresFit-insert :
      (k : ℕ) (v : V) (s : ℤ) (m : Assoc (V × ℤ))
      → IsIsize s
      → ScoresFit m
      → ScoresFit (Assoc.insert k (v, s) m)
  unfolding Assoc.insert
  ScoresFit-insert k v s [] i h = (i, tt)
  ScoresFit-insert k v s ((j, (w, score)) ∷ m) i (fit, h) = elim (Bool-cases (j == k)) [
    | inl e ↦ rw e (i, h)
    | inr e ↦ rw e (fit, ScoresFit-insert k v s m i h)
  ]

  value-modify :
      (k j : ℕ) (d : ℤ) (f : V → V) (m : Assoc (V × ℤ))
      → value_of (Assoc.lookup j (Assoc.modify k (rescore d f) m)) ≡ (
          if k == j
          then Option.map f (value_of (Assoc.lookup j m))
          else value_of (Assoc.lookup j m))
  unfolding Assoc.lookup Assoc.modify
  value-modify k j d f [] = ground arith
  value-modify k j d f ((i, (v, score)) ∷ m) = ground (arith, value-modify k j d f m)

  -- A value that is found after stale entries are dropped was there before.
  pub value-retain :
      (p : ℕ → V × ℤ → Bool) (j : ℕ) (w : V) (m : Assoc (V × ℤ))
      → Distinct m
      → value_of (Assoc.lookup j (Assoc.retain p m)) ≡ some w
      → value_of (Assoc.lookup j m) ≡ some w
  value-retain p j w m d h = ground (arith, lookup-retain p j m d)

  module _ (G I U : ℤ) (c : ScoreCache V) where
    -- On a valid cache `get` returns the stored value, changes no value, and leaves a valid cache.
    pub get_reads :
        (k : ℕ)
        → IsValid c
        → ((ScoreCache.get G I U c k).1 ≡ value_of (Assoc.lookup k c.map))
          × IsValid (ScoreCache.get G I U c k).0
          × ((j : ℕ)
              → value_of (Assoc.lookup j (ScoreCache.get G I U c k).0.map)
                ≡ value_of (Assoc.lookup j c.map))
    unfolding ScoreCache.get
    get_reads k h = (
      refl,
      record {
        distinct = Distinct-modify k _ c.map h.distinct;
        bounded = omega (arith, length-modify k (rescore G (λ v. v)) c.map, h.bounded);
        scores = ScoresFit-modify k G (λ v. v) c.map h.scores;
      },
      λ j. ground (arith, value-modify k j G (λ v. v) c.map),
    )

    -- `get_mut` applies the caller's write to the value of its key, and to no other.
    pub get_mut_writes :
        (k : ℕ) (f : V → V)
        → IsValid c
        → IsValid (ScoreCache.get_mut G I U c k f).0
          × ((j : ℕ)
              → value_of (Assoc.lookup j (ScoreCache.get_mut G I U c k f).0.map) ≡ (
                  if k == j
                  then Option.map f (value_of (Assoc.lookup j c.map))
                  else value_of (Assoc.lookup j c.map)))
    unfolding ScoreCache.get_mut
    get_mut_writes k f h = (
      record {
        distinct = Distinct-modify k _ c.map h.distinct;
        bounded = omega (arith, length-modify k (rescore U f) c.map, h.bounded);
        scores = ScoresFit-modify k U f c.map h.scores;
      },
      λ j. value-modify k j U f c.map,
    )

    evicted-IsValid :
        (r : Assoc (V × ℤ))
        → IsValid c
        → length r < c.max_len
        → (r ≡ c.map) ⊎ Evicts c.max_len 0 c.map r
        → Distinct r
          × ScoresFit r
          × ((j : ℕ) (w : V)
              → value_of (Assoc.lookup j r) ≡ some w
              → value_of (Assoc.lookup j c.map) ≡ some w)
    evicted-IsValid r h room (inl e) = rw e (h.distinct, h.scores, λ j w found. found)
    evicted-IsValid r h room (inr e) = rw e.result (
      Distinct-retain _ c.map h.distinct,
      ScoresFit-retain _ c.map h.scores,
      λ j w found. value-retain _ j w c.map h.distinct found,
    )

    -- On a valid cache with room for an entry, and with an `isize` for the score, `insert` returns:
    -- the cache is valid, so never above its bound, holds the value under its key, and every other
    -- value in it was there before.
    pub insert_keeps :
        (k : ℕ) (v : V)
        → 0 < c.max_len
        → IsIsize I
        → IsValid c
        → (c' : ScoreCache V) × (old : Option V) × (ScoreCache.insert G I U c k v ≡ some (c', old))
          × IsValid c'
          × (value_of (Assoc.lookup k c'.map) ≡ some v)
          × ((j : ℕ) (w : V)
              → j ≢ k
              → value_of (Assoc.lookup j c'.map) ≡ some w
              → value_of (Assoc.lookup j c.map) ≡ some w)
    unfolding ScoreCache.insert
    insert_keeps k v room fits h =
        let (r, e, below, how) = clear_stales_ends c room in
        let (distinct, scores, old) = evicted-IsValid r h below how in
        (
          record c { map = Assoc.insert k (v, I) r },
          value_of (Assoc.lookup k r),
          rw e,
          record {
            distinct = Distinct-insert k _ r distinct;
            bounded = omega (arith, length-insert-le k (v, I) r, below);
            scores = ScoresFit-insert k v I r fits scores;
          },
          ground (arith, lookup-insert k k (v, I) r),
          λ j w other found. old j w (ground (arith, lookup-insert k j (v, I) r)),
        )
