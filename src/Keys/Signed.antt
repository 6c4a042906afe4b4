-- ===== src/Keys/Signed.antt =====
-- For which keys the gateway signs (interstate-gateway/src/keystores/mod.rs).
use proposer_commitment_netw.Base.{
  ◌≡◌, refl, ap, ◌↔◌, ◌⊎◌, inl, inr, true, Option, none, some, List, [], ◌∷◌, ok, ok_or, All,
  bytes_eq, bytes_eq_refl, eq_of_bytes_eq, >>=-eq-ok, Bool-cases, arith,
}
use proposer_commitment_netw.Config.{commit_boost_domain}
use proposer_commitment_netw.Delegation.{Bytes}
use proposer_commitment_netw.Delegation.Keystores.{Keypair}
use proposer_commitment_netw.Keys.{
  Keystores, unknown_public_key, SignLib, find_pair, sign_root, sign_commit_boost_root,
}

-- The keystores hold the key.
abbrev pub KnownIn : List Keypair → Bytes → Type 0
KnownIn [] key = ⊥
KnownIn (kp ∷ pairs) key = (kp.pk ≡ key) ⊎ KnownIn pairs key

-- A signature made with a pair verifies, and has its length.
abbrev pub SignsWell : SignLib → Keypair → Type 0
SignsWell lib kp =
    ((m : Bytes) → lib.verify kp.pk m (lib.sign kp.sk m) ≡ true)
    × ((m : Bytes) → lib.is_signature (lib.sign kp.sk m) ≡ true)

find_pair-found :
    (lib : SignLib) (key : Bytes) (pairs : List Keypair)
    → All (SignsWell lib) pairs
    → KnownIn pairs key
    → (kp : Keypair) × (find_pair key pairs ≡ some kp) × (kp.pk ≡ key) × SignsWell lib kp
unfolding find_pair
find_pair-found lib key [] a h = absurd h
find_pair-found lib key (kp ∷ pairs) (w, a) h = elim (Bool-cases (bytes_eq kp.pk key)) [
  | inl e ↦ (kp, rw e refl, eq_of_bytes_eq kp.pk key e, w)
  | inr e ↦ elim h [
    | inl same ↦ absurd (cc (e, bytes_eq_refl key, ap (λ x. bytes_eq x key) same))
    | inr later ↦ rw e (find_pair-found lib key pairs a later)
  ]
]

find_pair-known :
    (key : Bytes) (pairs : List Keypair) (kp : Keypair)
    → find_pair key pairs ≡ some kp
    → KnownIn pairs key
unfolding find_pair
find_pair-known key [] kp h = cc
find_pair-known key (p ∷ pairs) kp h = elim (Bool-cases (bytes_eq p.pk key)) [
  | inl e ↦ inl (eq_of_bytes_eq p.pk key e)
  | inr e ↦ inr (find_pair-known key pairs kp (ground arith))
]

unwrapped_ok :
    (o : Option Keypair) (kp : Keypair) → ok_or o unknown_public_key ≡ ok kp → o ≡ some kp
unwrapped_ok (some x) kp h = cc
unwrapped_ok none kp h = cc

-- If its pairs sign well, the keystores sign a root exactly for the keys that they hold, and the
-- signature verifies under that key, over the root in the commit-boost domain of the chain.
pub sign_commit_boost_root_iff :
    (lib : SignLib) (k : Keystores) (root key : Bytes)
    → All (SignsWell lib) k.keypairs
    → ((signature : Bytes) × (sign_commit_boost_root lib k root key ≡ ok signature)
        × (lib.verify key
              (lib.compute_signing_root root (commit_boost_domain lib.fork_data_root k.chain))
              signature
            ≡ true))
      ↔ KnownIn k.keypairs key
unfolding sign_commit_boost_root sign_root
sign_commit_boost_root_iff lib k root key a = (
  λ (signature, e, _).
      let (kp, f, _) = >>=-eq-ok (ok_or (find_pair key k.keypairs) unknown_public_key) _ e in
      find_pair-known key k.keypairs kp (unwrapped_ok _ kp f),
  λ h.
      let (kp, f, same, (verifies, fits)) = find_pair-found lib key k.keypairs a h in
      let message =
        lib.compute_signing_root root (commit_boost_domain lib.fork_data_root k.chain) in
      (lib.sign kp.sk message, rw (f, fits message) refl, rw same at (verifies message)),
)
