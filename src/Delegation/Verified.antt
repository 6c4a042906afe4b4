-- ===== src/Delegation/Verified.antt =====
-- What the generated messages are (scripts/delegate-sidecar/src/main.rs,
-- scripts/revoke-sidecar/src/main.rs).
use proposer_commitment_netw.Base.{
  ℕ, suc, ◌≡◌, ◌≢◌, refl, ap, true, Option, some, List, [], ◌∷◌, ok, ok_or, ensure, ensured,
  ok_or-some, >>=-eq-ok, ok-injective, append-injective, length, All, arith,
}
use proposer_commitment_netw.Delegation.{
  Bytes, Chain, Action, delegate, revoke, SignedMessage, delegation, revocation, DelegationError,
  BlsLib, new_delegation, new_revocation, delegation_preimage, revocation_preimage,
  delegation_digest, revocation_digest, compute_commit_boost_signing_root, verify_root,
  verify_commit_boost_root, verify_message_signature, eth2_keystore, missing_password, invalid_key,
  invalid_signature,
}
use proposer_commitment_netw.Delegation.Keystores.{
  KeystoreSecret, KeyEntry, Keypair, Keystore, get, keystore_paths, sign_message, sign_keystore,
  sign_keystores, generate_from_keystore,
}
use proposer_commitment_netw.Delegation.Scripts.{Env, verify_all}

-- A signature made with the pair verifies.
abbrev pub IsPair : BlsLib → Keypair → Type 0
IsPair lib kp = (m : Bytes) → lib.verify kp.pk m (lib.sign kp.sk m) ≡ true

-- The two BLS libraries accept the same bytes.
abbrev pub Agree : BlsLib → Type 0
Agree lib =
    ((k : Bytes) → lib.parse_key k ≡ true → lib.reads_key k ≡ true)
    × ((s : Bytes) → lib.parse_signature s ≡ true → lib.reads_signature s ≡ true)

-- The message is for the action and the delegatee.
abbrev pub IsFor : Action → Bytes → SignedMessage → Type 0
IsFor delegate d (delegation m) = m.message.delegatee_pubkey ≡ d
IsFor delegate d (revocation m) = ⊥
IsFor revoke d (delegation m) = ⊥
IsFor revoke d (revocation m) = m.message.delegatee_pubkey ≡ d

module _ (lib : BlsLib) (agree : Agree lib) (chain : Chain) (d : Bytes) where
  sign_message_verifies :
      (kp : Keypair) (action : Action) (m : SignedMessage)
      → IsPair lib kp
      → lib.parse_key kp.pk ≡ true
      → sign_message lib kp d chain action ≡ ok m
      → (verify_message_signature lib m chain ≡ ok tt) × IsFor action d m
  unfolding sign_message verify_message_signature verify_commit_boost_root verify_root
      compute_commit_boost_signing_root new_delegation new_revocation
  sign_message_verifies kp delegate m pair key e =
      let message = new_delegation kp.pk d in
      let (root, r, e1) =
        >>=-eq-ok (compute_commit_boost_signing_root lib (delegation_digest lib message) chain) _
          e in
      let (u, s, e2) =
        >>=-eq-ok (ensure (lib.parse_signature (lib.sign kp.sk root)) invalid_signature) _ e1 in
      rw (← ok-injective {E = DelegationError} e2) (
        rw (agree.1 _ (ensured _ _ u s), ok_or-some _ _ root r, agree.0 _ key, pair root) refl,
        refl,
      )
  sign_message_verifies kp revoke m pair key e =
      let message = new_revocation kp.pk d in
      let (root, r, e1) =
        >>=-eq-ok (compute_commit_boost_signing_root lib (revocation_digest lib message) chain) _
          e in
      let (u, s, e2) =
        >>=-eq-ok (ensure (lib.parse_signature (lib.sign kp.sk root)) invalid_signature) _ e1 in
      rw (← ok-injective {E = DelegationError} e2) (
        rw (agree.1 _ (ensured _ _ u s), ok_or-some _ _ root r, agree.0 _ key, pair root) refl,
        refl,
      )

  module _ (read : Bytes → Option Keystore) (secret : KeystoreSecret)
      (pairs : (path password : Bytes) (ks : Keystore) (kp : Keypair)
        → read path ≡ some ks
        → ks.decrypt_keypair password ≡ some kp
        → IsPair lib kp) where
    sign_keystore_verifies :
        (action : Action) (path : Bytes) (m : SignedMessage)
        → sign_keystore lib read secret d chain action path ≡ ok m
        → (verify_message_signature lib m chain ≡ ok tt) × IsFor action d m
    unfolding sign_keystore
    sign_keystore_verifies action path m e =
        let (ks, r, e1) = >>=-eq-ok (ok_or (read path) eth2_keystore) _ e in
        let (password, p, e2) = >>=-eq-ok (ok_or (get secret ks.pubkey) missing_password) _ e1 in
        let (kp, k, e3) = >>=-eq-ok (ok_or (ks.decrypt_keypair password) eth2_keystore) _ e2 in
        let (u, s, e4) = >>=-eq-ok (ensure (lib.parse_key kp.pk) invalid_key) _ e3 in
        sign_message_verifies kp action m
          (pairs path password ks kp (ok_or-some _ _ ks r) (ok_or-some _ _ kp k)) (ensured _ _ u s)
          e4

    sign_keystores_verify :
        (env : Env) (action : Action) (paths : List Bytes) (ms : List SignedMessage)
        → sign_keystores lib read secret d chain action paths ≡ ok ms
        → (verify_all lib env ms chain ≡ ok tt)
          × All (IsFor action d) ms
          × (length ms ≡ length paths)
    unfolding sign_keystores verify_all
    sign_keystores_verify env action [] ms e =
        let same = ok-injective {E = DelegationError} e in rw (← same) (refl, tt, refl)
    sign_keystores_verify env action (path ∷ paths) ms e =
        let (m, h, e1) = >>=-eq-ok (sign_keystore lib read secret d chain action path) _ e in
        let (rest, r, e2) = >>=-eq-ok (sign_keystores lib read secret d chain action paths) _ e1 in
        let same = ok-injective {E = DelegationError} e2 in
        let (v, f) = sign_keystore_verifies action path m h in
        let (vs, fs, n) = sign_keystores_verify env action paths rest r in
        rw (← same, v) (vs, (f, fs), ap suc n)

    -- If the pairs in the keystores are key pairs and the two BLS libraries accept the same bytes, then
    -- the messages that are generated verify on the chain that they were signed for; there is one for each
    -- keystore file that was found, for the given action and delegatee.
    pub generate_from_keystore_verifies :
        (env : Env) (keys : Option (List (Option KeyEntry))) (action : Action)
        (ms : List SignedMessage)
        → generate_from_keystore lib keys read secret d chain action ≡ ok ms
        → (paths : List Bytes) × (keystore_paths keys ≡ ok paths)
          × (length ms ≡ length paths)
          × All (IsFor action d) ms
          × (verify_all lib env ms chain ≡ ok tt)
    unfolding generate_from_keystore
    generate_from_keystore_verifies env keys action ms e =
        let (paths, p, e1) = >>=-eq-ok (keystore_paths keys) _ e in
        let (v, f, n) = sign_keystores_verify env action paths ms e1 in (paths, p, n, f, v)

abbrev head_or : ℕ → Bytes → ℕ
head_or n [] = n
head_or n (x ∷ xs) = x

-- The hashed bytes of a delegation determine both keys, if the validators' have the same length,
-- and are never those of a revocation.
pub preimages_determine :
    (v w d e : Bytes)
    → length v ≡ length w
    → (delegation_preimage (new_delegation v d) ≡ delegation_preimage (new_delegation w e)
        → (v ≡ w) × (d ≡ e))
      × (delegation_preimage (new_delegation v d) ≢ revocation_preimage (new_revocation w e))
unfolding new_delegation new_revocation
preimages_determine v w d e l = (
  λ h. append-injective v w d e l cc,
  λ h. let first : ◌≡◌ {A = ℕ} 0 1 = ap (head_or 0) h in omega arith,
)
