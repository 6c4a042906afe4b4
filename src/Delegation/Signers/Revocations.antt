-- ===== src/Delegation/Signers/Revocations.antt =====
-- What the gateway's remote signer can sign (interstate-gateway/src/delegation/web3signer.rs).
use mathlib.Core.Path.{fun_ext}
use proposer_commitment_netw.Base.{
  ensured, ok_or-some, ◌+◌, ◌≡◌, ◌≢◌, refl, ap, ◌∙◌, some, List, [], ◌∷◌, ok, ◌>>=◌, ensure, ok_or,
  length, arith, >>=-eq-ok, true,
}
use proposer_commitment_netw.Delegation.{
  request_failed, invalid_signature, Bytes, delegate, revoke, SignedMessage, BlsLib, new_revocation,
  revocation_digest,
}
use proposer_commitment_netw.Delegation.Web3Signer
use proposer_commitment_netw.Delegation.Web3Signer.{Web3Signer, trim_hex_prefix, prefixed, key_of}
use proposer_commitment_netw.Delegation.Signers.{
  undecoded_signature, sign_account, sign_accounts, generate,
}

length-trim_hex_prefix :
    (hex trimmed : Bytes) → trim_hex_prefix hex ≡ ok trimmed → length hex ≡ 2 + length trimmed
unfolding trim_hex_prefix
length-trim_hex_prefix [] trimmed h = cc
length-trim_hex_prefix (c ∷ []) trimmed h = cc
length-trim_hex_prefix (c ∷ d ∷ cs) trimmed h = ground arith

module _ (lib : BlsLib) (signer : Web3Signer) where
  -- A signature has 96 bytes, and a text that the signer answers with is not `0x` and 96 characters,
  -- as it is with the 192 of a signature in hex.
  abbrev pub SignsInHex : Type 0
  SignsInHex =
      ((bytes : Bytes) → lib.parse_signature bytes ≡ true → length bytes ≡ 96)
      × ((account root text : Bytes)
          → signer.request_signature account root ≡ some text
          → length text ≢ 98)

  undecoded_signature_fails :
      (account digest signature : Bytes)
      → SignsInHex
      → undecoded_signature lib signer account digest ≢ ok signature
  unfolding undecoded_signature
  undecoded_signature_fails account digest signature h e =
      let root = prefixed (signer.hex_encode digest) in
      let (text, asked, e1) =
        >>=-eq-ok (ok_or (signer.request_signature account root) request_failed) _ e in
      let (trimmed, cut, e2) = >>=-eq-ok (trim_hex_prefix text) _ e1 in
      let (_, parsed, e3) =
        >>=-eq-ok (ensure (lib.parse_signature trimmed) invalid_signature) _ e2 in
      let short = h.0 trimmed (ensured _ _ tt parsed) in
      let whole = length-trim_hex_prefix text trimmed cut in
      h.1 account root text (ok_or-some _ _ text asked) (omega arith)

  sign_revocations_fails :
      (delegatee_pubkey : Bytes) (accounts : List Bytes) (ms : List SignedMessage)
      → SignsInHex
      → sign_accounts lib signer delegatee_pubkey revoke accounts ≡ ok ms
      → accounts ≡ []
  unfolding sign_accounts sign_account
  sign_revocations_fails delegatee_pubkey [] ms h e = refl
  sign_revocations_fails delegatee_pubkey (account ∷ accounts) ms h e =
      let (pubkey, _, e1) = >>=-eq-ok (key_of lib signer account) _ e in
      let (signed, made, _) =
        >>=-eq-ok (sign_account lib signer delegatee_pubkey revoke account pubkey) _ e1 in
      let digest = revocation_digest lib (new_revocation pubkey delegatee_pubkey) in
      let (signature, found, _) =
        >>=-eq-ok (undecoded_signature lib signer account digest) _ made in
      absurd (undecoded_signature_fails account digest signature h found)

  sign_accounts-delegate :
      (delegatee_pubkey : Bytes) (accounts : List Bytes)
      → sign_accounts lib signer delegatee_pubkey delegate accounts
        ≡ Web3Signer.sign_accounts lib signer delegatee_pubkey delegate accounts
  unfolding sign_accounts Web3Signer.sign_accounts sign_account Web3Signer.sign_account
  sign_accounts-delegate delegatee_pubkey [] = refl
  sign_accounts-delegate delegatee_pubkey (account ∷ accounts) =
      rw (sign_accounts-delegate delegatee_pubkey accounts) refl

  -- With a signer that answers in hex, as the protocol has it, the gateway's tool generates the same
  -- delegations as the scripts, or fails as they do, but it never generates a revocation: it succeeds
  -- only if the signer has no accounts.
  pub generate_lem :
      (delegatee_pubkey : Bytes)
      → SignsInHex
      → (generate lib signer delegatee_pubkey delegate
          ≡ Web3Signer.generate_from_web3signer lib signer delegatee_pubkey delegate)
        × ((ms : List SignedMessage)
            → generate lib signer delegatee_pubkey revoke ≡ ok ms
            → signer.list_accounts ≡ some [])
  unfolding generate Web3Signer.generate_from_web3signer
  generate_lem delegatee_pubkey h = (
    ap (λ sign. ok_or signer.list_accounts request_failed >>= sign)
        (fun_ext (sign_accounts-delegate delegatee_pubkey)),
    λ ms e.
        let (accounts, listed, e1) = >>=-eq-ok (ok_or signer.list_accounts request_failed) _ e in
        ok_or-some _ _ accounts listed
        ∙ ap some (sign_revocations_fails delegatee_pubkey accounts ms h e1),
  )
