-- ===== src/Execution/Bundle.antt =====
-- The transactions of an accepted bundle (the loop of `verify_el_tx`,
-- interstate-gateway/src/state/execution.rs).
use cubical.Cubical.Foundations.Prelude.{transport}
use proposer_commitment_netw.Base.{
  ℕ, suc, ◌+◌, ◌<◌, ◌≡◌, refl, sym, ◌∙◌, ap, false, Option, some, List, [], ◌∷◌, length, ok, err,
  panic, >>=-eq-ok, ok-injective, ==_refl, arith,
}
use proposer_commitment_netw.Base.Assoc.{lookup, lookup-insert, lookup-modify_self}
use proposer_commitment_netw.Base.Int.{ℤ, saturating_add}
use proposer_commitment_netw.Base.Words.{u64_mod, add_u64, saturating_add_u64}
use proposer_commitment_netw.Errors.{ValidationError}
use proposer_commitment_netw.Tx.{TxLib, Constraint}
use proposer_commitment_netw.Tx.Fees.{AccountState, max_transaction_cost, validate_transaction}
use proposer_commitment_netw.Tx.Cost.{validate_transaction_iff}
use proposer_commitment_netw.ScoreCache
use proposer_commitment_netw.ScoreCache.{ScoreCache}
use proposer_commitment_netw.Execution.{
  ExecutionState, BundleDiffs, bundle_diff, Cached, and_then, get_account, account_of, check_blob,
  compute_diffs, find_diffs, verify_account, verify_tx, verify_txs,
}

-- The cache has the account.
abbrev pub Has : ScoreCache AccountState → ℕ → AccountState → Type 0
Has cache sender a = (score : ℤ) × (lookup sender cache.map ≡ some (a, score))

account_of-Has :
    (fetch : ℕ → Option AccountState) (cache : ScoreCache AccountState) (sender : ℕ)
    (a : AccountState)
    → Has cache sender a
    → ((account_of fetch cache sender).1 ≡ ok a) × Has (account_of fetch cache sender).0 sender a
unfolding account_of get_account ScoreCache.get
account_of-Has fetch cache sender a (score, e) =
    rw (e)
      (refl, (saturating_add score ScoreCache.get_score, lookup-modify_self sender _ _ cache.map e))

find_diffs-ok :
    (lib : TxLib) (st : ExecutionState) (slot : ℕ) (c : Constraint) (sender : ℕ)
    → c.sender ≡ some sender
    → (r : ℕ × ℕ × ℕ) → find_diffs lib st slot c ≡ ok r
    → (r.0 ≡ sender) × (r.1 ≡ (compute_diffs st.block_templates sender).0)
unfolding find_diffs
find_diffs-ok lib st slot c sender e r h = ground arith

and_then-ok {ℓ κ} :
    {A : Type ℓ} {B : Type κ} (m : Cached A) (k : ScoreCache AccountState → A → Cached B) (b : B)
    → (and_then m k).1 ≡ ok b
    → (a : A) × (m.1 ≡ ok a) × (and_then m k ≡ k m.0 a)
and_then-ok (cache, ok a) k b h = (a, refl, refl)
and_then-ok (cache, err e) k b h = cc
and_then-ok (cache, panic) k b h = cc

-- The nonces of the transactions count up from `n`.
abbrev pub CountUp : TxLib → ℕ → List Constraint → Type 0
CountUp lib n [] = Unit {0}
CountUp lib n (c ∷ cs) = (lib.nonce c.tx ≡ n) × CountUp lib (suc n) cs

-- The transactions are of the sender.
abbrev pub AllOf : ℕ → List Constraint → Type 0
AllOf sender [] = Unit {0}
AllOf sender (c ∷ cs) = (c.sender ≡ some sender) × AllOf sender cs

module _ (lib : TxLib) (st : ExecutionState) (slot : ℕ) where
  verify_account-ok :
      (diffs diffs' : BundleDiffs) (c : Constraint) (sender nonce_diff balance_diff : ℕ)
      (a : AccountState)
      → verify_account lib st slot diffs c (sender, nonce_diff, balance_diff) a ≡ ok diffs'
      → (lib.nonce c.tx
          ≡ saturating_add_u64
              (saturating_add_u64 a.transaction_count nonce_diff)
              (bundle_diff diffs sender).0)
        × (a.has_code ≡ false)
        × ((bundle_diff diffs' sender).0 ≡ add_u64 (bundle_diff diffs sender).0 1)
  unfolding verify_account
  verify_account-ok diffs diffs' c sender nonce_diff balance_diff a h =
      let (u, e, h1) = >>=-eq-ok (validate_transaction lib _ c.tx) _ h in
      let (n, code, covered) = (validate_transaction_iff lib c.tx _).0 e in
      let (u', e', h2) = >>=-eq-ok (check_blob lib st.blob_basefee _ _ c _) _ h1 in
      let (cost, e'', h3) = >>=-eq-ok {E = ValidationError} (max_transaction_cost lib c.tx) _ h2 in
      let new = ok-injective {E = ValidationError} h3 in
      (n, code, rw (← new, lookup-insert sender sender _ diffs, ==_refl) refl)

  module _ (fetch : ℕ → Option AccountState) where
    verify_tx-ok :
        (cache : ScoreCache AccountState) (diffs diffs' : BundleDiffs) (c : Constraint) (sender : ℕ)
        (a : AccountState)
        → c.sender ≡ some sender
        → Has cache sender a
        → (verify_tx lib fetch st slot cache diffs c).1 ≡ ok diffs'
        → Has (verify_tx lib fetch st slot cache diffs c).0 sender a
          × (lib.nonce c.tx
              ≡ saturating_add_u64
                  (saturating_add_u64 a.transaction_count
                    (compute_diffs st.block_templates sender).0)
                  (bundle_diff diffs sender).0)
          × (a.has_code ≡ false)
          × ((bundle_diff diffs' sender).0 ≡ add_u64 (bundle_diff diffs sender).0 1)
    unfolding verify_tx
    verify_tx-ok cache diffs diffs' c sender a e has h =
        let (r, e1, s1) = and_then-ok (cache, find_diffs lib st slot c) _ diffs' h in
        let (x, y) = find_diffs-ok lib st slot c sender e r e1 in
        let h1 = sym (ap (λ m. m.1) s1) ∙ h in
        let (a', e2, s2) = and_then-ok (account_of fetch cache r.0) _ diffs' h1 in
        let h2 = sym (ap (λ m. m.1) s2) ∙ h1 in
        let (f1, f2) = account_of-Has fetch cache sender a has in
        let same : a' ≡ a = ok-injective (sym e2 ∙ ap (λ s. (account_of fetch cache s).1) x ∙ f1) in
        let (n, code, t) = verify_account-ok diffs diffs' c r.0 r.1 r.2 a' h2 in
        let left = ap (λ m. m.0) s1 ∙ ap (λ m. m.0) s2 ∙ ap (λ s. (account_of fetch cache s).0) x in
        (
          transport (λ i. Has (sym left i) sender a) f2,
          rw (← y, ← x, ← same) n,
          rw (← same) code,
          rw (← x) t,
        )

    count_from :
        (cache : ScoreCache AccountState) (diffs : BundleDiffs) (cs : List Constraint) (sender : ℕ)
        (a : AccountState)
        → AllOf sender cs
        → Has cache sender a
        → a.transaction_count
            + (compute_diffs st.block_templates sender).0
            + (bundle_diff diffs sender).0
            + length cs
          < u64_mod
        → (d : BundleDiffs) → (verify_txs lib fetch st slot cache diffs cs).1 ≡ ok d
        → CountUp lib
            (a.transaction_count
              + (compute_diffs st.block_templates sender).0
              + (bundle_diff diffs sender).0)
            cs
    unfolding verify_txs
    count_from cache diffs [] sender a own has bound d h = tt
    count_from cache diffs (c ∷ cs) sender a (e, own) has bound d h =
        let (diffs', e1, s1) = and_then-ok (verify_tx lib fetch st slot cache diffs c) _ d h in
        let h1 = sym (ap (λ m. m.1) s1) ∙ h in
        let (has', n, code, t) = verify_tx-ok cache diffs diffs' c sender a e has e1 in
        let next : (bundle_diff diffs' sender).0 ≡ suc (bundle_diff diffs sender).0 =
          ground arith in
        let rest =
          count_from (verify_tx lib fetch st slot cache diffs c).0 diffs' cs sender a own has'
            (omega arith) d h1 in
        let m = a.transaction_count + (compute_diffs st.block_templates sender).0 in
        let shift : m + (bundle_diff diffs' sender).0 ≡ suc (m + (bundle_diff diffs sender).0) =
          omega arith in
        (omega arith, transport (λ i. CountUp lib (shift i) cs) rest)

-- If the transactions of an accepted bundle are all of one sender, whose account is in the cache,
-- then their nonces count up by one, from the account's count and what the templates have committed
-- for it, as long as they stay below 2^64.
pub verify_txs-CountUp :
    (lib : TxLib) (st : ExecutionState) (slot : ℕ) (fetch : ℕ → Option AccountState)
    (cs : List Constraint) (sender : ℕ) (a : AccountState) (d : BundleDiffs)
    → AllOf sender cs
    → Has st.account_states sender a
    → a.transaction_count + (compute_diffs st.block_templates sender).0 + length cs < u64_mod
    → (verify_txs lib fetch st slot st.account_states [] cs).1 ≡ ok d
    → CountUp lib (a.transaction_count + (compute_diffs st.block_templates sender).0) cs
unfolding lookup
verify_txs-CountUp lib st slot fetch cs sender a d own has bound h =
    let none_yet : (bundle_diff [] sender).0 ≡ 0 = refl in
    let m = a.transaction_count + (compute_diffs st.block_templates sender).0 in
    let start : m + (bundle_diff [] sender).0 ≡ m = omega arith in
    let counted =
      count_from lib st slot fetch st.account_states [] cs sender a own has (omega arith) d h in
    transport (λ i. CountUp lib (start i) cs) counted
