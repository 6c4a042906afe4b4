-- ===== src/Fetcher/Updates.antt =====
-- What the fetcher returns (interstate-gateway/src/state/fetcher.rs).
use proposer_commitment_netw.Base.{
  ok_or-some, ℕ, zero, suc, ◌≤◌, ◌<◌, ◌≡◌, refl, sym, ◌∙◌, ap, ◌↔◌, not, Option, none, some, [],
  ◌∷◌, Result, ok, err, ok_or, >>=-eq-ok, ok-injective, ◌==◌, if◌then◌else◌, inl, inr, Bool-cases,
  Option-cases, Result-cases, ==→eq, arith,
}
use proposer_commitment_netw.Base.Assoc
use proposer_commitment_netw.Base.Assoc.{
  Assoc, Distinct, lookup-insert, lookup-modify_self, lookup-modify_ne, lookup_of_absent,
}
use proposer_commitment_netw.Tx.Fees.{AccountState}
use proposer_commitment_netw.Execution.Head.{StateUpdate}
use proposer_commitment_netw.Fetcher.{
  TransportError, transport, AccountAnswers, FeeHistory, is_empty, account_state, modify_or_insert,
  pass, nonce_pass, balance_pass, code_pass, number_or_head, get_basefee, get_blob_basefee,
  get_state_update, retry_loop, get_account_state, max_retries,
}

-- An entry after `and_modify` or `or_insert`.
abbrev entered : (AccountState → AccountState) → AccountState → Option AccountState → AccountState
entered f a none = a
entered f a (some s) = f s

lookup-modify_or_insert :
    (addr k : ℕ) (f : AccountState → AccountState) (a : AccountState) (m : Assoc AccountState)
    → Assoc.lookup k (modify_or_insert addr f a m)
      ≡ (if addr == k then some (entered f a (Assoc.lookup k m)) else Assoc.lookup k m)
lookup-modify_or_insert addr k f a m = elim (Option-cases (Assoc.lookup addr m)) [
  | inl e ↦ ground (arith, lookup-insert addr k a m)
  | inr (s, e) ↦ ground (arith, lookup-modify_self addr f s m, lookup-modify_ne addr k f m)
]

module _ {ℓ} {A : Type ℓ} (get : AccountAnswers → Option A) (f : A → AccountState → AccountState)
    (init : A → AccountState) where
  pass-absent :
      (k : ℕ) (entries : Assoc AccountAnswers) (m out : Assoc AccountState)
      → pass get f init entries m ≡ ok out
      → Assoc.lookup k entries ≡ none
      → Assoc.lookup k out ≡ Assoc.lookup k m
  unfolding pass Assoc.lookup
  pass-absent k [] m out e n =
      ap (λ x. Assoc.lookup k x) (sym (ok-injective {E = TransportError} e))
  pass-absent k ((addr, answers) ∷ rest) m out e n =
      let (v, g, e1) = >>=-eq-ok (ok_or (get answers) transport) _ e in
      let next =
        pass-absent k rest (modify_or_insert addr (f v) (init v) m) out e1 (ground arith) in
      let step = lookup-modify_or_insert addr k (f v) (init v) m in ground (arith, next, step)

  pass-lookup :
      (k : ℕ) (entries : Assoc AccountAnswers) (a : AccountAnswers) (m out : Assoc AccountState)
      → Distinct entries
      → pass get f init entries m ≡ ok out
      → Assoc.lookup k entries ≡ some a
      → (v : A) × (get a ≡ some v)
        × (Assoc.lookup k out ≡ some (entered (f v) (init v) (Assoc.lookup k m)))
  unfolding pass Assoc.lookup
  pass-lookup k [] a m out d e n = cc
  pass-lookup k ((addr, answers) ∷ rest) a m out (absent, d) e n =
      let (v, g, e1) = >>=-eq-ok (ok_or (get answers) transport) _ e in
      let step = lookup-modify_or_insert addr k (f v) (init v) m in
      elim (Bool-cases (addr == k)) [
        | inl q ↦
            let here : addr ≡ k = ==→eq addr k q in
            let same : answers ≡ a = ground arith in
            let kept =
              pass-absent k rest (modify_or_insert addr (f v) (init v) m) out e1
                (lookup_of_absent k rest (rw here at absent)) in
            (v, rw (← same) (ok_or-some (get answers) transport v g), kept ∙ step ∙ rw (q) refl)
        | inr q ↦
            let (w, h, found) =
              pass-lookup k rest a (modify_or_insert addr (f v) (init v) m) out d e1
                (ground arith) in
            (w, h, found ∙ ap (λ x. some (entered (f w) (init w) x)) (step ∙ rw (q) refl))
      ]

then_entered :
    (f : AccountState → AccountState) (a : AccountState) {o o' x : Option AccountState}
    → x ≡ some (entered f a o)
    → o ≡ o'
    → x ≡ some (entered f a o')
then_entered f a e h = rw (← h) e

passes-lookup :
    (entries : Assoc AccountAnswers) (nonces balances states : Assoc AccountState)
    → Distinct entries
    → nonce_pass entries [] ≡ ok nonces
    → balance_pass entries nonces ≡ ok balances
    → code_pass entries balances ≡ ok states
    → (k : ℕ) (answers : AccountAnswers) → Assoc.lookup k entries ≡ some answers
    → (a : AccountState) × (account_state (some answers) ≡ ok a) × (Assoc.lookup k states ≡ some a)
unfolding nonce_pass balance_pass code_pass account_state Assoc.lookup
passes-lookup entries nonces balances states d p1 p2 p3 k answers h =
    let (n, gn, l1) = pass-lookup _ _ _ k entries answers [] nonces d p1 h in
    let (b, gb, l2) = pass-lookup _ _ _ k entries answers nonces balances d p2 h in
    let (c, gc, l3) = pass-lookup _ _ _ k entries answers balances states d p3 h in
    (
      record { transaction_count = n; balance = b; has_code = not (is_empty c) },
      rw (gn, gb, gc) refl,
      then_entered _ _ l3 (then_entered _ _ l2 l1),
    )

passes-absent :
    (entries : Assoc AccountAnswers) (nonces balances states : Assoc AccountState)
    → nonce_pass entries [] ≡ ok nonces
    → balance_pass entries nonces ≡ ok balances
    → code_pass entries balances ≡ ok states
    → (k : ℕ) → Assoc.lookup k entries ≡ none
    → Assoc.lookup k states ≡ none
unfolding nonce_pass balance_pass code_pass Assoc.lookup
passes-absent entries nonces balances states p1 p2 p3 k h =
    pass-absent _ _ _ k entries balances states p3 h
    ∙ pass-absent _ _ _ k entries nonces balances p2 h
    ∙ pass-absent _ _ _ k entries [] nonces p1 h

-- With no address twice in the batch, the update has for each account what a single fetch would make of the same
-- answers, and no other account.
pub get_state_update-account_state :
    (block_number head : Option ℕ) (entries : Assoc AccountAnswers)
    (fees blob_fees : Option FeeHistory) (u : StateUpdate)
    → Distinct entries
    → get_state_update block_number head (some entries) fees blob_fees ≡ ok u
    → ((k : ℕ) (answers : AccountAnswers)
        → Assoc.lookup k entries ≡ some answers
        → (a : AccountState) × (account_state (some answers) ≡ ok a)
          × (Assoc.lookup k u.account_states ≡ some a))
      × ((k : ℕ) → Assoc.lookup k entries ≡ none → Assoc.lookup k u.account_states ≡ none)
unfolding get_state_update
get_state_update-account_state block_number head entries fees blob_fees u d e =
    let (number, _, e0) = >>=-eq-ok (number_or_head block_number head) _ e in
    let (nonces, p1, e1) = >>=-eq-ok (nonce_pass entries []) _ e0 in
    let (balances, p2, e2) = >>=-eq-ok (balance_pass entries nonces) _ e1 in
    let (states, p3, e3) = >>=-eq-ok (code_pass entries balances) _ e2 in
    let (fee, _, e4) = >>=-eq-ok (get_basefee fees) _ e3 in
    let (blob_fee, _, e5) = >>=-eq-ok (get_blob_basefee blob_fees) _ e4 in
    let same : states ≡ u.account_states =
      ap (λ x. x.account_states) (ok-injective {E = TransportError} e5) in
    (
      λ k answers h.
          let (a, single, found) =
            passes-lookup entries nonces balances states d p1 p2 p3 k answers h in
          (a, single, ap (λ x. Assoc.lookup k x) (sym same) ∙ found),
      λ k h.
          ap (λ x. Assoc.lookup k x) (sym same)
          ∙ passes-absent entries nonces balances states p1 p2 p3 k h,
    )

-- The try that succeeds is the first one that does.
abbrev pub FirstAt : (ℕ → Result TransportError AccountState) → ℕ → ℕ → AccountState → Type 0
FirstAt answer n zero a = answer n ≡ ok a
FirstAt answer n (suc k) a =
    ((e : TransportError) × (answer n ≡ err e)) × FirstAt answer (suc n) k a

loop_first :
    (answer : ℕ → Result TransportError AccountState) (left n k : ℕ) (a : AccountState)
    → k ≤ left
    → FirstAt answer n k a
    → retry_loop answer left n ≡ ok a
unfolding retry_loop
loop_first answer zero n zero a l h = h
loop_first answer zero n (suc k) a l h = absurd (omega arith)
loop_first answer (suc left) n zero a l h = rw h refl
loop_first answer (suc left) n (suc k) a l ((e, failed), h) =
    rw failed (loop_first answer left (suc n) k a (omega arith) h)

first_of :
    (answer : ℕ → Result TransportError AccountState) (left n : ℕ) (a : AccountState)
    → retry_loop answer left n ≡ ok a
    → (k : ℕ) × (k ≤ left) × FirstAt answer n k a
unfolding retry_loop
first_of answer zero n a h = (0, omega arith, h)
first_of answer (suc left) n a h = elim (Result-cases (answer n)) [
  | inl (x, e) ↦ (0, omega arith, ground arith)
  | inr (inl (x, e)) ↦
      let (k, l, f) = first_of answer left (suc n) a (ground arith) in
      (suc k, omega arith, ((x, e), f))
  | inr (inr e) ↦ absurd (ground arith)
]

-- An account is fetched exactly when one of the first 8 tries succeeds; the first that does counts.
pub get_account_state_iff :
    (answer : ℕ → Result TransportError AccountState) (a : AccountState)
    → (get_account_state answer ≡ ok a) ↔ ((k : ℕ) × (k < max_retries) × FirstAt answer 0 k a)
unfolding get_account_state
get_account_state_iff answer a = (
  λ h. let (k, l, f) = first_of answer 7 0 a h in (k, omega arith, f),
  λ (k, l, f). loop_first answer 7 0 k a (omega arith) f,
)
