-- ===== src/Template/Retain.antt =====
-- What `BlockTemplate::retain` leaves (interstate-gateway/src/builder/mod.rs).
use proposer_commitment_netw.Base.{
  ℕ, suc, ◌+◌, ◌%◌, ◌<◌, min, sum_by, Result, ◌>>=◌, ◌≡◌, refl, sym, ap, ◌∙◌, Bool, true, false,
  not, none, some, List, [], ◌∷◌, ◌++◌, ok, >>=-eq-ok, keep_if, any_of, length, ltb, ◌==◌, ◌||◌,
  if◌then◌else◌, inl, inr, Bool-cases, Result-cases, ◌-◌, arith, length-append, expect, get_elem?,
  ok-injective,
}
use mathlib.Core.List.{append_assoc}
use proposer_commitment_netw.Tx.{TxLib, Constraint}
use proposer_commitment_netw.Base.Words.{u64_mod, u256_mod, add_u256}
use proposer_commitment_netw.Tx.Fees.{AccountState, max_transaction_cost}
use proposer_commitment_netw.Constraints.{SignedConstraints}
use proposer_commitment_netw.Template.{
  BlockTemplate, remove_at, remove_constraints_at_index, remove_rev, constraints_with_address,
  any_sender, filter_sender, settle, indexes_of, flat, retain, cost_and_nonce,
}

abbrev pub is_sender : ℕ → Constraint → Bool
is_sender address c = elim c.sender [ none ↦ false | some s ↦ s == address ]

-- Some transaction of the constraints is the address's.
abbrev pub mentions : ℕ → SignedConstraints → Bool
mentions address sc = any_of (is_sender address) sc.message.transactions

remove_at-append {ℓ} :
    {A : Type ℓ} (pre : List A) (x : A) (ys : List A)
    → remove_at (pre ++ x ∷ ys) (length pre) ≡ pre ++ ys
unfolding remove_at
remove_at-append [] x ys = refl
remove_at-append (p ∷ pre) x ys = ap (◌∷◌ p) (remove_at-append pre x ys)

any_sender_lem {ℓ} :
    {E : Type ℓ} (address : ℕ) (cs : List Constraint) (b : Bool)
    → any_sender {E = E} address cs ≡ ok b
    → b ≡ any_of (is_sender address) cs
unfolding any_sender
any_sender_lem address [] b h = ground arith
any_sender_lem {E} address (c ∷ cs) b h = ground (arith, any_sender_lem {E = E} address cs b)

-- The constraints with no transaction of the address, in order.
abbrev pub without : ℕ → List SignedConstraints → List SignedConstraints
without address scs = keep_if (λ sc. not (mentions address sc)) scs

found_nil {ℓ} :
    {E : Type ℓ} (address k : ℕ) (own : List (ℕ × List Constraint))
    → constraints_with_address {E = E} address k [] ≡ ok own
    → own ≡ []
unfolding constraints_with_address
found_nil {E} address k own h = sym (ok-injective {E = E} h)

module _ {ℓ} {E : Type ℓ} where
  -- The search of a list goes on through its tail.
  found_tail :
      (address k : ℕ) (sc : SignedConstraints) (scs : List SignedConstraints)
      (own : List (ℕ × List Constraint))
      → constraints_with_address {E = E} address k (sc ∷ scs) ≡ ok own
      → (rest : List (ℕ × List Constraint)) × (constraints_with_address {E = E} address (suc k) scs
          ≡ ok rest)
  unfolding constraints_with_address
  found_tail address k sc scs own h =
      let (_, _, h1) = >>=-eq-ok (any_sender {E = E} address sc.message.transactions) _ h in
      let (rest, er, _) = >>=-eq-ok (constraints_with_address {E = E} address (suc k) scs) _ h1 in
      (rest, er)

  found_cons :
      (address k : ℕ) (sc : SignedConstraints) (scs : List SignedConstraints)
      (own rest : List (ℕ × List Constraint))
      → constraints_with_address {E = E} address k (sc ∷ scs) ≡ ok own
      → constraints_with_address {E = E} address (suc k) scs ≡ ok rest
      → indexes_of own ≡ (if mentions address sc then k ∷ indexes_of rest else indexes_of rest)
  unfolding constraints_with_address
  found_cons address k sc scs own rest h er = ground (
    arith,
    any_sender_lem {E = E} address sc.message.transactions true,
    any_sender_lem {E = E} address sc.message.transactions false,
  )

module _ {ℓ} {E : Type ℓ} (lib : TxLib) where
  list-remove :
      (t t' : BlockTemplate) (i : ℕ)
      → remove_constraints_at_index lib {E = E} t i ≡ ok t'
      → t'.signed_constraints_list ≡ remove_at t.signed_constraints_list i
  unfolding remove_constraints_at_index
  list-remove t t' i h =
      let (sc, e, h1) = >>=-eq-ok (expect (get_elem? t.signed_constraints_list i)) _ h in
      let (diffs, e', h2) = >>=-eq-ok (settle lib t.state_diff sc.message.transactions) _ h1 in
      ap (λ (u : BlockTemplate). u.signed_constraints_list) (sym (ok-injective {E = E} h2))

  remove_rev_nil : (t t' : BlockTemplate) → remove_rev lib {E = E} [] t ≡ ok t' → t' ≡ t
  unfolding remove_rev
  remove_rev_nil t t' h = sym (ok-injective {E = E} h)

  remove_rev_cons :
      (i : ℕ) (is : List ℕ) (t t' : BlockTemplate)
      → remove_rev lib {E = E} (i ∷ is) t ≡ ok t'
      → (t1 : BlockTemplate) × (remove_rev lib {E = E} is t ≡ ok t1)
        × (t'.signed_constraints_list ≡ remove_at t1.signed_constraints_list i)
  unfolding remove_rev
  remove_rev_cons i is t t' h =
      let (t1, e, h1) = >>=-eq-ok (remove_rev lib {E = E} is t) _ h in
      (t1, e, list-remove t1 t' i h1)

  -- Removing the found indexes from the last to the first is filtering the list.
  list-remove_rev :
      (address k : ℕ) (pre scs : List SignedConstraints) (own : List (ℕ × List Constraint))
      (t t' : BlockTemplate)
      → length pre ≡ k
      → t.signed_constraints_list ≡ pre ++ scs
      → constraints_with_address {E = E} address k scs ≡ ok own
      → remove_rev lib {E = E} (indexes_of own) t ≡ ok t'
      → t'.signed_constraints_list ≡ pre ++ without address scs
  list-remove_rev address k pre [] own t t' len e found h =
      let none_found : own ≡ [] = found_nil address k own found in
      ap (λ (u : BlockTemplate). u.signed_constraints_list)
        (remove_rev_nil t t' (rw none_found at h))
      ∙ e
  list-remove_rev address k pre (sc ∷ scs) own t t' len e found h =
      let (rest, er) = found_tail {E = E} address k sc scs own found in
      let e' : t.signed_constraints_list ≡ (pre ++ sc ∷ []) ++ scs =
        e ∙ sym (append_assoc pre (sc ∷ []) scs) in
      let len' : length (pre ++ sc ∷ []) ≡ suc k = omega (arith, length-append pre (sc ∷ [])) in
      let ih = λ (u : BlockTemplate).
        list-remove_rev address (suc k) (pre ++ sc ∷ []) scs rest t u len' e' er in
      let regroup : (pre ++ sc ∷ []) ++ without address scs ≡ pre ++ sc ∷ without address scs =
        append_assoc pre (sc ∷ []) (without address scs) in
      let split = found_cons {E = E} address k sc scs own rest found er in
      elim (Bool-cases (mentions address sc)) [
        | inl m ↦
            let (t1, h1, e1) = remove_rev_cons k (indexes_of rest) t t' (rw (split, m) at h) in
            let e2 : t1.signed_constraints_list ≡ pre ++ sc ∷ without address scs =
              ih t1 h1 ∙ regroup in
            rw m (e1 ∙ rw (e2, ← len) (remove_at-append pre sc (without address scs)))
        | inr m ↦ rw m (ih t' (rw (split, m) at h) ∙ regroup)
      ]

-- The transactions of the address in the block, in order.
abbrev pub own_transactions : ℕ → List SignedConstraints → List Constraint
own_transactions address [] = []
own_transactions address (sc ∷ scs) =
    keep_if (is_sender address) sc.message.transactions ++ own_transactions address scs

keep_if_none {ℓ} :
    {A : Type ℓ} (p : A → Bool) (xs : List A) → any_of p xs ≡ false → keep_if p xs ≡ []
keep_if_none p [] h = refl
keep_if_none p (x ∷ xs) h = ground (arith, keep_if_none p xs)

abbrev pub some_nonce_below : TxLib → ℕ → List Constraint → Bool
some_nonce_below lib count cs = any_of (λ c. ltb (lib.nonce c.tx) count) cs

abbrev pub sum : List ℕ → ℕ
sum costs = sum_by (λ cost. cost) costs

add_u256-fits : (a b : ℕ) → add_u256 a b < u256_mod
add_u256-fits a b = omega arith

add_u256-sum : (a b c : ℕ) → (add_u256 a b + c) % u256_mod ≡ (a + (b + c)) % u256_mod
add_u256-sum a b c = omega arith

ltb-min : (a b c : ℕ) (x y : Bool) → x ≡ (ltb (min a b) c || y) → x ≡ (ltb a c || (ltb b c || y))
ltb-min a b c x y h = ground arith

module _ {ℓ} {E : Type ℓ} where
  filter_sender_lem :
      (address : ℕ) (cs own : List Constraint)
      → filter_sender {E = E} address cs ≡ ok own
      → own ≡ keep_if (is_sender address) cs
  unfolding filter_sender
  filter_sender_lem address [] own h = sym (ok-injective {E = E} h)
  filter_sender_lem address (c ∷ cs) own h =
      let (s, es, h1) = >>=-eq-ok (expect {E = E} c.sender) _ h in
      let (rest, er, h2) = >>=-eq-ok (filter_sender {E = E} address cs) _ h1 in
      ground (arith, filter_sender_lem address cs rest er)

  flat_cons :
      (address k : ℕ) (sc : SignedConstraints) (scs : List SignedConstraints)
      (own rest : List (ℕ × List Constraint))
      → constraints_with_address {E = E} address k (sc ∷ scs) ≡ ok own
      → constraints_with_address {E = E} address (suc k) scs ≡ ok rest
      → flat own ≡ keep_if (is_sender address) sc.message.transactions ++ flat rest
  unfolding constraints_with_address
  flat_cons address k sc scs own rest h er =
      elim (Result-cases (filter_sender {E = E} address sc.message.transactions)) [
        | inl (cs, e) ↦ ground (
          arith,
          looked true,
          looked false,
          none_own,
          filter_sender_lem address sc.message.transactions cs e,
        )
        | inr (inl (x, e)) ↦ ground (arith, looked true, looked false, none_own)
        | inr (inr e) ↦ ground (arith, looked true, looked false, none_own)
      ]
    where
      looked :
          (b : Bool)
          → any_sender {E = E} address sc.message.transactions ≡ ok b
          → b ≡ mentions address sc
      looked = any_sender_lem {E = E} address sc.message.transactions

      none_own :
          mentions address sc ≡ false → keep_if (is_sender address) sc.message.transactions ≡ []
      none_own = keep_if_none (is_sender address) sc.message.transactions

  flat_lem :
      (address k : ℕ) (scs : List SignedConstraints) (own : List (ℕ × List Constraint))
      → constraints_with_address {E = E} address k scs ≡ ok own
      → flat own ≡ own_transactions address scs
  flat_lem address k [] own h = rw (found_nil {E = E} address k own h)
  flat_lem address k (sc ∷ scs) own h =
      let (rest, er) = found_tail {E = E} address k sc scs own h in
      flat_cons address k sc scs own rest h er
      ∙ ap (λ (cs : List Constraint). keep_if (is_sender address) sc.message.transactions ++ cs)
          (flat_lem address (suc k) scs rest er)

  -- The maximal cost of each transaction, in order.
  unfoldable pub costs_of : TxLib → List Constraint → Result E (List ℕ)
  costs_of lib [] = ok []
  costs_of lib (c ∷ cs) = do
    cost ← max_transaction_cost lib {E = E} c.tx
    costs ← costs_of lib cs
    ok (cost ∷ costs)

  -- The fold over the transactions is the sum of their costs, as a U256, and the least nonce.
  cost_and_nonce_lem :
      (lib : TxLib) (total least count : ℕ) (cs : List Constraint) (cost nonce : ℕ)
      → total < u256_mod
      → cost_and_nonce lib {E = E} total least cs ≡ ok (cost, nonce)
      → (costs : List ℕ) × (costs_of lib cs ≡ ok costs)
        × (cost ≡ (total + sum costs) % u256_mod)
        × (ltb nonce count ≡ (ltb least count || some_nonce_below lib count cs))
  unfolding cost_and_nonce costs_of
  cost_and_nonce_lem lib total least count [] cost nonce fits h =
      let same : ◌≡◌ {A = ℕ × ℕ} (total, least) (cost, nonce) = ok-injective {E = E} h in
      let same_cost = ap (λ (q : ℕ × ℕ). q.0) same in
      let same_nonce = ap (λ (q : ℕ × ℕ). q.1) same in ([], refl, omega arith, ground arith)
  cost_and_nonce_lem lib total least count (c ∷ cs) cost nonce fits h =
      let (first, e, h1) = >>=-eq-ok (max_transaction_cost lib {E = E} c.tx) _ h in
      let (costs, each, added, below) =
        cost_and_nonce_lem lib (add_u256 total first) (min least (lib.nonce c.tx)) count cs cost
          nonce (add_u256-fits total first) h1 in
      let all : costs_of lib (c ∷ cs) ≡ ok (first ∷ costs) = rw (e, each) refl in
      (
        first ∷ costs,
        all,
        added ∙ add_u256-sum total first (sum costs),
        ltb-min least (lib.nonce c.tx) count (ltb nonce count) (some_nonce_below lib count cs)
            below,
      )

  -- A refreshed block: if the balance covers the sum of the maximal costs of the address's
  -- transactions in it (as a U256), and none of them has a nonce below the account's, the block's
  -- constraints stay; otherwise exactly those with a transaction of the address are dropped, and
  -- the others keep their order.
  pub retain_lem :
      (lib : TxLib) (t t' : BlockTemplate) (address : ℕ) (state : AccountState)
      → state.transaction_count < u64_mod
      → retain lib {E = E} t address state ≡ ok t'
      → let own = own_transactions address t.signed_constraints_list in
        (costs : List ℕ) × (costs_of lib own ≡ ok costs)
        × (t'.signed_constraints_list ≡ (
            if ltb state.balance (sum costs % u256_mod)
              || some_nonce_below lib state.transaction_count own
            then without address t.signed_constraints_list
            else t.signed_constraints_list))
  unfolding retain
  retain_lem lib t t' address state small h =
      let (own, found, h1) =
        >>=-eq-ok (constraints_with_address {E = E} address 0 t.signed_constraints_list) _ h in
      let ((cost, least), counted, h2) =
        >>=-eq-ok (cost_and_nonce lib {E = E} 0 (u64_mod - 1) (flat own)) _ h1 in
      let own' = own_transactions address t.signed_constraints_list in
      let counted' : cost_and_nonce lib {E = E} 0 (u64_mod - 1) own' ≡ ok (cost, least) =
        rw (← flat_lem address 0 t.signed_constraints_list own found) counted in
      let (costs, each, total, below) =
        cost_and_nonce_lem lib 0 (u64_mod - 1) state.transaction_count own' cost least (omega arith)
          counted' in
      let never : ltb (u64_mod - 1) state.transaction_count ≡ false = ground arith in
      let old : ltb least state.transaction_count
          ≡ some_nonce_below lib state.transaction_count own' =
        ground arith in
      let exact : cost ≡ sum costs % u256_mod = omega (arith, total) in
      (
        costs,
        each,
        rw (← exact, ← old)
            (elim (Bool-cases (ltb state.balance cost || ltb least state.transaction_count)) [
              | inl stale ↦ rw stale (
                  list-remove_rev lib address 0 [] t.signed_constraints_list own t t' refl refl
                    found (rw stale at h2))
              | inr fresh ↦ rw fresh (
                  ap (λ (u : BlockTemplate). u.signed_constraints_list)
                    (sym (ok-injective {E = E} (rw fresh at h2))))
            ]),
      )
