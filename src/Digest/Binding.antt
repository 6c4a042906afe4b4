-- ===== src/Digest/Binding.antt =====
-- What a digest binds: two messages with the same hashed bytes say the same.
-- (interstate-gateway/src/commitment/request.rs, interstate-gateway/src/constraints/mod.rs,
-- interstate-pbs-module/src/types.rs)
use proposer_commitment_netw.Base.{
  ℕ, ◌+◌, ◌≡◌, refl, sym, ◌∙◌, ap, Bool, true, false, some, List, [], ◌∷◌, map, ok, All, length,
  length-append, append-injective, arith,
}
use proposer_commitment_netw.Tx.{TxLib, PooledTransactionsElement, Constraint}
use proposer_commitment_netw.Request.{PreconfRequest}
use proposer_commitment_netw.Constraints.{ConstraintsMessage}
use proposer_commitment_netw.Pbs.Message.{PbsLib, TxEnvelope}
use proposer_commitment_netw.Digest.{
  hash_bytes, join_hashes, tx_hashes, request_preimage, bool_byte, message_preimage, gateway_digest,
  tx_hash, decoded_hashes, pbs_digest, sent,
}
use proposer_commitment_netw.Digest.Bytes.{
  to_le_bytes, to_be_bytes, from_le_bytes, from_be_bytes, Fits, le_round_trip, be_round_trip,
  length-to_be, length-to_le,
}

be_injective : (k a b : ℕ) → Fits k a → Fits k b → to_be_bytes k a ≡ to_be_bytes k b → a ≡ b
be_injective k a b f g e =
    sym (be_round_trip k a f) ∙ ap (λ x. from_be_bytes 0 x) e ∙ be_round_trip k b g

le_injective : (k a b : ℕ) → Fits k a → Fits k b → to_le_bytes k a ≡ to_le_bytes k b → a ≡ b
le_injective k a b f g e = sym (le_round_trip k a f) ∙ ap from_le_bytes e ∙ le_round_trip k b g

same_length : (k a b : ℕ) → length (to_be_bytes k a) ≡ length (to_be_bytes k b)
same_length k a b = length-to_be k a ∙ sym (length-to_be k b)

abbrev pub AreHashes : List ℕ → Type 0
AreHashes hs = All (λ h. Fits 32 h) hs

join_longer : (h : ℕ) (hs : List ℕ) → length (join_hashes (h ∷ hs)) ≡ 32 + length (join_hashes hs)
join_longer h hs = omega (arith, length-append (hash_bytes h) (join_hashes hs), length-to_be 32 h)

join_injective :
    (hs ks : List ℕ) → AreHashes hs → AreHashes ks → join_hashes hs ≡ join_hashes ks → hs ≡ ks
join_injective [] [] f g e = refl
join_injective [] (k ∷ ks) f g e = absurd (omega (arith, ap length e, join_longer k ks))
join_injective (h ∷ hs) [] f g e = absurd (omega (arith, ap length e, join_longer h hs))
join_injective (h ∷ hs) (k ∷ ks) (f, fs) (g, gs) e =
    let (p, q) =
      append-injective (hash_bytes h) (hash_bytes k) (join_hashes hs) (join_hashes ks)
        (same_length 32 h k) e in
    let heads = be_injective 32 h k f g p in
    let tails = join_injective hs ks fs gs q in cc (heads, tails)

-- The hashed bytes of a request determine its slot and the hashes of its transactions, in their
-- order, for slots of 8 bytes and hashes of 32.
pub request_preimage_injective :
    (lib : TxLib) (a b : PreconfRequest)
    → Fits 8 a.slot
    → Fits 8 b.slot
    → AreHashes (tx_hashes lib a.txs)
    → AreHashes (tx_hashes lib b.txs)
    → request_preimage lib a ≡ request_preimage lib b
    → (a.slot ≡ b.slot) × (tx_hashes lib a.txs ≡ tx_hashes lib b.txs)
request_preimage_injective lib a b fa fb ha hb e =
    let (p, q) =
      append-injective (to_be_bytes 8 a.slot) (to_be_bytes 8 b.slot) _ _
        (same_length 8 a.slot b.slot) e in
    (be_injective 8 a.slot b.slot fa fb p, join_injective _ _ ha hb q)

bool_of : (a b : Bool) → bool_byte a ≡ bool_byte b → a ≡ b
bool_of true true e = refl
bool_of false false e = refl
bool_of true false e = absurd (omega arith)
bool_of false true e = absurd (omega arith)

-- The hashed bytes of a message determine its key, slot and flag and the hashes of its transactions,
-- for keys of 48 bytes, slots of 8 and hashes of 32.
pub message_preimage_injective :
    (k l s t : ℕ) (a b : Bool) (hs is : List ℕ)
    → Fits 48 k
    → Fits 48 l
    → Fits 8 s
    → Fits 8 t
    → AreHashes hs
    → AreHashes is
    → message_preimage k s a hs ≡ message_preimage l t b is
    → (k ≡ l) × (s ≡ t) × (a ≡ b) × (hs ≡ is)
message_preimage_injective k l s t a b hs is fk fl fs ft fh fi e =
    let (p, q) =
      append-injective (to_be_bytes 48 k) (to_be_bytes 48 l) _ _ (same_length 48 k l) e in
    let (r, u) =
      append-injective (to_le_bytes 8 s) (to_le_bytes 8 t) _ _
        (length-to_le 8 s ∙ sym (length-to_le 8 t)) q in
    let first : bool_byte a ≡ bool_byte b = cc in
    let rest : join_hashes hs ≡ join_hashes is = cc in
    (
      be_injective 48 k l fk fl p,
      le_injective 8 s t fs ft r,
      bool_of a b first,
      join_injective hs is fh fi rest,
    )

-- The PBS library reads back the hash of what was encoded.
abbrev pub ReadsBack : TxLib → PbsLib → (PooledTransactionsElement → List ℕ) → Type 0
ReadsBack lib pbs encode =
    (tx : PooledTransactionsElement)
    → (e : TxEnvelope) × (pbs.decode_2718 (encode tx) ≡ some e) × (tx_hash e ≡ lib.hash tx)

decoded_hashes-sent :
    (lib : TxLib) (pbs : PbsLib) (encode : PooledTransactionsElement → List ℕ)
    → ReadsBack lib pbs encode
    → (cs : List Constraint)
    → decoded_hashes pbs (map (λ c. encode c.tx) cs) ≡ ok (tx_hashes lib cs)
unfolding decoded_hashes
decoded_hashes-sent lib pbs encode h [] = refl
decoded_hashes-sent lib pbs encode h (c ∷ cs) =
    let (e, d, t) = h c.tx in rw (d, decoded_hashes-sent lib pbs encode h cs, t) refl

-- The PBS module computes of a sent message the digest that the gateway has signed, if its library
-- reads back the hash of an encoded transaction.
pub pbs_digest-sent :
    (lib : TxLib) (pbs : PbsLib) (encode : PooledTransactionsElement → List ℕ) (sha256 : List ℕ → ℕ)
    (m : ConstraintsMessage)
    → ReadsBack lib pbs encode
    → pbs_digest pbs sha256 (sent encode m) ≡ ok (gateway_digest lib sha256 m)
unfolding pbs_digest sent gateway_digest
pbs_digest-sent lib pbs encode sha256 m h =
    rw (decoded_hashes-sent lib pbs encode h m.transactions) refl
