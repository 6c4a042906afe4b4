-- ===== src/Constraints/Texts.antt =====
-- Lists of transactions as texts (`serialize_txs`, `deserialize_txs` and `decode_enveloped` of
-- interstate-gateway/src/constraints/mod.rs). Hex and the encoding of transactions are of libraries.
use proposer_commitment_netw.Base.{
  ℕ, ◌≡◌, ◌≢◌, refl, Option, none, some, List, [], ◌∷◌, map, Result, ok, ◌>>=◌, ok_or, All, arith,
}
use proposer_commitment_netw.Tx.{PooledTransactionsElement, Constraint}
use proposer_commitment_netw.Delegation.Keystores.{trim_start_0x}

abbrev pub Bytes : Type 0
Bytes = List ℕ

pub record Encoding : Type 0 where
  pub encoded_2718 : PooledTransactionsElement → Bytes
  pub decode_2718 : Bytes → Option PooledTransactionsElement
  pub hex_encode : Bytes → Bytes
  pub hex_decode : Bytes → Option Bytes

pub data DecodeError : Type 0 where
  invalid_hex invalid_transaction : DecodeError

module _ (lib : Encoding) where
  -- `hex::encode_prefixed` puts `0x` in front.
  unfoldable pub serialize_txs : List Constraint → List Bytes
  serialize_txs [] = []
  serialize_txs (tx ∷ txs) =
      (48 ∷ 120 ∷ lib.hex_encode (lib.encoded_2718 tx.tx)) ∷ serialize_txs txs

  unfoldable pub decode_enveloped : Bytes → Result DecodeError Constraint
  decode_enveloped bytes = do
    tx ← ok_or (lib.decode_2718 bytes) invalid_transaction
    ok (record { tx = tx; sender = none })

  unfoldable pub deserialize_txs : List Bytes → Result DecodeError (List Constraint)
  unfolding decode_enveloped trim_start_0x
  deserialize_txs [] = ok []
  deserialize_txs (s ∷ strings) = do
    bytes ← ok_or (lib.hex_decode (trim_start_0x s)) invalid_hex
    tx ← decode_enveloped bytes
    txs ← deserialize_txs strings
    ok (tx ∷ txs)

  -- What the code relies on: both decoders read what was encoded, and hex has no `x`.
  abbrev pub Decodes : Constraint → Type 0
  Decodes c =
      let bytes = lib.encoded_2718 c.tx in
      (lib.decode_2718 bytes ≡ some c.tx)
      × (lib.hex_decode (lib.hex_encode bytes) ≡ some bytes)
      × All (λ x. x ≢ 120) (lib.hex_encode bytes)

  trim_prefixed : (hex : Bytes) → All (λ c. c ≢ 120) hex → trim_start_0x (48 ∷ 120 ∷ hex) ≡ hex
  unfolding trim_start_0x
  trim_prefixed [] h = refl
  trim_prefixed (c ∷ []) h = refl
  trim_prefixed (c ∷ d ∷ cs) (_, (h, _)) = ground arith

  abbrev pub forget_sender : Constraint → Constraint
  forget_sender c = record { tx = c.tx; sender = none }

  -- The texts of a list of constraints are read back as the same transactions in the same order,
  -- without their senders.
  pub deserialize-serialize_txs :
      (txs : List Constraint)
      → All Decodes txs
      → deserialize_txs (serialize_txs txs) ≡ ok (map forget_sender txs)
  unfolding serialize_txs deserialize_txs
  deserialize-serialize_txs [] h = refl
  deserialize-serialize_txs (tx ∷ txs) ((d, x, n), h) =
      rw
        (
          trim_prefixed (lib.hex_encode (lib.encoded_2718 tx.tx)) n,
          x,
          d,
          deserialize-serialize_txs txs h,
        )
        refl
