-- ===== src/Transaction/Wire.antt =====
-- The binary form of a transaction: what is written, what is hashed, and that it is read back.
use whosecoin_core.Base.{
  ℕ, ◌^◌, ◌≤◌, ◌<◌, ◌≡◌, List, [], arith, length, append_assoc, append-nil, ok, ◌>>=◌, subst,
  length-append,
}
use whosecoin_core.Buffer.{dynamic_buffer_create}
use whosecoin_core.Buffer.Refines.{dynamic_buffer_create-Holds, contents-Holds}
use whosecoin_core.Buffer.Appends.{Appends, Appends-then}
use whosecoin_core.Bytes.{length-be_bytes, length-le_bytes}
use whosecoin_core.Crypto.{Crypto, crypto_sign_public_key_bytes, crypto_sign_bytes}
use whosecoin_core.Tuple.Values.{
  u32, u64, binary, Values, nil, scalar, tuple, encode_scalar, encode, encode_tuple, Fits, rounds,
}
use whosecoin_core.Tuple.Write.{
  write_scalar-Appends, tuple_write_start-Appends, tuple_write_end-Appends,
}
use whosecoin_core.Transaction.{
  Transaction, write_body, transaction_write, transaction_compute_hash,
}

-- The inner tuple of a transaction (README: the transaction), and the signed transaction.
abbrev pub body_values : Transaction → Values
body_values txn =
    scalar (binary txn.sender)
      (scalar (binary txn.recipient) (scalar (u64 txn.value) (scalar (u32 txn.nonce) nil)))

abbrev pub signed_values : Transaction → Values
signed_values txn = tuple (body_values txn) (scalar (binary txn.signature) nil)

-- The arrays have their C sizes and the numbers are words.
pub record IsSized (txn : Transaction) : Type 0 where
  pub sender_size : length txn.sender ≡ crypto_sign_public_key_bytes
  pub recipient_size : length txn.recipient ≡ crypto_sign_public_key_bytes
  pub signature_size : length txn.signature ≡ crypto_sign_bytes
  pub value_word : txn.value < 2 ^ 64
  pub nonce_word : txn.nonce < 2 ^ 32

write_body-Appends : (txn : Transaction) → Appends (write_body txn) (encode_tuple (body_values txn))
unfolding write_body encode encode_tuple
write_body-Appends txn = subst (Appends (write_body txn)) (simp (append_assoc, append-nil)) (
    Appends-then _ _
      (Appends-then _ _
        (Appends-then _ _
          (Appends-then _ _
            (Appends-then _ _ tuple_write_start-Appends (write_scalar-Appends (binary txn.sender)))
            (write_scalar-Appends (binary txn.recipient)))
          (write_scalar-Appends (u64 txn.value)))
        (write_scalar-Appends (u32 txn.nonce)))
      tuple_write_end-Appends)

-- Writing a transaction appends the bytes of its signed tuple, as long as the buffer stays below
-- 2 ^ 31 bytes.
pub transaction_write-Appends :
    (txn : Transaction) → Appends (transaction_write txn) (encode_tuple (signed_values txn))
unfolding transaction_write encode encode_tuple
transaction_write-Appends txn =
    subst (Appends (transaction_write txn)) (simp (append_assoc, append-nil)) (
      Appends-then _ _
        (Appends-then _ _ (Appends-then _ _ tuple_write_start-Appends (write_body-Appends txn))
          (write_scalar-Appends (binary txn.signature)))
        tuple_write_end-Appends)

pub length-body : (txn : Transaction) → IsSized txn → length (encode_tuple (body_values txn)) ≡ 90
unfolding encode_tuple encode encode_scalar
length-body txn h =
    simp (length-append, length-le_bytes, length-be_bytes, h.sender_size, h.recipient_size)
      (omega arith)

pub length-signed :
    (txn : Transaction) → IsSized txn → length (encode_tuple (signed_values txn)) ≡ 161
unfolding encode_tuple encode encode_scalar
length-signed txn h =
    simp
      (
        length-append, length-le_bytes, length-be_bytes, h.sender_size, h.recipient_size,
        h.signature_size,
      )
      (omega arith)

pub rounds-signed : (fuel : ℕ) (txn : Transaction) → 8 ≤ fuel → rounds (signed_values txn) ≤ fuel
unfolding rounds
rounds-signed fuel txn h = omega arith

pub signed_values-Fits : (txn : Transaction) → IsSized txn → Fits (signed_values txn)
signed_values-Fits txn h = omega arith

module _ (crypto : Crypto) where
  -- The hash of a transaction: that of the bytes of its inner tuple.
  abbrev pub hash_of : Transaction → List ℕ
  hash_of txn = crypto.generichash (encode_tuple (body_values txn))

  pub transaction_compute_hash-eq :
      (txn : Transaction)
      → IsSized txn
      → transaction_compute_hash crypto txn ≡ ok (record txn { hash = hash_of txn })
  unfolding transaction_compute_hash
  transaction_compute_hash-eq txn h =
      let (buf, run, held) =
        write_body-Appends txn (dynamic_buffer_create 256) []
          (dynamic_buffer_create-Holds 256 (omega arith) (omega arith))
          (omega (arith, length-body txn h)) in
      rw (run, ◌>>=◌, contents-Holds buf _ held)
