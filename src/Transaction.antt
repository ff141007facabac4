-- ===== src/Transaction.antt =====
-- transaction.c: signed transactions, their hash, and their binary form.
pub mod Wire
pub mod Read
use whosecoin_core.Base.{
  ℕ, suc, ◌+◌, ◌<◌, ◌≡◌, Bool, true, false, Option, none, some, List, ltb, ◌==◌, if◌then◌else◌,
  length, take, replicate, Run, ok, fault, ◌>>=◌,
}
use whosecoin_core.Buffer.{Buffer, dynamic_buffer_create, contents}
use whosecoin_core.Crypto.{
  Crypto, crypto_sign_public_key_bytes, crypto_sign_bytes, crypto_generichash_bytes,
}
use whosecoin_core.Tuple.{Tuple, tuple_start, tuple_binary, tuple_u64, tuple_u32}
use whosecoin_core.Tuple.Write.{
  tuple_write_start, tuple_write_end, tuple_write_binary, tuple_write_u64, tuple_write_u32,
}
use whosecoin_core.Tuple.Readers.{
  View, tuple_size, tuple_get_type, tuple_get_binary, tuple_get_tuple, tuple_get_u64, tuple_get_u32,
}

pub record Transaction : Type 0 where
  pub sender : List ℕ
  pub recipient : List ℕ
  pub value : ℕ
  pub nonce : ℕ
  pub signature : List ℕ
  pub hash : List ℕ

-- `if (!b) return false;`
abbrev pub require : Bool → Run Bool → Run Bool
require b rest = if b then rest else ok false

-- `if (tuple_get_type(tuple, i) != tag) return false;`
abbrev pub require_type : Tuple → ℕ → ℕ → Run Bool → Run Bool
require_type t i tag rest = tuple_get_type t i >>= λ c. require (c == tag) rest

-- `if (tuple_get_binary(tuple, i).length != n) return false;`
abbrev pub require_length : Tuple → ℕ → ℕ → Run Bool → Run Bool
require_length t i n rest = tuple_get_binary t i >>= λ v. require (v.size == n) rest

-- The part of `transaction_is_valid` on the inner tuple. Its size is not tested.
unfoldable pub is_body_valid : Tuple → Run Bool
is_body_valid txn = require_type txn 0 tuple_binary (
    require_length txn 0 crypto_sign_public_key_bytes (
      require_type txn 1 tuple_binary (
        require_length txn 1 crypto_sign_public_key_bytes
          (require_type txn 2 tuple_u64 (require_type txn 3 tuple_u32 (ok true))))))

unfoldable pub transaction_is_valid : Tuple → Run Bool
unfolding is_body_valid
transaction_is_valid t = require (tuple_size t == 2) (
    require_type t 0 tuple_start (
      require_type t 1 tuple_binary
        (require_length t 1 crypto_sign_bytes (tuple_get_tuple t 0 >>= is_body_valid))))

-- `memcpy(dst, v.data, n)` out of a message
unfoldable pub copy_view : View → ℕ → Run (List ℕ)
copy_view v n = if ltb (length v.start) n then fault else ok (take n v.start)

-- What is hashed and signed: the inner tuple.
unfoldable pub write_body : Transaction → Buffer → Run Buffer
write_body txn buf =
    tuple_write_start buf
    >>= tuple_write_binary txn.sender
    >>= tuple_write_binary txn.recipient
    >>= tuple_write_u64 txn.value
    >>= tuple_write_u32 txn.nonce
    >>= tuple_write_end

unfoldable pub transaction_write : Transaction → Buffer → Run Buffer
unfolding write_body
transaction_write txn buf =
    tuple_write_start buf
    >>= write_body txn
    >>= tuple_write_binary txn.signature
    >>= tuple_write_end

module _ (crypto : Crypto) where
  unfoldable pub transaction_compute_hash : Transaction → Run Transaction
  transaction_compute_hash txn = do
    buf ← write_body txn (dynamic_buffer_create 256)
    bytes ← contents buf
    ok (record txn { hash = crypto.generichash bytes })

  unfoldable pub transaction_create : List ℕ → List ℕ → List ℕ → ℕ → ℕ → Run Transaction
  transaction_create public_key private_key recipient value nonce = do
    txn ← transaction_compute_hash (record {
      sender = public_key;
      recipient = recipient;
      value = value;
      nonce = nonce;
      signature = replicate crypto_sign_bytes 0;
      hash = replicate crypto_generichash_bytes 0;
    })
    ok (record txn { signature = crypto.sign_detached txn.hash private_key })

  -- The message that is verified is the first `crypto_sign_PUBLICKEYBYTES` bytes of the hash.
  unfoldable pub verify : Transaction → Option Transaction
  verify txn =
      if crypto.sign_verify_detached txn.signature (take crypto_sign_public_key_bytes txn.hash)
        txn.sender
      then some txn
      else none

  -- The fields are read and copied in the order of the code.
  unfoldable pub read_transaction : Tuple → Run (Option Transaction)
  unfolding copy_view verify
  read_transaction t = do
    txn ← tuple_get_tuple t 0
    signature ← tuple_get_binary t 1
    sender ← tuple_get_binary txn 0
    recipient ← tuple_get_binary txn 1
    value ← tuple_get_u64 txn 2
    nonce ← tuple_get_u32 txn 3
    sender_key ← copy_view sender sender.size
    recipient_key ← copy_view recipient recipient.size
    hashed ← transaction_compute_hash (record {
      sender = sender_key;
      recipient = recipient_key;
      value = value;
      nonce = nonce;
      signature = replicate crypto_sign_bytes 0;
      hash = replicate crypto_generichash_bytes 0;
    })
    signed ← copy_view signature signature.size
    ok (verify (record hashed { signature = signed }))

  unfoldable pub transaction_create_from_tuple : Tuple → Run (Option Transaction)
  unfolding read_transaction
  transaction_create_from_tuple t = do
    valid ← transaction_is_valid t
    if valid then read_transaction t else ok none
