-- ===== src/Block/Wire/Bytes.antt =====
-- The bytes that a block is written as, and the bytes that its hash is of.
use whosecoin_core.Base.{
  ℕ, ◌%◌, ◌^◌, ◌≡◌, subst, List, [], ◌∷◌, append_assoc, append-nil, arith, length, length-append,
  ok, ◌>>=◌,
}
use whosecoin_core.Buffer.{dynamic_buffer_create}
use whosecoin_core.Buffer.Refines.{dynamic_buffer_create-Holds, contents-Holds}
use whosecoin_core.Buffer.Appends.{Appends, Appends-then, ok-Appends}
use whosecoin_core.Bytes.{length-be_bytes, length-le_bytes}
use whosecoin_core.Crypto.{
  Crypto, crypto_generichash_bytes, crypto_vrf_public_key_bytes, crypto_vrf_proof_bytes,
}
use whosecoin_core.Tuple.Values.{
  u32, u64, binary, Values, nil, scalar, tuple, encode_scalar, encode, encode_tuple,
}
use whosecoin_core.Tuple.Write.{
  write_scalar-Appends, tuple_write_start-Appends, tuple_write_end-Appends,
}
use whosecoin_core.Transaction.{Transaction}
use whosecoin_core.Transaction.Wire.{signed_values, transaction_write-Appends}
use whosecoin_core.Block.{Block, Store, block_get_hash}
use whosecoin_core.Block.Wire.{
  block_write_header, write_transactions, block_write, compute_hash, block_compute_hash,
}

-- The header of a block after a previous block with the hash `prev_hash`.
abbrev pub header_values : List ℕ → Block → Values
header_values prev_hash b = scalar (u64 b.timestamp) (
    scalar (binary prev_hash) (
      scalar (binary b.merkle_root) (
        scalar (binary b.public_key) (
          scalar (binary b.sortition_proof)
            (scalar (u32 b.delegate) (scalar (u32 (length b.transactions % 2 ^ 32)) nil))))))

abbrev pub transaction_list : List Transaction → Values
transaction_list [] = nil
transaction_list (txn ∷ txns) = tuple (signed_values txn) (transaction_list txns)

-- README: the header, the signature, and a tuple of the transactions.
abbrev pub block_values : List ℕ → Block → Values
block_values prev_hash b =
    tuple (header_values prev_hash b)
      (scalar (binary b.signature) (tuple (transaction_list b.transactions) nil))

block_write_header-Appends :
    (st : Store) (b : Block) (prev_hash : List ℕ)
    → block_get_hash st b.prev_block ≡ ok prev_hash
    → Appends (block_write_header st b) (encode_tuple (header_values prev_hash b))
unfolding block_write_header whosecoin_core.Block.Wire.write_header encode encode_tuple
block_write_header-Appends st b prev_hash e = rw e (
    subst (Appends _) (simp (append_assoc, append-nil)) (
      Appends-then _ _
        (Appends-then _ _
          (Appends-then _ _
            (Appends-then _ _
              (Appends-then _ _
                (Appends-then _ _
                  (Appends-then _ _
                    (Appends-then _ _ tuple_write_start-Appends
                      (write_scalar-Appends (u64 b.timestamp)))
                    (write_scalar-Appends (binary prev_hash)))
                  (write_scalar-Appends (binary b.merkle_root)))
                (write_scalar-Appends (binary b.public_key)))
              (write_scalar-Appends (binary b.sortition_proof)))
            (write_scalar-Appends (u32 b.delegate)))
          (write_scalar-Appends (u32 (length b.transactions % 2 ^ 32))))
        tuple_write_end-Appends))

write_transactions-Appends :
    (txns : List Transaction) → Appends (write_transactions txns) (encode (transaction_list txns))
unfolding write_transactions encode encode_tuple
write_transactions-Appends [] = ok-Appends
write_transactions-Appends (txn ∷ txns) =
    subst (Appends _) (simp (append_assoc, append-nil))
      (Appends-then _ _ (transaction_write-Appends txn) (write_transactions-Appends txns))

-- Writing a block whose previous block has the hash `prev_hash` appends the bytes of the tuple
-- of its header, its signature and the tuple of its transactions.
pub block_write-Appends :
    (st : Store) (b : Block) (prev_hash : List ℕ)
    → block_get_hash st b.prev_block ≡ ok prev_hash
    → Appends (block_write st b) (encode_tuple (block_values prev_hash b))
unfolding block_write encode encode_tuple
block_write-Appends st b prev_hash e =
    subst (Appends (block_write st b)) (simp (append_assoc, append-nil)) (
      Appends-then _ _
        (Appends-then _ _
          (Appends-then _ _
            (Appends-then _ _
              (Appends-then _ _
                (Appends-then _ _ tuple_write_start-Appends
                  (block_write_header-Appends st b prev_hash e))
                (write_scalar-Appends (binary b.signature)))
              tuple_write_start-Appends)
            (write_transactions-Appends b.transactions))
          tuple_write_end-Appends)
        tuple_write_end-Appends)

-- The arrays of the header have their C sizes.
pub record IsHeaderSized (b : Block) : Type 0 where
  pub merkle_root_size : length b.merkle_root ≡ crypto_generichash_bytes
  pub public_key_size : length b.public_key ≡ crypto_vrf_public_key_bytes
  pub sortition_proof_size : length b.sortition_proof ≡ crypto_vrf_proof_bytes

length-header :
    (b : Block) (prev_hash : List ℕ)
    → length prev_hash ≡ crypto_generichash_bytes
    → IsHeaderSized b
    → length (encode_tuple (header_values prev_hash b)) ≡ 217
unfolding encode_tuple encode encode_scalar
length-header b prev_hash size h =
    simp
      (
        length-append, length-le_bytes, length-be_bytes, size, h.merkle_root_size,
        h.public_key_size, h.sortition_proof_size,
      )
      (omega arith)

-- The hash of a block with the transactions `txns` is that of the bytes of its header tuple.
pub compute_hash-eq :
    (crypto : Crypto) (st : Store) (b : Block) (txns : List Transaction) (prev_hash : List ℕ)
    → block_get_hash st b.prev_block ≡ ok prev_hash
    → length prev_hash ≡ crypto_generichash_bytes
    → IsHeaderSized b
    → compute_hash crypto st b (length txns)
      ≡ ok (record b {
        hash =
            crypto.generichash
              (encode_tuple (header_values prev_hash (record b { transactions = txns })));
      })
unfolding compute_hash block_write_header
compute_hash-eq crypto st b txns prev_hash e size h =
    let whole : Block = record b { transactions = txns } in
    let sized : IsHeaderSized whole = record {
      merkle_root_size = h.merkle_root_size;
      public_key_size = h.public_key_size;
      sortition_proof_size = h.sortition_proof_size;
    } in
    let (buf, run, held) =
      block_write_header-Appends st whole prev_hash e (dynamic_buffer_create 256) []
        (dynamic_buffer_create-Holds 256 (omega arith) (omega arith))
        (omega (arith, length-header whole prev_hash size sized)) in
    rw (run, ◌>>=◌, contents-Holds buf _ held)

-- The hash of a block is that of the bytes of its header tuple.
pub block_compute_hash-eq :
    (crypto : Crypto) (st : Store) (b : Block) (prev_hash : List ℕ)
    → block_get_hash st b.prev_block ≡ ok prev_hash
    → length prev_hash ≡ crypto_generichash_bytes
    → IsHeaderSized b
    → block_compute_hash crypto st b
      ≡ ok (record b { hash = crypto.generichash (encode_tuple (header_values prev_hash b)) })
unfolding block_compute_hash
block_compute_hash-eq crypto st b prev_hash e size h =
    compute_hash-eq crypto st b b.transactions prev_hash e size h
