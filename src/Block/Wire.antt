-- ===== src/Block/Wire.antt =====
-- block.c: the binary form of a block and of its header, its hash and its sortition seed.
pub mod Bytes
pub mod Seed
pub mod Size
use whosecoin_core.Base.{
  ℕ, ◌+◌, ◌%◌, ◌^◌, Option, none, some, List, [], ◌∷◌, ◌++◌, length, take, replicate, Run, ok,
  ◌>>=◌,
}
use whosecoin_core.Buffer.{Buffer, dynamic_buffer_create, contents}
use whosecoin_core.Crypto.{Crypto, crypto_generichash_bytes, crypto_vrf_public_key_bytes}
use whosecoin_core.Tuple.Write.{
  tuple_write_start, tuple_write_end, tuple_write_binary, tuple_write_u64, tuple_write_u32,
}
use whosecoin_core.Transaction.{Transaction, transaction_write}
use whosecoin_core.Block.{Block, Store, deref, block_get_hash}

-- The header of a block with `n` transactions.
unfoldable pub write_header : Store → Block → ℕ → Buffer → Run Buffer
write_header st block n buf = do
  prev_hash ← block_get_hash st block.prev_block
  tuple_write_start buf
      >>= tuple_write_u64 block.timestamp
      >>= tuple_write_binary prev_hash
      >>= tuple_write_binary block.merkle_root
      >>= tuple_write_binary block.public_key
      >>= tuple_write_binary block.sortition_proof
      >>= tuple_write_u32 block.delegate
      >>= tuple_write_u32 (n % 2 ^ 32)
      >>= tuple_write_end

unfoldable pub block_write_header : Store → Block → Buffer → Run Buffer
unfolding write_header
block_write_header st block = write_header st block (length block.transactions)

-- The loop over the transactions.
unfoldable pub write_transactions : List Transaction → Buffer → Run Buffer
write_transactions [] buf = ok buf
write_transactions (txn ∷ txns) buf = transaction_write txn buf >>= write_transactions txns

unfoldable pub block_write : Store → Block → Buffer → Run Buffer
unfolding block_write_header write_transactions
block_write st block buf =
    tuple_write_start buf
    >>= block_write_header st block
    >>= tuple_write_binary block.signature
    >>= tuple_write_start
    >>= write_transactions block.transactions
    >>= tuple_write_end
    >>= tuple_write_end

module _ (crypto : Crypto) where
  -- The hash of a block with `n` transactions.
  unfoldable pub compute_hash : Store → Block → ℕ → Run Block
  unfolding write_header
  compute_hash st block n = do
    buf ← write_header st block n (dynamic_buffer_create 256)
    bytes ← contents buf
    ok (record block { hash = crypto.generichash bytes })

  unfoldable pub block_compute_hash : Store → Block → Run Block
  unfolding compute_hash
  block_compute_hash st block = compute_hash st block (length block.transactions)

  -- The hash of the seed and the key of the previous block, or of as many zero bytes.
  unfoldable pub block_compute_seed : Store → Block → Run Block
  unfolding deref
  block_compute_seed st block = elim block.prev_block [
    | none ↦
        let zeros = replicate (crypto_generichash_bytes + crypto_vrf_public_key_bytes) 0 in
        ok (record block { sortition_seed = crypto.generichash zeros })
    | some a ↦ deref st a >>= λ prev. ok (record block {
      sortition_seed = crypto.generichash (prev.sortition_seed ++ prev.public_key);
    })
  ]
