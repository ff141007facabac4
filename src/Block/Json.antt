-- ===== src/Block/Json.antt =====
-- transaction.c and block.c: transactions and blocks as JSON text.
use whosecoin_core.Base.{
  ℕ, true, false, Option, none, some, List, [], ◌∷◌, ◌==◌, length, Run, ok, ◌>>=◌,
}
use whosecoin_core.Crypto.{
  crypto_generichash_bytes, crypto_sign_bytes, crypto_sign_public_key_bytes,
  crypto_vrf_public_key_bytes, crypto_vrf_proof_bytes, crypto_vrf_output_bytes,
}
use whosecoin_core.Buffer.{Buffer}
use whosecoin_core.Text.{codes}
use whosecoin_core.Hex.{binary_to_hex}
use whosecoin_core.Json.{
  json_write_object_start, json_write_object_end, json_write_array_start, json_write_array_end,
  json_write_string, json_write_key, json_write_number,
}
use whosecoin_core.Transaction.{Transaction}
use whosecoin_core.Block.{Block, Store, deref, block_get_hash}

-- A key with the hexadecimal text of an array.
write_hex : List ℕ → List ℕ → Buffer → Run Buffer
write_hex key hex buf = json_write_key key buf >>= json_write_string hex

write_count : List ℕ → ℕ → Buffer → Run Buffer
write_count key n buf = json_write_key key buf >>= json_write_number n

unfoldable pub transaction_write_json : Transaction → Buffer → Run Buffer
unfolding write_hex write_count
transaction_write_json txn buf = do
  sender ← binary_to_hex txn.sender crypto_sign_public_key_bytes
  recipient ← binary_to_hex txn.recipient crypto_sign_public_key_bytes
  hash ← binary_to_hex txn.hash crypto_generichash_bytes
  signature ← binary_to_hex txn.signature crypto_sign_bytes
  json_write_object_start buf
      >>= write_hex (codes "hash") hash
      >>= write_hex (codes "sender") sender
      >>= write_hex (codes "recipient") recipient
      >>= write_count (codes "value") txn.value
      >>= write_count (codes "nonce") txn.nonce
      >>= write_hex (codes "signature") signature
      >>= json_write_object_end

unfoldable pub block_write_json_header : Store → Block → Buffer → Run Buffer
unfolding write_hex write_count
block_write_json_header st block buf = do
  above ← block_get_hash st block.prev_block
  prev_block ← binary_to_hex above crypto_generichash_bytes
  merkle_root ← binary_to_hex block.merkle_root crypto_generichash_bytes
  public_key ← binary_to_hex block.public_key crypto_vrf_public_key_bytes
  sortition_proof ← binary_to_hex block.sortition_proof crypto_vrf_proof_bytes
  sortition_priority ← binary_to_hex block.sortition_priority crypto_generichash_bytes
  sortition_hash ← binary_to_hex block.sortition_hash crypto_vrf_output_bytes
  sortition_seed ← binary_to_hex block.sortition_seed crypto_generichash_bytes
  signature ← binary_to_hex block.signature crypto_sign_bytes
  json_write_object_start buf
      >>= write_count (codes "timestamp") block.timestamp
      >>= write_hex (codes "prev_block") prev_block
      >>= write_hex (codes "merkle_root") merkle_root
      >>= write_hex (codes "public_key") public_key
      >>= write_hex (codes "sortition_proof") sortition_proof
      >>= write_hex (codes "sortition_priority") sortition_priority
      >>= write_hex (codes "sortition_seed") sortition_seed
      >>= write_hex (codes "sortition_hash") sortition_hash
      >>= write_hex (codes "signature") signature
      >>= write_count (codes "n_transactions") (length block.transactions)
      >>= json_write_object_end

-- The loop over the children of the previous block, but for the block itself.
unfoldable pub write_siblings : Store → ℕ → List ℕ → Buffer → Run Buffer
unfolding block_write_json_header deref
write_siblings st block [] buf = ok buf
write_siblings st block (sibling ∷ children) buf = elim (sibling == block) [
  | true ↦ write_siblings st block children buf
  | false ↦ deref st sibling >>= λ b.
      block_write_json_header st b buf >>= write_siblings st block children
]

siblings_of : Store → Option ℕ → List ℕ
siblings_of st none = []
siblings_of st (some prev) = st.children prev

-- The loop over the transactions of the block.
unfoldable pub write_json_transactions : List Transaction → Buffer → Run Buffer
unfolding transaction_write_json
write_json_transactions [] buf = ok buf
write_json_transactions (txn ∷ txns) buf =
    transaction_write_json txn buf >>= write_json_transactions txns

-- The block at the address.
unfoldable pub block_write_json : Store → ℕ → Buffer → Run Buffer
unfolding write_hex write_count write_siblings write_json_transactions block_write_json_header
    siblings_of
block_write_json st at buf = do
  block ← deref st at
  hash ← binary_to_hex block.hash crypto_generichash_bytes
  json_write_object_start buf
      >>= write_hex (codes "hash") hash
      >>= write_count (codes "height") block.height
      >>= json_write_key (codes "siblings")
      >>= json_write_array_start
      >>= write_siblings st at (siblings_of st block.prev_block)
      >>= json_write_array_end
      >>= json_write_key (codes "header")
      >>= block_write_json_header st block
      >>= json_write_key (codes "transactions")
      >>= json_write_array_start
      >>= write_json_transactions block.transactions
      >>= json_write_array_end
      >>= json_write_object_end
