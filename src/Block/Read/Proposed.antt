-- ===== src/Block/Read/Proposed.antt =====
-- A block that is proposed by the rules is accepted by the node that reads it.
use whosecoin_core.Base.{
  ℕ, suc, ◌∷◌, arith, ◌+◌, ◌%◌, ◌^◌, ◌≡◌, refl, ap, true, Option, some, List, [], ◌++◌, length, map,
  replicate, take, ok, ◌>>=◌, >>=-ok, ok-injective,
}
use whosecoin_core.Crypto.{Crypto, crypto_sign_public_key_bytes, crypto_generichash_bytes}
use whosecoin_core.Tuple.{Tuple}
use whosecoin_core.Tuple.Values.{encode_scalar, encode_tuple, Shows}
use whosecoin_core.Tuple.Readers.{View}
use whosecoin_core.Tuple.Readers.Agree.{tuple_get_binary-Shows, tuple_get_tuple-Shows}
use whosecoin_core.Block.{null, Block, Store, block_get_hash, block_get_height, is_staking_allowed}
use whosecoin_core.Block.Accounts.{are_transactions_valid}
use whosecoin_core.Block.Merkle.{merkle_root_from_list}
use whosecoin_core.Block.Wire.{block_compute_seed}
use whosecoin_core.Block.Wire.Seed.{block_compute_seed-same}
use whosecoin_core.Block.Wire.Bytes.{
  header_values, transaction_list, block_values, IsHeaderSized, compute_hash-eq,
}
use whosecoin_core.Block.Create.{delegate_priority}
use whosecoin_core.Block.Read.{
  is_delegate_valid, verify_sortition, verify_block, accept_block, draw_block,
  block_create_from_tuple,
}
use whosecoin_core.Block.Read.Signed.{AreSigned}
use whosecoin_core.Block.Read.Listed.{AreHashed, present_all, read_transactions-list}
use whosecoin_core.Block.Read.Header.{IsBlockSized, copied, read_header-Shows}
use whosecoin_core.Block.Read.Valid.{block_is_valid-Shows}

length-map-some : {A : Type 0} (xs : List A) → length (map some xs) ≡ length xs
length-map-some [] = refl
length-map-some (x ∷ xs) = ap suc (length-map-some xs)

module _ (crypto : Crypto) (st : Store) (fuel self : ℕ) where
  -- The block as its proposer must have built it at the address `self`: its seed, its sortition,
  -- its delegate, its height, its hash, its signature and its accounts are those that the rules
  -- give on its previous block, which has the hash `prev_hash`.
  pub record IsProposed (prev_hash : List ℕ) (b : Block) : Type 0 where
    pub prev : block_get_hash st b.prev_block ≡ ok prev_hash
    pub root : merkle_root_from_list crypto b.transactions ≡ ok b.merkle_root
    pub allowed : is_staking_allowed st fuel b.prev_block b.public_key ≡ ok true
    pub seeded : block_compute_seed crypto st b ≡ ok b
    pub drawn :
        crypto.vrf_verify b.public_key b.sortition_proof b.sortition_seed ≡ some b.sortition_hash
    pub priority : b.sortition_priority ≡ delegate_priority crypto b.sortition_hash b.delegate
    pub delegated : is_delegate_valid crypto st fuel b ≡ ok true
    pub placed :
        (block_get_height st b.prev_block >>= λ height. ok ((1 + height) % 2 ^ 32)) ≡ ok b.height
    pub hashed : b.hash ≡ crypto.generichash (encode_tuple (header_values prev_hash b))
    pub signed :
        crypto.sign_verify_detached b.signature
          (take crypto_sign_public_key_bytes b.hash)
          b.public_key
        ≡ true
    pub built :
        are_transactions_valid st fuel self (record b { accounts = λ key. null })
        ≡ ok (true, b.accounts)

  -- The object after the check of the sortition.
  abbrev unplaced : Block → Block
  unplaced b = record b {
    transactions = [];
    hash = replicate crypto_generichash_bytes 0;
    height = 0;
    accounts = λ key. null;
  }

  verify_sortition-copied :
      (prev_hash : List ℕ) (b : Block)
      → IsProposed prev_hash b
      → verify_sortition crypto (record (copied b) { sortition_seed = b.sortition_seed })
        ≡ some (unplaced b)
  unfolding verify_sortition
  verify_sortition-copied prev_hash b h = rw (h.drawn, verify_sortition, h.priority)

  unplaced_sized :
      (b : Block) → IsHeaderSized b → IsHeaderSized (record (unplaced b) { height = b.height })
  unplaced_sized b h = record {
    merkle_root_size = h.merkle_root_size;
    public_key_size = h.public_key_size;
    sortition_proof_size = h.sortition_proof_size;
  }

  is_delegate_valid-unplaced :
      (prev_hash : List ℕ) (b : Block)
      → IsProposed prev_hash b
      → is_delegate_valid crypto st fuel (unplaced b) ≡ ok true
  unfolding is_delegate_valid
  is_delegate_valid-unplaced prev_hash b h = h.delegated

  verify_block-Proposed :
      (prev_hash : List ℕ) (b : Block)
      → IsProposed prev_hash b
      → verify_block crypto st fuel self
          (map some b.transactions)
          (record b { transactions = []; accounts = λ key. null })
        ≡ ok (some b)
  unfolding verify_block
  verify_block-Proposed prev_hash b h =
      rw (h.signed, verify_block, present_all crypto b.transactions, ◌>>=◌, h.built, ◌>>=◌)

  accept_block-Proposed :
      (prev_hash : List ℕ) (b : Block)
      → IsBlockSized prev_hash b
      → IsProposed prev_hash b
      → accept_block crypto st fuel self (unplaced b) (map some b.transactions) ≡ ok (some b)
  unfolding accept_block
  accept_block-Proposed prev_hash b sized h =
      let (height, there, end) = >>=-ok (block_get_height st b.prev_block) _ h.placed in
      let place : (1 + height) % 2 ^ 32 ≡ b.height = ok-injective refl end in
      let hash =
        compute_hash-eq crypto st (record (unplaced b) { height = b.height }) b.transactions
          prev_hash h.prev sized.prev_hash_size (unplaced_sized b sized.header_sized) in
      rw (there, ◌>>=◌, place, length-map-some b.transactions, hash, ◌>>=◌, ← h.hashed)
        (verify_block-Proposed prev_hash b h)

  draw_block-Proposed :
      (prev_hash : List ℕ) (b : Block) (txns : Tuple)
      → IsBlockSized prev_hash b
      → IsProposed prev_hash b
      → AreHashed crypto b.transactions
      → AreSigned crypto b.transactions
      → Shows txns.elements (transaction_list b.transactions)
      → draw_block crypto st fuel self txns (copied b) ≡ ok (some b)
  unfolding draw_block
  draw_block-Proposed prev_hash b txns sized h hashed signed list =
      rw
        (
          block_compute_seed-same crypto st b (copied b) b refl h.seeded,
          ◌>>=◌,
          verify_sortition-copied prev_hash b h,
          is_delegate_valid-unplaced prev_hash b h,
          ◌>>=◌,
          read_transactions-list crypto txns b.transactions list hashed signed,
          ◌>>=◌,
        )
        (accept_block-Proposed prev_hash b sized h)

  -- A message that shows a block is read as that block, if the block is proposed by the rules on a
  -- previous block that the reader finds by its hash, its fields and those of its transactions have
  -- their C sizes, and its transactions have their hashes and are signed by their senders.
  pub block_create_from_tuple-Shows :
      (prev_hash : List ℕ) (b : Block) (find : View → Option ℕ) (t : Tuple)
      → IsBlockSized prev_hash b
      → IsProposed prev_hash b
      → AreHashed crypto b.transactions
      → AreSigned crypto b.transactions
      → ((r : List ℕ)
          → find (record { size = crypto_generichash_bytes; start = prev_hash ++ r })
            ≡ b.prev_block)
      → Shows t.elements (block_values prev_hash b)
      → block_create_from_tuple crypto st fuel self find t ≡ ok (some b)
  unfolding block_create_from_tuple encode_scalar
  block_create_from_tuple-Shows prev_hash b find t sized h hashed signed found shows =
      let vs = block_values prev_hash b in
      let head = header_values prev_hash b in
      let list = transaction_list b.transactions in
      let (header, sub0, (inner0, start0, size0)) = tuple_get_tuple-Shows t vs 0 shows head refl in
      let (r, field) =
        tuple_get_binary-Shows t vs 1 shows b.signature (omega (arith, sized.signature_size))
          refl in
      let (txns, sub2, (inner2, start2, size2)) = tuple_get_tuple-Shows t vs 2 shows list refl in
      rw
        (
          block_is_valid-Shows crypto prev_hash b sized hashed h.root t shows,
          sub0,
          ◌>>=◌,
          field,
          ◌>>=◌,
          sub2,
          ◌>>=◌,
          read_header-Shows prev_hash b sized header inner0 crypto find found r,
          ◌>>=◌,
          h.allowed,
          ◌>>=◌,
        )
        (draw_block-Proposed prev_hash b txns sized h hashed signed inner2)
