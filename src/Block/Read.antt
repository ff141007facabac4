-- ===== src/Block/Read.antt =====
-- block.c: is_header_valid, block_is_valid and block_create_from_tuple, by which a node reads a
-- block that another node proposes.
pub mod Signed
pub mod Drawn
pub mod Stages
pub mod Accepted
pub mod Listed
pub mod Header
pub mod Valid
pub mod Proposed
use whosecoin_core.Base.{
  ℕ, zero, suc, ◌+◌, ◌-◌, ◌%◌, ◌^◌, Bool, true, false, Option, none, some, List, [], ◌∷◌, ◌++◌, ltb,
  leb, ◌==◌, if◌then◌else◌, is_zero, length, take, replicate, Run, ok, fault, ◌>>=◌, or_abort,
}
use whosecoin_core.Bytes.{memcmp}
use whosecoin_core.Crypto.{
  Crypto, crypto_generichash_bytes, crypto_sign_bytes, crypto_sign_public_key_bytes,
  crypto_vrf_public_key_bytes, crypto_vrf_proof_bytes, crypto_vrf_output_bytes,
}
use whosecoin_core.Tuple.{Tuple, tuple_start, tuple_binary, tuple_u64, tuple_u32}
use whosecoin_core.Tuple.Readers.{
  View, tuple_size, tuple_get_binary, tuple_get_tuple, tuple_get_u64, tuple_get_u32,
}
use whosecoin_core.Transaction.{
  Transaction, require, require_type, require_length, copy_view, transaction_is_valid,
  transaction_create_from_tuple,
}
use whosecoin_core.Block.{
  null, account, Block, Store, block_get_account, block_get_height, account_get_delegates,
  is_staking_allowed,
}
use whosecoin_core.Block.Accounts.{are_transactions_valid}
use whosecoin_core.Block.Merkle.{Hashes, compute_merkle_root, first_hash}
use whosecoin_core.Block.Wire.{compute_hash, block_compute_seed}
use whosecoin_core.Block.Create.{delegate_priority}

unfoldable pub is_header_valid : Tuple → Run Bool
is_header_valid t = require (tuple_size t == 7) (
    require_type t 0 tuple_u64 (
      require_type t 1 tuple_binary (
        require_length t 1 crypto_generichash_bytes (
          require_type t 2 tuple_binary (
            require_length t 2 crypto_generichash_bytes (
              require_type t 3 tuple_binary (
                require_length t 3 crypto_vrf_public_key_bytes (
                  require_type t 4 tuple_binary (
                    require_length t 4 crypto_vrf_proof_bytes
                      (require_type t 5 tuple_u32 (require_type t 6 tuple_u32 (ok true))))))))))))

-- The loop over the transactions, `left` of them from the index `i` on.
unfoldable pub are_tuples_valid : Tuple → ℕ → ℕ → Run Bool
are_tuples_valid txns zero i = ok true
are_tuples_valid txns (suc left) i =
    let rest = are_tuples_valid txns left (i + 1) in
    require_type txns i tuple_start
      (tuple_get_tuple txns i >>= λ txn. transaction_is_valid txn >>= λ valid. require valid rest)

module _ (crypto : Crypto) where
  -- The bytes of the inner tuple are hashed as they were received.
  unfoldable pub tuple_hashes : Tuple → ℕ → ℕ → Run Hashes
  unfolding copy_view
  tuple_hashes txns zero i = ok []
  tuple_hashes txns (suc left) i = do
    signed_txn ← tuple_get_tuple txns i
    txn ← tuple_get_tuple signed_txn 0
    bytes ← copy_view (record { size = txn.length_field; start = txn.start }) txn.length_field
    rest ← tuple_hashes txns left (i + 1)
    ok (crypto.generichash bytes ∷ rest)

  unfoldable pub merkle_root_from_tuple : Tuple → Run (List ℕ)
  unfolding tuple_hashes first_hash
  merkle_root_from_tuple txns = do
    let n = tuple_size txns
    hashes ← tuple_hashes txns n 0
    joined ← compute_merkle_root (n + 1) crypto hashes n
    first_hash joined n

  -- The part of `block_is_valid` on the header and the transactions. The length of the signature
  -- is not tested.
  unfoldable pub is_content_valid : Tuple → Tuple → Run Bool
  unfolding is_header_valid are_tuples_valid merkle_root_from_tuple copy_view
  is_content_valid header txns = do
    header_valid ← is_header_valid header
    elim header_valid [
      | false ↦ ok false
      | true ↦ (do
        n ← tuple_get_u32 header 6
        require (tuple_size txns == n) (do
          txns_valid ← are_tuples_valid txns (tuple_size txns) 0
          elim txns_valid [
            | false ↦ ok false
            | true ↦ (do
              merkle_root ← merkle_root_from_tuple txns
              v ← tuple_get_binary header 2
              expected ← copy_view v crypto_generichash_bytes
              ok (is_zero (memcmp crypto_generichash_bytes merkle_root expected)))
          ]))
    ]

  unfoldable pub block_is_valid : Tuple → Run Bool
  unfolding is_content_valid
  block_is_valid t = require (tuple_size t == 3) (
      require_type t 0 tuple_start (
        require_type t 1 tuple_binary (
          require_type t 2 tuple_start
            (tuple_get_tuple t 0 >>= λ header. tuple_get_tuple t 2 >>= is_content_valid header))))

  -- `memcpy(result->signature, signature.data, signature.length)` into an array of zeros; more
  -- than the array holds overwrites what lies behind it.
  unfoldable pub copy_signature : View → Run (List ℕ)
  unfolding copy_view
  copy_signature v = elim (leb v.size crypto_sign_bytes) [
    | false ↦ fault
    | true ↦ copy_view v v.size >>= λ s. ok (s ++ replicate (crypto_sign_bytes - v.size) 0)
  ]

  -- The fields that are copied out of the message, in an object of zeros.
  unfoldable pub read_header : (View → Option ℕ) → Tuple → View → Run Block
  unfolding copy_view copy_signature
  read_header find header signature = do
    timestamp ← tuple_get_u64 header 0
    prev_block ← tuple_get_binary header 1
    merkle_root ← tuple_get_binary header 2
    public_key ← tuple_get_binary header 3
    sortition_proof ← tuple_get_binary header 4
    delegate ← tuple_get_u32 header 5
    root ← copy_view merkle_root crypto_generichash_bytes
    key ← copy_view public_key crypto_vrf_public_key_bytes
    proof ← copy_view sortition_proof crypto_vrf_proof_bytes
    signed ← copy_signature signature
    ok (record {
      timestamp = timestamp;
      prev_block = find prev_block;
      merkle_root = root;
      public_key = key;
      sortition_proof = proof;
      signature = signed;
      delegate = delegate;
      transactions = [];
      hash = replicate crypto_generichash_bytes 0;
      sortition_seed = replicate crypto_generichash_bytes 0;
      sortition_hash = replicate crypto_vrf_output_bytes 0;
      sortition_priority = replicate crypto_generichash_bytes 0;
      height = 0;
      accounts = λ key. null;
    })

  -- `delegate >= n_delegate` of an account that exists, on a block that has a previous one
  unfoldable pub is_delegate_valid : Store → ℕ → Block → Run Bool
  is_delegate_valid st fuel block = elim block.prev_block [
    | none ↦ ok true
    | some a ↦ (do
      found ← block_get_account st fuel (some a) block.public_key
      elim found [
        | null ↦ ok true
        | account value older at ↦ (do
          n ← account_get_delegates (account value older at)
          ok (ltb block.delegate (n % 2 ^ 32)))
      ])
  ]

  -- The transactions, NULL where one does not verify.
  unfoldable pub read_transactions : Tuple → ℕ → ℕ → Run (List (Option Transaction))
  read_transactions txns zero i = ok []
  read_transactions txns (suc left) i = do
    t ← tuple_get_tuple txns i
    txn ← transaction_create_from_tuple crypto t
    rest ← read_transactions txns left (i + 1)
    ok (txn ∷ rest)

  -- `transaction_get_sender` stops at the assertion on a NULL in the list.
  unfoldable pub all_present : List (Option Transaction) → Run (List Transaction)
  all_present [] = ok []
  all_present (t ∷ ts) = do txn ← or_abort t; rest ← all_present ts; ok (txn ∷ rest)

  -- From the check of the signature on, for a block with its hash.
  unfoldable pub verify_block :
      Store → ℕ → ℕ → List (Option Transaction) → Block → Run (Option Block)
  unfolding all_present
  verify_block st fuel self txns hashed =
      let message = take crypto_sign_public_key_bytes hashed.hash in
      elim (crypto.sign_verify_detached hashed.signature message hashed.public_key) [
        | false ↦ ok none
        | true ↦ all_present txns >>= λ present.
            let whole = record hashed { transactions = present } in
            are_transactions_valid st fuel self whole >>= λ r.
            ok (if r.0 then some (record whole { accounts = r.1 }) else none)
      ]

  -- From the height on, with the list of transactions.
  unfoldable pub accept_block :
      Store → ℕ → ℕ → Block → List (Option Transaction) → Run (Option Block)
  unfolding verify_block
  accept_block st fuel self block txns = do
    height ← block_get_height st block.prev_block
    let placed = record block { height = (1 + height) % 2 ^ 32 }
    hashed ← compute_hash crypto st placed (length txns)
    verify_block st fuel self txns hashed

  -- The check of the sortition proof, which gives the sortition hash and with it the priority.
  unfoldable pub verify_sortition : Block → Option Block
  verify_sortition block =
      elim (crypto.vrf_verify block.public_key block.sortition_proof block.sortition_seed) [
        | none ↦ none
        | some output ↦ some (record block {
          sortition_hash = output;
          sortition_priority = delegate_priority crypto output block.delegate;
        })
      ]

  -- From the check of the sortition on.
  unfoldable pub draw_block : Store → ℕ → ℕ → Tuple → Block → Run (Option Block)
  unfolding is_delegate_valid read_transactions accept_block verify_sortition
  draw_block st fuel self txns block = block_compute_seed crypto st block >>= λ seeded.
      elim (verify_sortition seeded) [
        | none ↦ ok none
        | some drawn ↦ is_delegate_valid st fuel drawn >>= λ delegate_valid. elim delegate_valid [
          | false ↦ ok none
          | true ↦ read_transactions txns (tuple_size txns) 0 >>= accept_block st fuel self drawn
        ]
      ]

  -- The block at the new address `self` from its tuple, whose previous block `find` looks up, or
  -- NULL.
  unfoldable pub block_create_from_tuple :
      Store → ℕ → ℕ → (View → Option ℕ) → Tuple → Run (Option Block)
  unfolding block_is_valid read_header draw_block
  block_create_from_tuple st fuel self find t = block_is_valid t >>= λ valid. elim valid [
    | false ↦ ok none
    | true ↦ (do
      header ← tuple_get_tuple t 0
      signature ← tuple_get_binary t 1
      txns ← tuple_get_tuple t 2
      block ← read_header find header signature
      allowed ← is_staking_allowed st fuel block.prev_block block.public_key
      elim allowed [ false ↦ ok none | true ↦ draw_block st fuel self txns block ])
  ]
