-- ===== src/Block/Create.antt =====
-- block.c: block_create, by which a node proposes a block with its best delegate.
pub mod Sortition
pub mod Placed
pub mod Proposed
pub mod Delegates
use whosecoin_core.Base.{
  ℕ, zero, suc, ◌+◌, ◌-◌, ◌%◌, ◌^◌, Bool, true, false, Option, none, some, List, ◌++◌, ltb, ◌==◌,
  if◌then◌else◌, ℤ, is_negative, replicate, Run, ok, ◌>>=◌,
}
use whosecoin_core.Bytes.{be_bytes, memcmp}
use whosecoin_core.Crypto.{
  Crypto, crypto_generichash_bytes, crypto_sign_bytes, crypto_vrf_output_bytes,
}
use whosecoin_core.Transaction.{Transaction}
use whosecoin_core.Block.{
  Account, null, account, Block, Store, block_get_account, block_get_height, account_get_delegates,
  is_staking_allowed,
}
use whosecoin_core.Block.Accounts.{are_transactions_valid}
use whosecoin_core.Block.Merkle.{merkle_root_from_list}
use whosecoin_core.Block.Wire.{block_compute_hash, block_compute_seed}

-- `prev == NULL` gives one delegate, and an account the delegates of its value, a `uint32_t`.
unfoldable pub count_delegates : Option ℕ → Account → Run ℕ
unfolding account_get_delegates
count_delegates prev (account value older block) =
    account_get_delegates (account value older block) >>= λ n. ok (n % 2 ^ 32)
count_delegates none null = ok 1
count_delegates (some a) null = ok 0

module _ (crypto : Crypto) where
  -- The hash of `work`: the sortition hash, and the number of the delegate in network order.
  unfoldable pub delegate_priority : List ℕ → ℕ → List ℕ
  delegate_priority sortition_hash i = crypto.generichash (sortition_hash ++ be_bytes 4 i)

  -- The loop over the delegates from `i` on, with `min_delegate` and `min`.
  unfoldable pub best_delegate : List ℕ → ℕ → ℕ → ℕ × List ℕ → ℕ × List ℕ
  unfolding delegate_priority
  best_delegate sortition_hash zero i best = best
  best_delegate sortition_hash (suc left) i best =
      let tmp = delegate_priority sortition_hash i in
      let next =
        if is_negative (memcmp crypto_generichash_bytes tmp best.1) then (i, tmp) else best in
      best_delegate sortition_hash left (i + 1) next

  -- From the hash on: the signature, the height and the accounts of the block at `self`.
  unfoldable pub finish_block : Store → ℕ → ℕ → List ℕ → Block → Run (Option Block)
  finish_block st fuel self private_key block = do
    hashed ← block_compute_hash crypto st block
    let signed = record hashed { signature = crypto.sign_detached hashed.hash private_key }
    height ← block_get_height st signed.prev_block
    let placed = record signed { height = (1 + height) % 2 ^ 32 }
    (valid, accounts) ← are_transactions_valid st fuel self placed
    ok (if valid then some (record placed { accounts = accounts }) else none)

  -- `calloc` and the header, up to the seed.
  unfoldable pub start_block : Store → ℕ → List ℕ → Option ℕ → List Transaction → Run Block
  start_block st now public_key prev txns = do
    merkle_root ← merkle_root_from_list crypto txns
    block_compute_seed crypto st (record {
      timestamp = now;
      prev_block = prev;
      merkle_root = merkle_root;
      public_key = public_key;
      sortition_proof = replicate 80 0;
      signature = replicate crypto_sign_bytes 0;
      delegate = 0;
      transactions = txns;
      hash = replicate crypto_generichash_bytes 0;
      sortition_seed = replicate crypto_generichash_bytes 0;
      sortition_hash = replicate crypto_vrf_output_bytes 0;
      sortition_priority = replicate crypto_generichash_bytes 0;
      height = 0;
      accounts = λ key. null;
    })

  -- The proof of the seed and the delegate with the least priority.
  unfoldable pub enter_sortition : List ℕ → ℕ → Block → Block
  unfolding best_delegate delegate_priority
  enter_sortition private_key n_delegates block =
      let proof = crypto.vrf_prove private_key block.sortition_seed in
      let output = crypto.vrf_proof_to_hash proof in
      let first : ℕ × List ℕ = (0, delegate_priority output 0) in
      let best = best_delegate output (n_delegates - 1) 1 first in
      record block {
        sortition_proof = proof;
        sortition_hash = output;
        sortition_priority = best.1;
        delegate = best.0;
      }

  -- The block at the new address `self` at the time `now`, or NULL.
  unfoldable pub block_create :
      Store → ℕ → ℕ → ℕ → List ℕ → List ℕ → Option ℕ → List Transaction → Run (Option Block)
  unfolding count_delegates finish_block start_block enter_sortition
  block_create st fuel self now public_key private_key prev txns = do
    allowed ← is_staking_allowed st fuel prev public_key
    elim allowed [
      | false ↦ ok none
      | true ↦ (do
        started ← start_block st now public_key prev txns
        found ← block_get_account st fuel prev public_key
        n_delegates ← count_delegates prev found
        elim (n_delegates == 0) [
          | true ↦ ok none
          | false ↦
              finish_block st fuel self private_key
                (enter_sortition private_key n_delegates started)
        ])
    ]
