-- ===== src/Block/Create/Placed.antt =====
-- A block that block.c's block_create returns stands on the block that it was given.
use whosecoin_core.Base.{
  ℕ, ◌==◌, ◌≡◌, ap, ◌∙◌, Option, some, List, length, ok, >>=-ok, passed, failed, kept,
}
use whosecoin_core.Crypto.{Crypto}
use whosecoin_core.Transaction.{Transaction}
use whosecoin_core.Block.{Block, Store, block_get_height, block_get_account, is_staking_allowed}
use whosecoin_core.Block.Accounts.{are_transactions_valid}
use whosecoin_core.Block.Merkle.{merkle_root_from_list}
use whosecoin_core.Block.Wire.{block_compute_hash}
use whosecoin_core.Block.Create.{
  count_delegates, finish_block, start_block, enter_sortition, block_create,
}
use whosecoin_core.Block.Read.Stages.{compute_hash-ok, block_compute_seed-ok}

module _ (crypto : Crypto) (st : Store) where
  start_block-prev :
      (now : ℕ) (public_key : List ℕ) (prev : Option ℕ) (txns : List Transaction) (b : Block)
      → start_block crypto st now public_key prev txns ≡ ok b
      → b.prev_block ≡ prev
  unfolding start_block
  start_block-prev now public_key prev txns b run =
      let (root, r0, e0) = >>=-ok (merkle_root_from_list crypto txns) _ run in
      let (x, eq) = block_compute_seed-ok crypto st _ e0 in ap (λ (b : Block). b.prev_block) eq

  finish_block-prev :
      (fuel self : ℕ) (private_key : List ℕ) (block b : Block)
      → finish_block crypto st fuel self private_key block ≡ ok (some b)
      → b.prev_block ≡ block.prev_block
  unfolding finish_block block_compute_hash
  finish_block-prev fuel self private_key block b run =
      let (hashed, r0, e0) = >>=-ok (block_compute_hash crypto st block) _ run in
      let (x, eq) = compute_hash-ok crypto st block (length block.transactions) r0 in
      let (height, r1, e1) = >>=-ok (block_get_height st hashed.prev_block) _ e0 in
      let (built, r2, e2) = >>=-ok (are_transactions_valid st fuel self _) _ e1 in
      let (valid, e3) = kept built.0 _ e2 in
      ap (λ (b : Block). b.prev_block) e3 ∙ ap (λ (b : Block). b.prev_block) eq

  -- The block that is created stands on `prev`.
  pub block_create-prev :
      (fuel self now : ℕ) (public_key private_key : List ℕ) (prev : Option ℕ)
      (txns : List Transaction) (b : Block)
      → block_create crypto st fuel self now public_key private_key prev txns ≡ ok (some b)
      → b.prev_block ≡ prev
  unfolding block_create enter_sortition
  block_create-prev fuel self now public_key private_key prev txns b run =
      let (allowed, r0, e0) = >>=-ok (is_staking_allowed st fuel prev public_key) _ run in
      let (is_allowed, e1) = passed allowed _ e0 in
      let (started, r1, e2) = >>=-ok (start_block crypto st now public_key prev txns) _ e1 in
      let (found, r2, e3) = >>=-ok (block_get_account st fuel prev public_key) _ e2 in
      let (n, r3, e4) = >>=-ok (count_delegates prev found) _ e3 in
      let (some_delegate, e5) = failed (n == 0) _ e4 in
      finish_block-prev fuel self private_key (enter_sortition crypto private_key n started) b e5
      ∙ start_block-prev now public_key prev txns started r1
