-- ===== src/Node/FirstBlock.antt =====
-- main/main.c: what a node does first: it creates a block on no other, which becomes its principal.
use whosecoin_core.Base.{
  ℕ, suc, ◌+◌, ◌^◌, ◌<◌, ◌≡◌, refl, arith, true, none, some, List, [], ◌∷◌, ◌==◌, replicate, length,
  Returns, ok, ◌>>=◌, if◌then◌else◌,
}
use whosecoin_core.Crypto.{
  Crypto, crypto_generichash_bytes, crypto_sign_bytes, crypto_vrf_public_key_bytes,
  crypto_vrf_proof_bytes, crypto_vrf_output_bytes,
}
use whosecoin_core.Buffer.{dynamic_buffer_create}
use whosecoin_core.Buffer.Refines.{dynamic_buffer_create-Holds, contents-Holds}
use whosecoin_core.Tuple.Values.{encode_tuple}
use whosecoin_core.Block.{Block, Store, Account, null, account, deref, map_set}
use whosecoin_core.Block.Wire.{block_compute_hash, block_write}
use whosecoin_core.Block.Wire.Bytes.{
  header_values, block_values, IsHeaderSized, block_compute_hash-eq, block_write-Appends,
}
use whosecoin_core.Block.Wire.Size.{length-block}
use whosecoin_core.Block.Create.{enter_sortition, block_create}
use whosecoin_core.Blockchain.{index_set}
use whosecoin_core.Node.{Node, Action, act, broadcast, start_timer, start, event_block, add_block}
use whosecoin_core.Node.Blocks.{broadcast_block, create_first}

module _ (crypto : Crypto) (fuel clock : ℕ) (pk sk : List ℕ) where
  abbrev zeros : List ℕ
  zeros = replicate crypto_generichash_bytes 0

  abbrev seeded : Block
  seeded = record {
    timestamp = clock;
    prev_block = none;
    merkle_root = zeros;
    public_key = pk;
    sortition_proof = replicate 80 0;
    signature = replicate crypto_sign_bytes 0;
    delegate = 0;
    transactions = [];
    hash = zeros;
    sortition_seed =
        crypto.generichash (replicate (crypto_generichash_bytes + crypto_vrf_public_key_bytes) 0);
    sortition_hash = replicate crypto_vrf_output_bytes 0;
    sortition_priority = zeros;
    height = 0;
    accounts = λ key. null;
  }

  -- The block with its only delegate.
  abbrev drawn : Block
  drawn = enter_sortition crypto sk 1 seeded

  abbrev pub genesis_block : Block
  genesis_block =
      let hash = crypto.generichash (encode_tuple (header_values zeros drawn)) in
      record drawn {
        hash = hash;
        signature = crypto.sign_detached hash sk;
        height = 1;
        accounts = map_set (λ key. null) pk (account 1024 null 0);
      }

  module _ (key_size : length pk ≡ crypto_vrf_public_key_bytes)
      (proof_size : (k m : List ℕ) → length (crypto.vrf_prove k m) ≡ crypto_vrf_proof_bytes) where
    drawn-IsHeaderSized : IsHeaderSized drawn
    unfolding enter_sortition
    drawn-IsHeaderSized = record {
      merkle_root_size = refl;
      public_key_size = key_size;
      sortition_proof_size = proof_size sk _;
    }

    drawn-hash :
        block_compute_hash crypto (start clock).store drawn
        ≡ ok (record drawn { hash = crypto.generichash (encode_tuple (header_values zeros drawn)) })
    unfolding enter_sortition whosecoin_core.Block.block_get_hash
    drawn-hash =
        block_compute_hash-eq crypto (start clock).store drawn zeros refl refl drawn-IsHeaderSized

    pub created-first :
        block_create crypto (start clock).store (suc fuel) 0 clock pk sk none []
        ≡ ok (some genesis_block)
    unfolding block_create whosecoin_core.Block.is_staking_allowed
        whosecoin_core.Block.Merkle.merkle_root_from_list
        whosecoin_core.Block.Wire.block_compute_seed whosecoin_core.Block.block_get_account
        whosecoin_core.Block.block_get_height whosecoin_core.Block.Accounts.are_transactions_valid
        whosecoin_core.Block.Accounts.add64
    created-first = rw (drawn-hash, ◌>>=◌) refl

    abbrev after : Node
    after = record (start clock) {
      store = record {
        blocks = some genesis_block ∷ [];
        children = λ a. if a == 0 then [] else [];
      };
      chain = record {
        blocks = index_set (λ h. none) genesis_block.hash 0;
        txns = λ h. none;
        principal = some 0;
      };
      actions = start_timer 3000 ∷ [];
    }

    added-first : add_block (suc fuel) (start clock) genesis_block ≡ ok (true, after)
    unfolding add_block enter_sortition whosecoin_core.Block.block_get_hash
        whosecoin_core.Block.block_get_prev whosecoin_core.Blockchain.blockchain_create
    added-first = refl

    abbrev pub first_bytes : List ℕ
    first_bytes = encode_tuple (block_values zeros genesis_block)

    length-first_bytes : length first_bytes < 2 ^ 31
    unfolding enter_sortition
    length-first_bytes =
        let sized : IsHeaderSized genesis_block = record {
          merkle_root_size = refl;
          public_key_size = key_size;
          sortition_proof_size = proof_size sk _;
        } in
        let size =
          length-block genesis_block zeros refl sized (crypto.length-sign_detached _ sk) tt in
        omega (arith, size)

    broadcast-first :
        broadcast_block crypto (suc fuel) pk sk after 0
        ≡ ok (act (broadcast event_block first_bytes) after)
    unfolding broadcast_block deref enter_sortition whosecoin_core.Block.block_get_hash
    broadcast-first =
        let (buf, written, held) =
          block_write-Appends after.store genesis_block zeros refl (dynamic_buffer_create 64) []
            (dynamic_buffer_create-Holds 64 (omega arith) (omega arith))
            (omega (arith, length-first_bytes)) in
        rw (written, ◌>>=◌, contents-Holds buf first_bytes held, ◌>>=◌) refl

    -- A node with a public key of 32 bytes, whose proofs have 80, creates its first block: the run
    -- returns, the block is the principal, the timer is started for the next one, and the bytes of
    -- the block are sent to the peers.
    pub create_first-returns : Returns (create_first crypto (suc fuel) pk sk (start clock)) λ node.
        (deref node.store 0 ≡ ok genesis_block)
        × (node.chain.principal ≡ some 0)
        × (node.actions ≡ start_timer 3000 ∷ broadcast event_block first_bytes ∷ [])
    unfolding create_first deref whosecoin_core.Node.next_address
    create_first-returns = (
      act (broadcast event_block first_bytes) after,
      rw (created-first, ◌>>=◌, added-first, ◌>>=◌, broadcast-first) refl,
      (refl, refl, refl),
    )
