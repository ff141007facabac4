-- ===== src/Node/Blocks.antt =====
-- main/main.c: how a node proposes blocks, and what it does with those that it receives.
use whosecoin_core.Base.{
  ℕ, zero, suc, ◌+◌, true, false, Option, none, some, List, [], length, Run, ok, ◌>>=◌,
}
use whosecoin_core.Crypto.{Crypto}
use whosecoin_core.Buffer.{dynamic_buffer_create, contents}
use whosecoin_core.Tuple.{Tuple}
use whosecoin_core.Tuple.Readers.{tuple_size, tuple_get_tuple}
use whosecoin_core.Block.{Block, deref, block_get_child_with_public_key}
use whosecoin_core.Block.Create.{block_create}
use whosecoin_core.Block.Read.{block_create_from_tuple}
use whosecoin_core.Block.Wire.{block_write}
use whosecoin_core.Node.{
  event_block, broadcast, Node, act, lookup_block, next_address, add_block, drain,
}

module _ (crypto : Crypto) (fuel : ℕ) (pk sk : List ℕ) where
  -- The block at the address is sent; a block that was freed cannot be.
  unfoldable pub broadcast_block : Node → ℕ → Run Node
  unfolding deref
  broadcast_block node at = do
    block ← deref node.store at
    buf ← block_write node.store block (dynamic_buffer_create 64)
    payload ← contents buf
    ok (act (broadcast event_block payload) node)

  -- A block on `prev` with the whole pool, which is then empty, or NULL.
  unfoldable pub create_from_pool : Node → Option ℕ → Run (Option Block × Node)
  unfolding drain next_address
  create_from_pool node prev = do
    (txns, pool) ← drain (length node.pool + 1) [] node.pool
    let drained = record node { pool = pool }
    next ← block_create crypto node.store fuel (next_address node.store) node.clock pk sk prev txns
    ok (next, drained)

  -- The block is added, and sent to the peers if it is new.
  unfoldable pub announce_new : Node → Block → Run Node
  unfolding add_block broadcast_block next_address
  announce_new node b = add_block fuel node b >>= λ r. elim r.0 [
    | true ↦ broadcast_block r.1 (next_address node.store)
    | false ↦ ok r.1
  ]

  -- The attempt of `on_block` to fork the chain at `prev`, unless the node has a block there.
  unfoldable pub fork_at : Node → Option ℕ → Run Node
  unfolding create_from_pool announce_new
  fork_at node none = ok node
  fork_at node (some prev) = do
    own ← block_get_child_with_public_key node.store prev pk
    elim own [
      | some child ↦ ok node
      | none ↦ create_from_pool node (some prev) >>= λ r. elim r.0 [
        | none ↦ ok r.1
        | some next ↦ announce_new r.1 next
      ]
    ]

  -- A block that is received: added if it is valid and new, and then the attempt to fork.
  unfoldable pub on_block : Node → Tuple → Run Node
  unfolding fork_at add_block lookup_block next_address
  on_block node msg = do
    found ←
        block_create_from_tuple crypto node.store fuel (next_address node.store)
          (lookup_block node.chain) msg
    elim found [
      | none ↦ ok node
      | some b ↦ add_block fuel node b >>= λ r. elim r.0 [
        | false ↦ ok r.1
        | true ↦ fork_at r.1 b.prev_block
      ]
    ]

  -- The blocks of the message from the last, which is the earliest, to the first.
  unfoldable pub each_block : Node → Tuple → ℕ → Run Node
  unfolding on_block
  each_block node msg zero = ok node
  each_block node msg (suc i) =
      tuple_get_tuple msg i >>= λ t. on_block node t >>= λ next. each_block next msg i

  unfoldable pub on_blocks_response : Node → Tuple → Run Node
  unfolding each_block
  on_blocks_response node msg = each_block node msg (tuple_size msg)

  -- Here the block is sent to the peers whether or not it was added.
  unfoldable pub on_timer : Node → Run Node
  unfolding create_from_pool add_block broadcast_block next_address
  on_timer node = elim node.chain.principal [
    | none ↦ ok node
    | some principal ↦ (do
      own ← block_get_child_with_public_key node.store principal pk
      elim own [
        | some child ↦ ok node
        | none ↦ create_from_pool node (some principal) >>= λ r. elim r.0 [
          | none ↦ ok r.1
          | some next ↦
              add_block fuel r.1 next >>= λ s. broadcast_block s.1 (next_address r.1.store)
        ]
      ])
  ]

  -- `main`: the first block of the node, on no previous block and without transactions.
  unfoldable pub create_first : Node → Run Node
  unfolding add_block broadcast_block next_address
  create_first node = do
    next ← block_create crypto node.store fuel (next_address node.store) node.clock pk sk none []
    elim next [
      | none ↦ ok node
      | some b ↦ add_block fuel node b >>= λ s. broadcast_block s.1 (next_address node.store)
    ]
