-- ===== src/Node/Sync.antt =====
-- main/main.c: how nodes exchange blocks and transactions, and the commands of the terminal.
use whosecoin_core.Base.{
  ℕ, zero, suc, ◌+◌, ◌%◌, ◌^◌, true, false, Option, none, some, List, Run, ok, out_of_fuel, ◌>>=◌,
}
use whosecoin_core.Crypto.{Crypto}
use whosecoin_core.Buffer.{Buffer, dynamic_buffer_create, contents}
use whosecoin_core.Tuple.{Tuple}
use whosecoin_core.Tuple.Readers.{tuple_size, tuple_get_tuple, tuple_get_binary}
use whosecoin_core.Tuple.Write.{tuple_write_start, tuple_write_end, tuple_write_binary}
use whosecoin_core.Transaction.{transaction_create, transaction_create_from_tuple}
use whosecoin_core.Block.{
  Store, deref, block_get_hash, same_block, block_get_account, account_get_value, null, account,
}
use whosecoin_core.Block.Wire.{block_write, write_transactions}
use whosecoin_core.Pool.{pool_add}
use whosecoin_core.Node.{
  event_peers_request, event_blocks_request, event_blocks_response, event_pool_request,
  event_pool_response, send, Node, act, lookup_block,
}

-- A message with the contents of the buffer goes to the peer.
unfoldable pub reply : ℕ → ℕ → Node → Buffer → Run Node
reply event peer node buf = contents buf >>= λ payload. ok (act (send event payload peer) node)

unfoldable pub synchronize_blockchain : Node → ℕ → Option ℕ → Run Node
unfolding reply
synchronize_blockchain node peer block = do
  hash ← block_get_hash node.store block
  buf ←
      (tuple_write_start (dynamic_buffer_create 64) >>= tuple_write_binary hash >>= tuple_write_end)
  reply event_blocks_request peer node buf

-- A request without arguments.
unfoldable pub send_empty : ℕ → Node → ℕ → Run Node
unfolding reply
send_empty event node peer =
    tuple_write_start (dynamic_buffer_create 32) >>= tuple_write_end >>= reply event peer node

unfoldable pub synchronize_peers : Node → ℕ → Run Node
unfolding send_empty
synchronize_peers = send_empty event_peers_request

unfoldable pub synchronize_pool : Node → ℕ → Run Node
unfolding send_empty
synchronize_pool = send_empty event_pool_request

-- `while (iter != block && iter != NULL)`: the blocks from `iter` on are written.
unfoldable pub write_branch : ℕ → Store → Option ℕ → Option ℕ → Buffer → Run Buffer
unfolding deref
write_branch zero st block iter buf = out_of_fuel
write_branch (suc fuel) st block iter buf = elim (same_block iter block) [
  | true ↦ ok buf
  | false ↦ elim iter [
    | none ↦ ok buf
    | some a ↦ deref st a >>= λ b.
        block_write st b buf >>= λ longer. write_branch fuel st block b.prev_block longer
  ]
]

unfoldable pub on_blocks_request : ℕ → Node → ℕ → Tuple → Run Node
unfolding write_branch reply lookup_block
on_blocks_request fuel node peer msg = do
  hash ← tuple_get_binary msg 0
  let block = lookup_block node.chain hash
  buf ← tuple_write_start (dynamic_buffer_create 64)
  branch ← write_branch fuel node.store block node.chain.principal buf
  tuple_write_end branch >>= reply event_blocks_response peer node

unfoldable pub on_pool_request : Node → ℕ → Tuple → Run Node
unfolding write_transactions reply
on_pool_request node peer msg = do
  buf ← tuple_write_start (dynamic_buffer_create 64)
  written ← write_transactions node.pool buf
  tuple_write_end written >>= reply event_pool_response peer node

module _ (crypto : Crypto) where
  -- A transaction that is valid goes into the pool.
  unfoldable pub on_transaction : Node → Tuple → Run Node
  on_transaction node msg = transaction_create_from_tuple crypto msg >>= λ found. elim found [
    | none ↦ ok node
    | some txn ↦ ok (record node { pool = pool_add node.pool txn })
  ]

  -- The loop over the message, `left` transactions from the index `i` on.
  unfoldable pub each_transaction : Node → Tuple → ℕ → ℕ → Run Node
  unfolding on_transaction
  each_transaction node msg zero i = ok node
  each_transaction node msg (suc left) i = tuple_get_tuple msg i >>= λ t.
      on_transaction node t >>= λ next. each_transaction next msg left (i + 1)

  unfoldable pub on_pool_response : Node → Tuple → Run Node
  unfolding each_transaction
  on_pool_response node msg = each_transaction node msg (tuple_size msg) 0

  -- `handle_send_command`, after its arguments are read.
  unfoldable pub send_value : List ℕ → List ℕ → Node → List ℕ → ℕ → Run Node
  send_value pk sk node recipient value =
      transaction_create crypto pk sk recipient (value % 2 ^ 64) 0 >>= λ txn.
      ok (record node { pool = pool_add node.pool txn })

-- The value that `handle_value_command` prints.
unfoldable pub handle_value_command : ℕ → List ℕ → Node → Run ℕ
handle_value_command fuel pk node =
    block_get_account node.store fuel node.chain.principal pk >>= λ found. elim found [
      | null ↦ ok 0
      | account value prev block ↦ account_get_value (account value prev block)
    ]
