-- ===== src/Node/Invariant/Replies.antt =====
-- The handlers of main.c that exchange peers and transactions keep the node sound.
use whosecoin_core.Base.{
  ℕ, zero, suc, ◌+◌, ◌%◌, ◌^◌, Bool, true, false, Option, none, some, List, set, Run, ok, ◌>>=◌,
  if◌then◌else◌,
}
use whosecoin_core.Crypto.{Crypto}
use whosecoin_core.Buffer.{Buffer, dynamic_buffer_create, contents}
use whosecoin_core.Tuple.{Tuple}
use whosecoin_core.Tuple.Readers.{
  tuple_size, tuple_get_tuple, tuple_get_binary, tuple_get_i32, tuple_get_string,
}
use whosecoin_core.Tuple.Write.{
  tuple_write_start, tuple_write_end, tuple_write_binary, tuple_write_i32, tuple_write_string,
}
use whosecoin_core.Transaction.{Transaction, transaction_create, transaction_create_from_tuple}
use whosecoin_core.Block.{block_get_hash}
use whosecoin_core.Block.Wire.{write_transactions}
use whosecoin_core.Pool.{pool_add}
use whosecoin_core.Pool.Distinct.{pool_add-AreDistinct}
use whosecoin_core.Node.{Peer, Node, act, connect, disconnect, lookup_block, c_string}
use whosecoin_core.Node.Sync.{
  reply, synchronize_blockchain, send_empty, synchronize_peers, synchronize_pool, write_branch,
  on_blocks_request, on_pool_request, on_transaction, each_transaction, on_pool_response,
  send_value,
}
use whosecoin_core.Bytes.{same_string}
use whosecoin_core.Node.Peers.{
  version_string, network_get_peer, network_has_peer, on_connect, on_handshake, write_peers,
  on_peers_request, each_peer, on_peers_response,
}
use whosecoin_core.Node.Invariant.Adds.{IsSound, Follows}
use whosecoin_core.Node.Invariant.Ends.{
  LeadsTo, Follows-refl, LeadsTo-ok, LeadsTo-bind, LeadsTo-then, LeadsTo-later,
}

reply-LeadsTo :
    (event peer : ℕ) (node : Node) (buf : Buffer)
    → IsSound node
    → LeadsTo node (reply event peer node buf)
unfolding reply
reply-LeadsTo event peer node buf h =
    LeadsTo-bind node (contents buf) _ (λ payload r0. LeadsTo-ok node _ (Follows-refl node h))

-- A message is written, and is sent.
written-LeadsTo :
    (event peer : ℕ) (node : Node) (write : Run Buffer)
    → IsSound node
    → LeadsTo node (write >>= reply event peer node)
written-LeadsTo event peer node write h =
    LeadsTo-bind node write (reply event peer node) (λ buf r0. reply-LeadsTo event peer node buf h)

send_empty-LeadsTo :
    (event : ℕ) (node : Node) (peer : ℕ) → IsSound node → LeadsTo node (send_empty event node peer)
unfolding send_empty
send_empty-LeadsTo event node peer h = written-LeadsTo event peer node _ h

pub synchronize_pool-LeadsTo :
    (node : Node) (peer : ℕ) → IsSound node → LeadsTo node (synchronize_pool node peer)
unfolding synchronize_pool
synchronize_pool-LeadsTo node peer h = send_empty-LeadsTo _ node peer h

pub on_blocks_request-LeadsTo :
    (fuel : ℕ) (node : Node) (peer : ℕ) (msg : Tuple)
    → IsSound node
    → LeadsTo node (on_blocks_request fuel node peer msg)
unfolding on_blocks_request
on_blocks_request-LeadsTo fuel node peer msg h =
    LeadsTo-bind node (tuple_get_binary msg 0) _ (λ hash r0.
      LeadsTo-bind node (tuple_write_start (dynamic_buffer_create 64)) _ (λ buf r1.
        LeadsTo-bind node
          (write_branch fuel node.store (lookup_block node.chain hash) node.chain.principal buf) _
          (λ branch r2. written-LeadsTo _ peer node (tuple_write_end branch) h)))

pub on_pool_request-LeadsTo :
    (node : Node) (peer : ℕ) (msg : Tuple)
    → IsSound node
    → LeadsTo node (on_pool_request node peer msg)
unfolding on_pool_request
on_pool_request-LeadsTo node peer msg h =
    LeadsTo-bind node (tuple_write_start (dynamic_buffer_create 64)) _ (λ buf r0.
      LeadsTo-bind node (write_transactions node.pool buf) _
        (λ written r1. written-LeadsTo _ peer node (tuple_write_end written) h))

pooled-Follows :
    (node : Node) (txn : Transaction)
    → IsSound node
    → Follows node (record node { pool = pool_add node.pool txn })
pooled-Follows node txn (tree, distinct) =
    ((tree, (pool_add-AreDistinct node.pool txn distinct).0), λ prev place. place)

module _ (crypto : Crypto) where
  pub on_transaction-LeadsTo :
      (node : Node) (msg : Tuple) → IsSound node → LeadsTo node (on_transaction crypto node msg)
  unfolding on_transaction
  on_transaction-LeadsTo node msg h =
      LeadsTo-bind node (transaction_create_from_tuple crypto msg) _ (λ found r0. pooled found)
    where
      pooled :
          (found : Option Transaction)
          → LeadsTo node (elim found [
            | none ↦ ok node
            | some txn ↦ ok (record node { pool = pool_add node.pool txn })
          ])
      pooled none = LeadsTo-ok node node (Follows-refl node h)
      pooled (some txn) = LeadsTo-ok node _ (pooled-Follows node txn h)

  each_transaction-LeadsTo :
      (node : Node) (msg : Tuple) (left i : ℕ)
      → IsSound node
      → LeadsTo node (each_transaction crypto node msg left i)
  unfolding each_transaction
  each_transaction-LeadsTo node msg zero i h = LeadsTo-ok node node (Follows-refl node h)
  each_transaction-LeadsTo node msg (suc left) i h =
      LeadsTo-bind node (tuple_get_tuple msg i) _ (λ t r0.
        LeadsTo-then node (on_transaction crypto node t) _ (on_transaction-LeadsTo node t h)
          (λ m sound. each_transaction-LeadsTo m msg left (i + 1) sound))

  pub on_pool_response-LeadsTo :
      (node : Node) (msg : Tuple) → IsSound node → LeadsTo node (on_pool_response crypto node msg)
  unfolding on_pool_response
  on_pool_response-LeadsTo node msg h = each_transaction-LeadsTo node msg (tuple_size msg) 0 h

  pub send_value-LeadsTo :
      (pk sk : List ℕ) (node : Node) (recipient : List ℕ) (value : ℕ)
      → IsSound node
      → LeadsTo node (send_value crypto pk sk node recipient value)
  unfolding send_value
  send_value-LeadsTo pk sk node recipient value h =
      LeadsTo-bind node (transaction_create crypto pk sk recipient (value % 2 ^ 64) 0) _
        (λ txn r0. LeadsTo-ok node _ (pooled-Follows node txn h))

synchronize_peers-LeadsTo :
    (node : Node) (peer : ℕ) → IsSound node → LeadsTo node (synchronize_peers node peer)
unfolding synchronize_peers
synchronize_peers-LeadsTo node peer h = send_empty-LeadsTo _ node peer h

synchronize_blockchain-LeadsTo :
    (node : Node) (peer : ℕ) (block : Option ℕ)
    → IsSound node
    → LeadsTo node (synchronize_blockchain node peer block)
unfolding synchronize_blockchain
synchronize_blockchain-LeadsTo node peer block h =
    LeadsTo-bind node (block_get_hash node.store block) _ (λ hash r0.
      written-LeadsTo _ peer node
        (tuple_write_start (dynamic_buffer_create 64)
          >>= tuple_write_binary hash
          >>= tuple_write_end)
        h)

pub on_connect-LeadsTo :
    (own_port : ℕ) (node : Node) (peer : ℕ)
    → IsSound node
    → LeadsTo node (on_connect own_port node peer)
unfolding on_connect
on_connect-LeadsTo own_port node peer h =
    let write =
      tuple_write_start (dynamic_buffer_create 32)
      >>= tuple_write_i32 own_port
      >>= tuple_write_string version_string
      >>= tuple_write_end in
    LeadsTo-bind node write _ (λ buf r0.
      LeadsTo-then node (reply 2 peer node buf) _ (reply-LeadsTo 2 peer node buf h) (λ greeted s.
        LeadsTo-then greeted (synchronize_peers greeted peer) _
          (synchronize_peers-LeadsTo greeted peer s)
          (λ asked s'. synchronize_blockchain-LeadsTo asked peer node.chain.principal s')))

pub on_peers_request-LeadsTo :
    (node : Node) (peer : ℕ) (msg : Tuple)
    → IsSound node
    → LeadsTo node (on_peers_request node peer msg)
unfolding on_peers_request
on_peers_request-LeadsTo node peer msg h =
    LeadsTo-bind node (network_get_peer node.peers peer) _ (λ asker r0.
      LeadsTo-bind node (tuple_write_start (dynamic_buffer_create 32)) _ (λ buf r1.
        LeadsTo-bind node (write_peers asker node.peers buf) _
          (λ written r2. written-LeadsTo _ peer node (tuple_write_end written) h)))

pub on_handshake-LeadsTo :
    (node : Node) (peer : ℕ) (msg : Tuple)
    → IsSound node
    → LeadsTo node (on_handshake node peer msg)
unfolding on_handshake
on_handshake-LeadsTo node peer msg h =
    LeadsTo-bind node (network_get_peer node.peers peer) _ (λ p r0.
      LeadsTo-bind node (tuple_get_i32 msg 0) _
        (λ port r1. unless p port (network_has_peer node.peers p.addr port)))
  where
    greeted :
        (p : Peer) (port : ℕ) (same : Bool)
        → LeadsTo node (
            let met = if same then node else act (disconnect peer) node in
            ok (record met { peers = set node.peers peer (record p { port = port }) }))
    greeted p port true = LeadsTo-ok node _ (Follows-refl node h)
    greeted p port false = LeadsTo-ok node _ (Follows-refl node h)

    unless :
        (p : Peer) (port : ℕ) (is_connected : Bool)
        → LeadsTo node (elim is_connected [
          | true ↦ ok (act (disconnect peer) node)
          | false ↦ tuple_get_string msg 1 >>= c_string >>= λ version.
              let met =
                if same_string version_string version then node else act (disconnect peer) node in
              ok (record met { peers = set node.peers peer (record p { port = port }) })
        ])
    unless p port true = LeadsTo-ok node _ (Follows-refl node h)
    unless p port false =
        LeadsTo-bind node (tuple_get_string msg 1 >>= c_string) _
          (λ version r2. greeted p port (same_string version_string version))

each_peer-LeadsTo :
    (node : Node) (msg : Tuple) (left i : ℕ)
    → IsSound node
    → LeadsTo node (each_peer node msg left i)
unfolding each_peer
each_peer-LeadsTo node msg zero i h = LeadsTo-ok node node (Follows-refl node h)
each_peer-LeadsTo node msg (suc left) i h = LeadsTo-bind node (tuple_get_tuple msg i) _ (λ t r0.
    LeadsTo-bind node (tuple_get_string t 0 >>= c_string) _ (λ addr r1.
      LeadsTo-bind node (tuple_get_i32 t 1) _ (λ port r2.
        met addr port (network_has_peer node.peers addr port)
          (λ m sound. each_peer-LeadsTo m msg left (i + 1) sound))))
  where
    met :
        (addr : List ℕ) (port : ℕ) (is_met : Bool)
        → ((m : Node) → IsSound m → LeadsTo m (each_peer m msg left (i + 1)))
        → LeadsTo node
            (each_peer (if is_met then node else act (connect addr port) node) msg left (i + 1))
    met addr port true rest = rest node h
    met addr port false rest =
        LeadsTo-later node (act (connect addr port) node) _ (Follows-refl node h)
          (rest (act (connect addr port) node) h)

pub on_peers_response-LeadsTo :
    (node : Node) (msg : Tuple) → IsSound node → LeadsTo node (on_peers_response node msg)
unfolding on_peers_response
on_peers_response-LeadsTo node msg h = each_peer-LeadsTo node msg (tuple_size msg) 0 h
