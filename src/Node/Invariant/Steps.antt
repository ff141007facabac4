-- ===== src/Node/Invariant/Steps.antt =====
-- The node as a state machine: every event that main.c handles is a step, and so is what happens
-- without a handler of main.c (time passes, a peer joins, a peer leaves).
use whosecoin_core.Base.{
  ℕ, ◌+◌, ◌≡◌, refl, arith, Option, none, some, List, [], ◌∷◌, ◌++◌, length, remove_at, ok, ◌>>=◌,
}
use whosecoin_core.Crypto.{Crypto}
use whosecoin_core.Tuple.{Tuple}
use whosecoin_core.Block.{Account, null, account, account_get_value}
use whosecoin_core.Block.Chain.{Link, Chain, root, account_in, block_get_account-Chain}
use whosecoin_core.Blockchain.{blockchain_create}
use whosecoin_core.Node.{Peer, Node, start}
use whosecoin_core.Node.Blocks.{on_block, on_blocks_response, on_timer, create_first}
use whosecoin_core.Node.Sync.{
  synchronize_pool, on_blocks_request, on_pool_request, on_transaction, on_pool_response,
  send_value, handle_value_command,
}
use whosecoin_core.Node.Peers.{on_connect, on_handshake, on_peers_request, on_peers_response}
use whosecoin_core.Node.Invariant.Adds.{IsSound}
use whosecoin_core.Node.Invariant.Proposes.{
  on_block-LeadsTo, on_blocks_response-LeadsTo, create_first-LeadsTo, on_timer-LeadsTo,
}
use whosecoin_core.Node.Invariant.Replies.{
  synchronize_pool-LeadsTo, on_blocks_request-LeadsTo, on_pool_request-LeadsTo,
  on_transaction-LeadsTo, on_pool_response-LeadsTo, send_value-LeadsTo, on_connect-LeadsTo,
  on_peers_request-LeadsTo, on_handshake-LeadsTo, on_peers_response-LeadsTo,
}

-- The value of an account, 0 of none.
abbrev pub amount : Account → ℕ
amount null = 0
amount (account value older at) = value

value-amount :
    (found : Account)
    → (elim found [
      | null ↦ ok 0
      | account value prev block ↦ account_get_value (account value prev block)
    ])
      ≡ ok (amount found)
unfolding account_get_value
value-amount null = refl
value-amount (account value older at) = refl

module _ (crypto : Crypto) (pk sk : List ℕ) (own_port : ℕ) where
  -- A step, with the fuel that its loops are given.
  pub data Step (node : Node) : Node → Type 0 where
    first_block :
        {after : Node} (fuel : ℕ) → create_first crypto fuel pk sk node ≡ ok after → Step node after
    timer : {after : Node} (fuel : ℕ) → on_timer crypto fuel pk sk node ≡ ok after → Step node after
    block :
        {after : Node} (fuel : ℕ) (msg : Tuple)
        → on_block crypto fuel pk sk node msg ≡ ok after
        → Step node after
    blocks_response :
        {after : Node} (fuel : ℕ) (msg : Tuple)
        → on_blocks_response crypto fuel pk sk node msg ≡ ok after
        → Step node after
    blocks_request :
        {after : Node} (fuel peer : ℕ) (msg : Tuple)
        → on_blocks_request fuel node peer msg ≡ ok after
        → Step node after
    pool_request :
        {after : Node} (peer : ℕ) (msg : Tuple)
        → on_pool_request node peer msg ≡ ok after
        → Step node after
    pool_response :
        {after : Node} (msg : Tuple) → on_pool_response crypto node msg ≡ ok after → Step node after
    transaction :
        {after : Node} (msg : Tuple) → on_transaction crypto node msg ≡ ok after → Step node after
    connected :
        {after : Node} (peer : ℕ) → on_connect own_port node peer ≡ ok after → Step node after
    handshake :
        {after : Node} (peer : ℕ) (msg : Tuple)
        → on_handshake node peer msg ≡ ok after
        → Step node after
    peers_request :
        {after : Node} (peer : ℕ) (msg : Tuple)
        → on_peers_request node peer msg ≡ ok after
        → Step node after
    peers_response :
        {after : Node} (msg : Tuple) → on_peers_response node msg ≡ ok after → Step node after
    pool_wanted :
        {after : Node} (peer : ℕ) → synchronize_pool node peer ≡ ok after → Step node after
    value_sent :
        {after : Node} (recipient : List ℕ) (value : ℕ)
        → send_value crypto pk sk node recipient value ≡ ok after
        → Step node after
    time_passes : (now : ℕ) → Step node (record node { clock = now })
    peer_joins : (p : Peer) → Step node (record node { peers = node.peers ++ p ∷ [] })
    peer_leaves : (i : ℕ) → Step node (record node { peers = remove_at node.peers i })

  pub data Reach (first : Node) : Node → Type 0 where
    here : Reach first first
    next : {node after : Node} → Reach first node → Step node after → Reach first after

  Step-IsSound : (node after : Node) → Step node after → IsSound node → IsSound after
  Step-IsSound node after (first_block fuel run) h =
      (create_first-LeadsTo crypto fuel pk sk node h after run).0
  Step-IsSound node after (timer fuel run) h =
      (on_timer-LeadsTo crypto fuel pk sk node h after run).0
  Step-IsSound node after (block fuel msg run) h =
      (on_block-LeadsTo crypto fuel pk sk node msg h after run).0
  Step-IsSound node after (blocks_response fuel msg run) h =
      (on_blocks_response-LeadsTo crypto fuel pk sk node msg h after run).0
  Step-IsSound node after (blocks_request fuel peer msg run) h =
      (on_blocks_request-LeadsTo fuel node peer msg h after run).0
  Step-IsSound node after (pool_request peer msg run) h =
      (on_pool_request-LeadsTo node peer msg h after run).0
  Step-IsSound node after (pool_response msg run) h =
      (on_pool_response-LeadsTo crypto node msg h after run).0
  Step-IsSound node after (transaction msg run) h =
      (on_transaction-LeadsTo crypto node msg h after run).0
  Step-IsSound node after (connected peer run) h =
      (on_connect-LeadsTo own_port node peer h after run).0
  Step-IsSound node after (handshake peer msg run) h =
      (on_handshake-LeadsTo node peer msg h after run).0
  Step-IsSound node after (peers_request peer msg run) h =
      (on_peers_request-LeadsTo node peer msg h after run).0
  Step-IsSound node after (peers_response msg run) h =
      (on_peers_response-LeadsTo node msg h after run).0
  Step-IsSound node after (pool_wanted peer run) h =
      (synchronize_pool-LeadsTo node peer h after run).0
  Step-IsSound node after (value_sent recipient value run) h =
      (send_value-LeadsTo crypto pk sk node recipient value h after run).0
  Step-IsSound node after (time_passes now) h = h
  Step-IsSound node after (peer_joins p) h = h
  Step-IsSound node after (peer_leaves i) h = h

  Reach-IsSound : (first node : Node) → IsSound first → Reach first node → IsSound node
  Reach-IsSound first node h here = h
  Reach-IsSound first after h (next {node} reach step) =
      Step-IsSound node after step (Reach-IsSound first node h reach)

  start-IsSound : (clock : ℕ) → IsSound (start clock)
  unfolding blockchain_create
  start-IsSound clock = (
    record {
      principal_links = [];
      principal_chain = root;
      indexed = λ h a at. absurd (none≢some at);
      rooted = λ gone h. refl;
    },
    tt,
  )
    where
      none≢some : {a : ℕ} → ◌≡◌ {A = Option ℕ} none (some a) → ⊥
      none≢some e = cc

  -- On every node that the events lead to from the start, the blockchain is a tree, and no
  -- transaction is in the pool twice.
  pub reached-IsSound : (clock : ℕ) (node : Node) → Reach (start clock) node → IsSound node
  reached-IsSound clock node reach = Reach-IsSound (start clock) node (start-IsSound clock) reach

  -- On every such node, the principal chain ends at NULL, and with one round more than it has
  -- blocks the value command returns the value of the latest account of the key on it, or 0.
  pub handle_value_command-reached :
      (clock : ℕ) (node : Node)
      → Reach (start clock) node
      → (links : List Link) × Chain node.store node.chain.principal links
        × (handle_value_command (length links + 1) pk node ≡ ok (amount (account_in links pk)))
  unfolding handle_value_command
  handle_value_command-reached clock node reach =
      let tree = (reached-IsSound clock node reach).0 in
      let links = tree.principal_links in
      let found =
        block_get_account-Chain node.store node.chain.principal links (length links + 1) pk
          tree.principal_chain (omega arith) in
      (links, tree.principal_chain, rw (found, ◌>>=◌) (value-amount (account_in links pk)))
