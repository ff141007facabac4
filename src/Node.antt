-- ===== src/Node.antt =====
-- main/main.c: the node, which ties the blockchain, the pool and the network together.
-- The globals are one state, with the clock that `time` reads and a log of what the node asks of
-- the network and the timer: what it sends is logged with its event and its payload, and Network
-- frames it. A peer is its position in the network's list of peers. Who frees a transaction that
-- the pool shares with a block is not modelled.
pub mod Blocks
pub mod Sync
pub mod Peers
pub mod Api
pub mod FirstBlock
pub mod Commands
pub mod Invariant
use whosecoin_core.Base.{
  ℕ, zero, suc, ◌+◌, ◌*◌, ◌==◌, Bool, true, false, Option, none, some, List, [], ◌∷◌, ◌++◌,
  if◌then◌else◌, length, take, Run, ok, fault, out_of_fuel, ◌>>=◌,
}
use whosecoin_core.Bytes.{strlen}
use whosecoin_core.Crypto.{crypto_generichash_bytes}
use whosecoin_core.Tuple.Readers.{View}
use whosecoin_core.Transaction.{Transaction}
use whosecoin_core.Block.{Account, null, Block, Store, deref, block_get_prev, block_has_ancestor}
use whosecoin_core.Blockchain.{
  Blockchain, blockchain_create, blockchain_add_block, blockchain_get_block,
}
use whosecoin_core.Pool.{Pool, pool_create, pool_add, pool_size, pool_remove}

abbrev pub event_handshake : ℕ
event_handshake = 2

abbrev pub event_peers_request : ℕ
event_peers_request = 3

abbrev pub event_peers_response : ℕ
event_peers_response = 4

abbrev pub event_blocks_request : ℕ
event_blocks_request = 5

abbrev pub event_blocks_response : ℕ
event_blocks_response = 6

abbrev pub event_pool_request : ℕ
event_pool_request = 7

abbrev pub event_pool_response : ℕ
event_pool_response = 8

abbrev pub event_block : ℕ
event_block = 9

abbrev pub block_time : ℕ
block_time = 3

-- The address of a peer as a string without its zero byte, and its port, an `int` as its word.
pub record Peer : Type 0 where
  pub addr : List ℕ
  pub port : ℕ

pub data Action : Type 0 where
  broadcast : ℕ → List ℕ → Action
  send : ℕ → List ℕ → ℕ → Action
  connect : List ℕ → ℕ → Action
  disconnect : ℕ → Action
  start_timer : ℕ → Action

pub record Node : Type 0 where
  pub store : Store
  pub chain : Blockchain
  pub pool : Pool
  pub peers : List Peer
  pub clock : ℕ
  pub actions : List Action

-- The globals before the first event, at a time.
abbrev pub start : ℕ → Node
start clock = record {
  store = record { blocks = []; children = λ a. [] };
  chain = blockchain_create;
  pool = pool_create;
  peers = [];
  clock = clock;
  actions = [];
}

abbrev pub act : Action → Node → Node
act a node = record node { actions = node.actions ++ a ∷ [] }

-- The string at a pointer, which a zero byte ends.
unfoldable pub c_string : List ℕ → Run (List ℕ)
c_string p = elim (strlen p) [ none ↦ fault | some n ↦ ok (take n p) ]

unfoldable pub lookup_block : Blockchain → View → Option ℕ
lookup_block chain hash = blockchain_get_block chain (take crypto_generichash_bytes hash.start)

-- The transactions of a block go back to the pool, in their order.
unfoldable pub return_transactions : Pool → List Transaction → Pool
return_transactions pool [] = pool
return_transactions pool (txn ∷ txns) = return_transactions (pool_add pool txn) txns

-- The loop of `on_extended`: until `prev` is an ancestor of `block`, its transactions go back to
-- the pool and `prev` goes on to its previous block.
unfoldable pub abandon : ℕ → Store → Pool → ℕ → Option ℕ → Run Pool
unfolding return_transactions block_has_ancestor block_get_prev deref
abandon zero st pool block prev = out_of_fuel
abandon (suc fuel) st pool block prev =
    block_has_ancestor st (suc fuel) (some block) prev >>= λ above. elim above [
      | true ↦ ok pool
      | false ↦ elim prev [
        | none ↦ fault
        | some p ↦ deref st p >>= λ b.
            abandon fuel st (return_transactions pool b.transactions) block b.prev_block
      ]
    ]

unfoldable pub on_extended : ℕ → Node → Option ℕ → ℕ → Run Node
unfolding abandon
on_extended fuel node prev block = abandon fuel node.store node.pool block prev >>= λ pool.
    ok (act (start_timer (1000 * block_time)) (record node { pool = pool }))

-- A block object at the next address, with an empty list of children.
unfoldable pub next_address : Store → ℕ
next_address st = length st.blocks

unfoldable pub allocate : Store → Block → Store
unfolding next_address
allocate st b = record {
  blocks = st.blocks ++ some b ∷ [];
  children = λ a. if a == next_address st then [] else st.children a;
}

-- `blockchain_add_block` of a block that was just created, with the callback, and its result.
unfoldable pub add_block : ℕ → Node → Block → Run (Bool × Node)
unfolding blockchain_add_block on_extended allocate next_address
add_block fuel node b =
    blockchain_add_block (allocate node.store b) fuel node.chain (next_address node.store) >>= λ r.
    let after = record node { store = r.store; chain = r.chain } in
    elim r.extended [
      | none ↦ ok (r.result, after)
      | some e ↦ on_extended fuel after e.0 e.1 >>= λ extended. ok (r.result, extended)
    ]

-- `while (pool_size(pool) != 0)`: the transactions are taken out of the pool, the first first.
unfoldable pub drain : ℕ → List Transaction → Pool → Run (List Transaction × Pool)
unfolding pool_size pool_remove
drain zero txns pool = out_of_fuel
drain (suc fuel) txns pool = elim (pool_size pool == 0) [
  | true ↦ ok (txns, pool)
  | false ↦ pool_remove pool 0 >>= λ r. drain fuel (txns ++ r.0 ∷ []) r.1
]
