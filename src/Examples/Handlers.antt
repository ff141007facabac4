-- ===== src/Examples/Handlers.antt =====
-- main.c at concrete inputs: a node that creates its first block and sends a value, and one that
-- meets a peer.
use whosecoin_core.Base.{
  Returns, length, some, ℕ, ◌+◌, ◌≡◌, refl, List, [], ◌∷◌, ◌++◌, length, replicate, Run, ok,
}
use whosecoin_core.Bytes.{from_be, length-be_bytes}
use whosecoin_core.Examples.Toy.{toy}
use whosecoin_core.Block.{deref}
use whosecoin_core.Node.FirstBlock.{genesis_block, first_bytes, create_first-returns}
use whosecoin_core.Node.Blocks.{create_first}
use whosecoin_core.Tuple.{Tuple, tuple_parse}
use whosecoin_core.Block.Chain.{Link, Chain, account_in}
use whosecoin_core.Node.{event_block, broadcast, start_timer, Peer, Node, start}
use whosecoin_core.Node.Sync.{send_value, handle_value_command}
use whosecoin_core.Node.Peers.{on_connect}
use whosecoin_core.Node.Invariant.Adds.{IsSound}
use whosecoin_core.Node.Invariant.Steps.{
  amount, first_block, value_sent, Reach, here, next, reached-IsSound, handle_value_command-reached,
}

abbrev key : List ℕ
key = replicate 31 0 ++ 9 ∷ []

-- The result of a run that returns.
abbrev node_of : Run Node → Node
node_of (ok node) = node
node_of _ = start 0

abbrev peer : Peer
peer = record { addr = b'a' ∷ []; port = 1961 }

abbrev joined : Node
joined = record (start 7) { peers = peer ∷ [] }

abbrev greeted : Node
greeted = node_of (on_connect 1960 joined 0)

greeted-ok : on_connect 1960 joined 0 ≡ ok greeted
unfolding on_connect whosecoin_core.Tuple.Write.tuple_write_start
    whosecoin_core.Buffer.dynamic_buffer_putc whosecoin_core.Buffer.dynamic_buffer_create
    whosecoin_core.Tuple.Write.tuple_write_i32 whosecoin_core.Buffer.dynamic_buffer_write
    whosecoin_core.Bytes.be_bytes whosecoin_core.Tuple.Write.tuple_write_string
    whosecoin_core.Tuple.Write.tuple_write_end whosecoin_core.Buffer.contents
    whosecoin_core.Block.block_get_hash whosecoin_core.Blockchain.blockchain_create
    whosecoin_core.Tuple.Write.tuple_write_binary whosecoin_core.Bytes.le_bytes
greeted-ok = refl

toy_proofs : (k m : List ℕ) → length (toy.vrf_prove k m) ≡ 80
unfolding whosecoin_core.Examples.Toy.toy_prove
toy_proofs k m = length-be_bytes 80 (from_be 0 m + from_be 0 k)

-- The node with its first block.
abbrev started : Node
started = (create_first-returns toy 4 7 key key refl toy_proofs).0

abbrev sent : Node
sent = node_of (send_value toy key key started key 5)

sent-ok : send_value toy key key started key 5 ≡ ok sent
unfolding send_value whosecoin_core.Transaction.transaction_create
    whosecoin_core.Transaction.transaction_compute_hash whosecoin_core.Transaction.write_body
    whosecoin_core.Tuple.Write.tuple_write_start whosecoin_core.Buffer.dynamic_buffer_putc
    whosecoin_core.Buffer.dynamic_buffer_create whosecoin_core.Tuple.Write.tuple_write_binary
    whosecoin_core.Buffer.dynamic_buffer_write whosecoin_core.Bytes.le_bytes
    whosecoin_core.Tuple.Write.tuple_write_u64 whosecoin_core.Bytes.be_bytes
    whosecoin_core.Tuple.Write.tuple_write_u32 whosecoin_core.Tuple.Write.tuple_write_end
    whosecoin_core.Buffer.contents
sent-ok = refl

abbrev reach_sent : Reach toy key key 1960 (start 7) sent
reach_sent =
    next (next here (first_block 5 (create_first-returns toy 4 7 key key refl toy_proofs).1))
      (value_sent key 5 sent-ok)

reached-IsSound_example : IsSound sent
reached-IsSound_example = reached-IsSound toy key key 1960 7 sent reach_sent

handle_value_command-reached_example :
    (links : List Link) × Chain sent.store sent.chain.principal links
    × (handle_value_command (length links + 1) key sent ≡ ok (amount (account_in links key)))
handle_value_command-reached_example =
    handle_value_command-reached toy key key 1960 7 sent reach_sent

create_first-returns_example : Returns (create_first toy 5 key key (start 7)) λ node.
    (deref node.store 0 ≡ ok (genesis_block toy 4 7 key key))
    × (node.chain.principal ≡ some 0)
    × (node.actions
        ≡ start_timer 3000
          ∷ broadcast event_block (first_bytes toy 4 7 key key refl toy_proofs)
          ∷ [])
create_first-returns_example = create_first-returns toy 4 7 key key refl toy_proofs
