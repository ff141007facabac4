-- ===== src/Node/Peers.antt =====
-- main/main.c and the list of peers of network.c: how nodes meet.
use whosecoin_core.Base.{
  ℕ, zero, suc, ◌+◌, ◌^◌, ◌==◌, Bool, true, false, ◌&&◌, not, List, [], ◌∷◌, ltb, if◌then◌else◌,
  length, get_elem?, set, Run, ok, ◌>>=◌, or_abort,
}
use whosecoin_core.Bytes.{same_string}
use whosecoin_core.Buffer.{Buffer, dynamic_buffer_create}
use whosecoin_core.Tuple.{Tuple}
use whosecoin_core.Tuple.Readers.{tuple_size, tuple_get_tuple, tuple_get_i32, tuple_get_string}
use whosecoin_core.Tuple.Write.{
  tuple_write_start, tuple_write_end, tuple_write_i32, tuple_write_string,
}
use whosecoin_core.Node.{
  event_handshake, event_peers_response, Peer, connect, disconnect, Node, act, c_string,
}
use whosecoin_core.Node.Sync.{reply, synchronize_peers, synchronize_blockchain}

-- "1.0.0-alpha"
abbrev pub version_string : List ℕ
version_string = b'1' ∷ b'.' ∷ b'0' ∷ b'.' ∷ b'0' ∷ b'-' ∷ b'a' ∷ b'l' ∷ b'p' ∷ b'h' ∷ b'a' ∷ []

unfoldable pub network_peer_count : List Peer → ℕ
network_peer_count peers = length peers

unfoldable pub network_get_peer : List Peer → ℕ → Run Peer
network_get_peer peers i = or_abort (get_elem? peers i)

unfoldable pub network_has_peer : List Peer → List ℕ → ℕ → Bool
unfolding same_string
network_has_peer [] addr port = false
network_has_peer (p ∷ peers) addr port =
    let rest = network_has_peer peers addr port in
    if same_string addr p.addr && (port == p.port) then true else rest

-- An `int` that is greater than 0.
abbrev pub is_positive : ℕ → Bool
is_positive port = ltb 0 port && ltb port (2 ^ 31)

unfoldable pub on_connect : ℕ → Node → ℕ → Run Node
unfolding reply synchronize_peers synchronize_blockchain
on_connect own_port node peer = do
  buf ←
      (tuple_write_start (dynamic_buffer_create 32)
        >>= tuple_write_i32 own_port
        >>= tuple_write_string version_string
        >>= tuple_write_end)
  greeted ← reply event_handshake peer node buf
  asked ← synchronize_peers greeted peer
  synchronize_blockchain asked peer node.chain.principal

-- A peer that is connected already is disconnected. So is one of another version, which has its
-- port set all the same.
unfoldable pub on_handshake : Node → ℕ → Tuple → Run Node
unfolding network_get_peer network_has_peer same_string c_string
on_handshake node peer msg = do
  p ← network_get_peer node.peers peer
  port ← tuple_get_i32 msg 0
  elim (network_has_peer node.peers p.addr port) [
    | true ↦ ok (act (disconnect peer) node)
    | false ↦ (do
      version ← tuple_get_string msg 1 >>= c_string
      let met = if same_string version_string version then node else act (disconnect peer) node
      ok (record met { peers = set node.peers peer (record p { port = port }) }))
  ]

-- The body of the loop of `on_peers_request`: the peers of a known port, but for the one that asks.
unfoldable pub is_told : Peer → Peer → Bool
unfolding same_string
is_told asker p =
    is_positive p.port && not (same_string asker.addr p.addr && (p.port == asker.port))

unfoldable pub write_peers : Peer → List Peer → Buffer → Run Buffer
unfolding is_told
write_peers asker [] buf = ok buf
write_peers asker (p ∷ peers) buf = elim (is_told asker p) [
  | false ↦ write_peers asker peers buf
  | true ↦
      tuple_write_start buf
      >>= tuple_write_string p.addr
      >>= tuple_write_i32 p.port
      >>= tuple_write_end
      >>= write_peers asker peers
]

unfoldable pub on_peers_request : Node → ℕ → Tuple → Run Node
unfolding network_get_peer write_peers reply
on_peers_request node peer msg = do
  asker ← network_get_peer node.peers peer
  buf ← tuple_write_start (dynamic_buffer_create 32)
  written ← write_peers asker node.peers buf
  tuple_write_end written >>= reply event_peers_response peer node

-- The loop over the message, `left` addresses from the index `i` on.
unfoldable pub each_peer : Node → Tuple → ℕ → ℕ → Run Node
unfolding network_has_peer c_string
each_peer node msg zero i = ok node
each_peer node msg (suc left) i = do
  t ← tuple_get_tuple msg i
  addr ← tuple_get_string t 0 >>= c_string
  port ← tuple_get_i32 t 1
  let next = if network_has_peer node.peers addr port then node else act (connect addr port) node
  each_peer next msg left (i + 1)

unfoldable pub on_peers_response : Node → Tuple → Run Node
unfolding each_peer
on_peers_response node msg = each_peer node msg (tuple_size msg) 0
