-- ===== src/Node/Commands.antt =====
-- main/main.c: the commands of the terminal.
pub mod Send
use whosecoin_core.Base.{
  ℕ, zero, suc, ◌^◌, ◌%◌, ◌==◌, true, false, Option, none, some, List, [], ◌∷◌, ◌++◌, ℤ, pos,
  negsuc, length, get_elem?, Run, ok, ◌>>=◌, or_abort,
}
use whosecoin_core.Crypto.{Crypto, crypto_vrf_public_key_bytes}
use whosecoin_core.Text.{codes, decimal}
use whosecoin_core.Text.Atoll.{atoll}
use whosecoin_core.Buffer.{dynamic_buffer_create, contents}
use whosecoin_core.Hex.{binary_to_hex, hex_to_binary}
use whosecoin_core.Json.{json_write_end}
use whosecoin_core.Transaction.{Transaction}
use whosecoin_core.Block.Json.{transaction_write_json}
use whosecoin_core.Pool.{Pool, pool_size}
use whosecoin_core.Cli.{CliHandler, Cli, cli_create, cli_add_command}
use whosecoin_core.Node.{Node}
use whosecoin_core.Node.Sync.{send_value, handle_value_command}

-- The node, and what its commands have printed.
pub record Terminal : Type 0 where
  pub node : Node
  pub printed : List ℕ

abbrev pub print : List ℕ → Terminal → Terminal
print text t = record t { printed = t.printed ++ text }

abbrev newline : List ℕ
newline = b'\n' ∷ []

-- `atoll(list_get(args, 1))` and the recipient, whose 32 bytes are read in at most 33 rounds.
unfoldable pub handle_send_command : Crypto → List ℕ → List ℕ → CliHandler Terminal
unfolding send_value
handle_send_command crypto pk sk args t = elim (length args == 3) [
  | false ↦ ok (negsuc 0, t)
  | true ↦ (do
    value_text ← or_abort (get_elem? args 1)
    value ← atoll value_text
    hex ← or_abort (get_elem? args 2)
    found ← hex_to_binary 33 hex crypto_vrf_public_key_bytes
    elim found [
      | none ↦ ok (negsuc 0, t)
      | some recipient ↦ send_value crypto pk sk t.node recipient value >>= λ node.
          ok (pos 0, record t { node = node })
    ])
]

-- `handle_value_command`, with what it prints.
unfoldable pub print_value : ℕ → List ℕ → CliHandler Terminal
unfolding handle_value_command
print_value fuel pk args t =
    handle_value_command fuel pk t.node >>= λ value. ok (pos 0, print (decimal value ++ newline) t)

unfoldable pub handle_public_key_command : List ℕ → CliHandler Terminal
handle_public_key_command pk args t =
    binary_to_hex pk crypto_vrf_public_key_bytes >>= λ hex. ok (pos 0, print (hex ++ newline) t)

-- The loop over the pool.
unfoldable pub pool_lines : List Transaction → Run (List ℕ)
pool_lines [] = ok []
pool_lines (txn ∷ txns) = do
  buf ← transaction_write_json txn (dynamic_buffer_create 32)
  ended ← json_write_end buf
  text ← contents ended
  rest ← pool_lines txns
  ok (text ++ (newline ++ rest))

unfoldable pub handle_pool_command : CliHandler Terminal
unfolding pool_lines pool_size
handle_pool_command args t = pool_lines t.node.pool >>= λ lines.
    ok (
      pos 0,
      print (decimal (pool_size t.node.pool) ++ (codes " pending transations\n" ++ lines)) t,
    )

-- The commands that `main` adds.
unfoldable pub main_cli : Crypto → ℕ → List ℕ → List ℕ → Cli Terminal
main_cli crypto fuel pk sk =
    let c1 =
      cli_add_command cli_create (codes "value") (codes "Get current account value")
        (print_value fuel pk) in
    let c2 =
      cli_add_command c1 (codes "public_key") (codes "Get current public key")
        (handle_public_key_command pk) in
    let c3 =
      cli_add_command c2 (codes "send") (codes "Send value to recipient")
        (handle_send_command crypto pk sk) in
    cli_add_command c3 (codes "pool") (codes "Get transaction pool info") handle_pool_command
