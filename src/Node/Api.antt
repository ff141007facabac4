-- ===== src/Node/Api.antt =====
-- main/main.c: what a node tells of itself over HTTP.
pub mod Routes
use whosecoin_core.Base.{ℕ, zero, suc, true, false, Option, none, some, Run, ok, out_of_fuel, ◌>>=◌}
use whosecoin_core.Buffer.{Buffer}
use whosecoin_core.Text.{codes}
use whosecoin_core.Hex.{buffer_from_hex, is_valid_hash}
use whosecoin_core.Json.{json_write_end, json_write_array_start, json_write_array_end}
use whosecoin_core.Http.{Request, Response, request_get_param, response_set_code}
use whosecoin_core.Http.Server.{Http, http_create, http_register}
use whosecoin_core.Block.{Store, block_get_prev}
use whosecoin_core.Block.Json.{block_write_json}
use whosecoin_core.Blockchain.{blockchain_get_block}
use whosecoin_core.Node.{Node}

-- `while (block != NULL)`: the blocks of the branch, the latest first.
unfoldable pub write_chain : ℕ → Store → Option ℕ → Buffer → Run Buffer
unfolding block_write_json block_get_prev
write_chain zero st block buf = out_of_fuel
write_chain (suc fuel) st none buf = ok buf
write_chain (suc fuel) st (some a) buf = block_write_json st a buf >>= λ longer.
    block_get_prev st (some a) >>= λ prev. write_chain fuel st prev longer

unfoldable pub on_http_blocks_request : ℕ → Node → Request → Response → Run Response
unfolding write_chain
on_http_blocks_request fuel node req res = do
  buf ←
      (json_write_array_start res.buf
        >>= write_chain fuel node.store node.chain.principal
        >>= json_write_array_end
        >>= json_write_end)
  ok (record res { buf = buf })

-- 400 for an argument that is no hash, 404 for a hash without a block.
unfoldable pub on_http_block_request : Node → Request → Response → Run Response
unfolding block_write_json is_valid_hash
on_http_block_request node req res = do
  arg ← request_get_param req 0
  elim (is_valid_hash arg) [
    | false ↦ ok (response_set_code res 400)
    | true ↦ buffer_from_hex 256 arg >>= λ hash. elim (blockchain_get_block node.chain hash) [
      | none ↦ ok (response_set_code res 404)
      | some block ↦ block_write_json node.store block res.buf >>= json_write_end >>= λ buf.
          ok (record res { buf = buf })
    ]
  ]

-- The server that `main` sets up.
unfoldable pub api : ℕ → Node → Http
unfolding http_register on_http_blocks_request on_http_block_request
api fuel node =
    http_register (http_register http_create (codes "/block/") (on_http_blocks_request fuel node))
      (codes "/block/:/") (on_http_block_request node)
