-- ===== src/Examples/Api.antt =====
-- util/buffer.c, util/http.c and the handlers of main.c at concrete inputs.
use whosecoin_core.Base.{
  ℕ, ◌+◌, ◌^◌, ◌≡◌, refl, arith, true, none, some, List, [], ◌∷◌, ◌++◌, replicate, ok, ◌>>=◌,
}
use whosecoin_core.Text.{codes, decimal}
use whosecoin_core.Bytes.{AreBytes, AreBytes-append, AreBytes-replicate}
use whosecoin_core.Hex.{buffer_to_hex, buffer_from_hex, is_valid_hash}
use whosecoin_core.Hex.RoundTrip.{buffer_from_hex-to_hex}
use whosecoin_core.Http.{request_create, response_create, find_header_end}
use whosecoin_core.Http.Patterns.{Piece, literal, param, pattern_of, url_of, request_create-pieces}
use whosecoin_core.Http.Server.{dispatch, answer, scan_url}
use whosecoin_core.Json.{json_write_number}
use whosecoin_core.Buffer.{dynamic_buffer_create, contents}
use whosecoin_core.Blockchain.{blockchain_get_block}
use whosecoin_core.Node.{start}
use whosecoin_core.Node.Api.{api, on_http_block_request}
use whosecoin_core.Node.Api.Routes.{block_url, dispatch-block, not_found_bytes, dispatch-unknown}

buffer_from_hex-to_hex_example :
    (hex : List ℕ) × (buffer_to_hex 5 (0 ∷ 10 ∷ 255 ∷ []) ≡ ok hex)
    × (buffer_from_hex 5 hex ≡ ok (0 ∷ 10 ∷ 255 ∷ []))
buffer_from_hex-to_hex_example =
    buffer_from_hex-to_hex (0 ∷ 10 ∷ 255 ∷ []) 5 (omega arith, (omega arith, (omega arith, tt)))
      (omega arith) (omega arith)

hex_text : buffer_to_hex 5 (0 ∷ 10 ∷ 255 ∷ []) ≡ ok (codes "000aff")
unfolding buffer_to_hex
hex_text = refl

header_end : find_header_end (codes "GET / HTTP/1.0" ++ 13 ∷ 10 ∷ 13 ∷ 10 ∷ 7 ∷ []) ≡ 18
unfolding find_header_end whosecoin_core.Bytes.memcmp
header_end = refl

url_scanned : scan_url (codes "GET /block/ HTTP/1.0") ≡ ok (some (codes "/block/"))
unfolding scan_url
url_scanned = refl

-- 2 ^ 53 + 1 is no double.
number_rounded :
    (json_write_number (2 ^ 53 + 1) (dynamic_buffer_create 32) >>= contents)
    ≡ ok (codes "9007199254740992,")
unfolding json_write_number contents whosecoin_core.Buffer.dynamic_buffer_write
    dynamic_buffer_create decimal
number_rounded = refl

-- The pattern "/a/:/b" and the parameter "xy".
abbrev pieces : List Piece
pieces =
    literal b'/'
    ∷ literal b'a'
    ∷ literal b'/'
    ∷ param (codes "xy")
    ∷ literal b'/'
    ∷ literal b'b'
    ∷ []

request_create-pieces_example :
    request_create (pattern_of pieces) (url_of pieces)
    ≡ some (record { url = url_of pieces; params = codes "xy" ∷ [] })
request_create-pieces_example = request_create-pieces pieces (
  (refl, (λ e. absurd (omega arith)), (λ e. absurd (omega arith), (λ e. absurd (omega arith), tt))),
  tt,
)

abbrev hash_text : List ℕ
hash_text = replicate 63 b'0' ++ b'a' ∷ []

hash_text-valid : is_valid_hash hash_text ≡ true
unfolding is_valid_hash
hash_text-valid = refl

dispatch-block_example :
    dispatch (api 5 (start 0)).patterns (api 5 (start 0)).handlers (block_url hash_text) ≡ (
      on_http_block_request
        (start 0)
        (record { url = block_url hash_text; params = hash_text ∷ [] })
        response_create
      >>= answer)
dispatch-block_example = dispatch-block 5 (start 0) hash_text hash_text-valid

abbrev hash : List ℕ
hash = replicate 31 0 ++ 10 ∷ []

no_block : blockchain_get_block (start 0).chain hash ≡ none
unfolding blockchain_get_block whosecoin_core.Blockchain.blockchain_create
no_block = refl

hash-AreBytes : AreBytes hash
hash-AreBytes =
    AreBytes-append (replicate 31 0) (10 ∷ []) (AreBytes-replicate 31 0 (omega arith))
      (omega arith, tt)

dispatch-unknown_example :
    (hex : List ℕ) × (buffer_to_hex 256 hash ≡ ok hex)
    × (dispatch (api 5 (start 0)).patterns (api 5 (start 0)).handlers (block_url hex)
        ≡ ok not_found_bytes)
dispatch-unknown_example = dispatch-unknown 5 (start 0) hash hash-AreBytes refl no_block
