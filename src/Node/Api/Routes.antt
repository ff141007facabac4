-- ===== src/Node/Api/Routes.antt =====
-- Which handler of main.c answers a request for a block.
use whosecoin_core.Base.{
  ℕ, ◌≡◌, ◌≢◌, refl, sym, subst, ◌∙◌, arith, Bool, true, false, ◌&&◌, none, some, List, [], ◌∷◌,
  ◌++◌, ◌==◌, ◌<◌, ◌/◌, ◌%◌, length, ok, ok-injective, ◌>>=◌,
}
use mathlib.Core.Bool.{false≢true}
use whosecoin_core.Text.{codes}
use whosecoin_core.Bytes.{AreBytes}
use whosecoin_core.Crypto.{crypto_generichash_bytes}
use whosecoin_core.Hex.{
  hex_digit, is_xdigit, digit_value, are_xdigits, is_valid_hash, buffer_to_hex, buffer_from_hex,
}
use whosecoin_core.Hex.RoundTrip.{
  hex_of, length-hex_of, digit_value-hex_digit, buffer_to_hex-hex_of, buffer_from_hex-to_hex,
}
use whosecoin_core.Http.{request_create, request_get_param, response_create, response_set_code}
use whosecoin_core.Http.Patterns.{literal, param, IsWord, IsParam, request_create-pieces}
use whosecoin_core.Http.Server.{dispatch, answer, http_register}
use whosecoin_core.Blockchain.{blockchain_get_block}
use whosecoin_core.Node.{Node}
use whosecoin_core.Node.Api.{api, on_http_block_request}

xdigit-plain : (c : ℕ) → is_xdigit c ≡ true → (c ≢ b'/') × (c ≢ b':')
unfolding is_xdigit digit_value
xdigit-plain c e = (other (b'/') refl, other (b':') refl)
  where
    other : (d : ℕ) → is_xdigit d ≡ false → c ≢ d
    other d not_digit same =
        let yes : is_xdigit d ≡ true = subst (λ x. is_xdigit x ≡ true) same e in
        absurd (false≢true (sym not_digit ∙ yes))

both : (a b : Bool) → (a && b) ≡ true → (a ≡ true) × (b ≡ true)
both true true e = (refl, refl)
both true false e = absurd cc
both false b e = absurd cc

are_xdigits-IsWord : (hex : List ℕ) → are_xdigits hex ≡ true → IsWord hex
unfolding are_xdigits
are_xdigits-IsWord [] e = tt
are_xdigits-IsWord (c ∷ hex) e =
    let (one, others) = both (is_xdigit c) (are_xdigits hex) e in
    ((xdigit-plain c one).0, are_xdigits-IsWord hex others)

-- "/block/", the text, and "/"
abbrev pub block_url : List ℕ → List ℕ
block_url hex = codes "/block/" ++ (hex ++ b'/' ∷ [])

no_slash : (a : ℕ) → a ≢ b'/' → (a == b'/') ≡ false
no_slash a n = ground arith

block_route :
    (hex : List ℕ)
    → IsParam hex (literal b'/' ∷ [])
    → request_create (codes "/block/:/") (block_url hex)
      ≡ some (record { url = block_url hex; params = hex ∷ [] })
block_route hex p =
    request_create-pieces
      (literal b'/'
        ∷ literal b'b'
        ∷ literal b'l'
        ∷ literal b'o'
        ∷ literal b'c'
        ∷ literal b'k'
        ∷ literal b'/'
        ∷ param hex
        ∷ literal b'/'
        ∷ [])
      (p, tt)

-- With the handlers that `main` registers, a request for a valid hash in hexadecimal digits is answered
-- by what `on_http_block_request` makes of that hash.
pub dispatch-block :
    (fuel : ℕ) (node : Node) (hex : List ℕ)
    → is_valid_hash hex ≡ true
    → let http = api fuel node in
      dispatch http.patterns http.handlers (block_url hex) ≡ (
        on_http_block_request node
          (record { url = block_url hex; params = hex ∷ [] })
          response_create
        >>= answer)
unfolding are_xdigits is_valid_hash dispatch api http_register
dispatch-block fuel node [] valid = absurd cc
dispatch-block fuel node (a ∷ s) valid =
    let digits = both (length (a ∷ s) == 64) (are_xdigits (a ∷ s)) valid in
    let word = are_xdigits-IsWord (a ∷ s) digits.1 in
    let colon = (xdigit-plain a (both (is_xdigit a) (are_xdigits s) digits.1).0).1 in
    rw (no_slash a word.0, dispatch, block_route (a ∷ s) (refl, colon, word)) refl

is_xdigit-hex_digit : (d : ℕ) → d < 16 → is_xdigit (hex_digit d) ≡ true
unfolding is_xdigit
is_xdigit-hex_digit d h = rw (digit_value-hex_digit d h, is_xdigit)

are_xdigits-hex_of : (bytes : List ℕ) → AreBytes bytes → are_xdigits (hex_of bytes) ≡ true
unfolding are_xdigits
are_xdigits-hex_of [] h = refl
are_xdigits-hex_of (b ∷ bytes) (lt, h) = rw (
  is_xdigit-hex_digit (b / 16) (omega arith),
  is_xdigit-hex_digit (b % 16) (omega arith),
  are_xdigits-hex_of bytes h,
)

is_valid_hash-hex_of :
    (hash : List ℕ)
    → AreBytes hash
    → length hash ≡ crypto_generichash_bytes
    → is_valid_hash (hex_of hash) ≡ true
unfolding is_valid_hash
is_valid_hash-hex_of hash h size =
    let whole : (length (hex_of hash) == 64) ≡ true = ground (arith, length-hex_of hash) in
    rw (whole, are_xdigits-hex_of hash h)

-- The bytes of a response with code 404 and an empty body.
abbrev pub not_found_bytes : List ℕ
not_found_bytes =
    codes "HTTP/1.0 404 Not Found"
    ++ 13 ∷ 10 ∷ codes "Content-Type: application/json"
    ++ 13 ∷ 10 ∷ codes "Content-Length: 0"
    ++ 13 ∷ 10 ∷ codes "Access-Control-Allow-Origin: *"
    ++ 13 ∷ 10 ∷ 13 ∷ 10 ∷ []

answer-not_found : answer (response_set_code response_create 404) ≡ ok not_found_bytes
unfolding answer whosecoin_core.Buffer.contents whosecoin_core.Buffer.dynamic_buffer_create
    whosecoin_core.Http.write_status_line whosecoin_core.Buffer.dynamic_buffer_write
    whosecoin_core.Text.decimal_int whosecoin_core.Http.write_header whosecoin_core.Buffer.grow
    whosecoin_core.Http.write_end
answer-not_found = refl

-- With the handlers that `main` registers, a request for the block under a hash of 32 bytes, written
-- in hexadecimal digits, of which the blockchain has no block, is answered with the bytes of a
-- response with code 404, an empty body and its headers.
pub dispatch-unknown :
    (fuel : ℕ) (node : Node) (hash : List ℕ)
    → AreBytes hash
    → length hash ≡ crypto_generichash_bytes
    → blockchain_get_block node.chain hash ≡ none
    → (hex : List ℕ) × (buffer_to_hex 256 hash ≡ ok hex)
      × (dispatch (api fuel node).patterns (api fuel node).handlers (block_url hex)
          ≡ ok not_found_bytes)
unfolding on_http_block_request request_get_param
dispatch-unknown fuel node hash bytes size unknown =
    let hex = hex_of hash in
    let valid = is_valid_hash-hex_of hash bytes size in
    let (text, written, read) = buffer_from_hex-to_hex hash 256 bytes (omega arith) (omega arith) in
    let digits = buffer_to_hex-hex_of hash 256 (omega arith) (omega arith) in
    let same : text ≡ hex = ok-injective written digits in
    let back : buffer_from_hex 256 hex ≡ ok hash =
      subst (λ k. buffer_from_hex 256 k ≡ ok hash) same read in
    (
      hex,
      digits,
      dispatch-block fuel node hex valid ∙ rw (valid, back, ◌>>=◌, unknown) answer-not_found,
    )
