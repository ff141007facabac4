-- ===== src/Http.antt =====
-- util/http.c: the HTTP/1.0 server: how a request is found in the bytes that arrive, matched with
-- the patterns, and answered. A string is its bytes without the zero byte. What a handler does is
-- a function; sockets are left out.
pub mod Patterns
pub mod Server
use whosecoin_core.Base.{
  ℕ, zero, suc, ◌+◌, ◌-◌, Bool, true, false, ◌&&◌, Option, none, some, List, [], ◌∷◌, ◌++◌, ltb,
  ◌==◌, if◌then◌else◌, is_zero, length, drop, get_elem?, Run, ok, ◌>>=◌, or_abort,
}
use whosecoin_core.Bytes.{memcmp}
use whosecoin_core.Buffer.{Buffer, dynamic_buffer_create, dynamic_buffer_write}
use whosecoin_core.Text.{codes, decimal_int}

unfoldable pub http_reason_phrase : ℕ → List ℕ
http_reason_phrase status_code =
    if status_code == 200
    then codes "OK"
    else if status_code == 201
    then codes "Created"
    else if status_code == 202
    then codes "Accepted"
    else if status_code == 204
    then codes "No Content"
    else if status_code == 301
    then codes "Moved Permanently"
    else if status_code == 302
    then codes "Moved Temporarily"
    else if status_code == 304
    then codes "Not Modified"
    else if status_code == 400
    then codes "Bad Request"
    else if status_code == 401
    then codes "Unauthorized"
    else if status_code == 403
    then codes "Forbidden"
    else if status_code == 404
    then codes "Not Found"
    else if status_code == 500
    then codes "Internal Server Error"
    else if status_code == 501
    then codes "Not Implemented"
    else if status_code == 502
    then codes "Bad Gateway"
    else if status_code == 503
    then codes "Service Unavailable"
    else codes "Unknown"

-- "\r\n"
abbrev pub crlf : List ℕ
crlf = 13 ∷ 10 ∷ []

-- The loop from the index `i` on, `left` rounds.
unfoldable pub scan_end : ℕ → ℕ → List ℕ → ℕ
scan_end zero i bytes = 0
scan_end (suc left) i bytes =
    let rest = scan_end left (i + 1) (drop 1 bytes) in
    if is_zero (memcmp 4 bytes (crlf ++ crlf)) then i + 4 else rest

-- The end of the header, 0 if there is none.
unfoldable pub find_header_end : List ℕ → ℕ
unfolding scan_end
find_header_end bytes = if ltb (length bytes) 4 then 0 else scan_end (length bytes - 3) 0 bytes

unfoldable pub write_status_line : ℕ → Buffer → Run Buffer
unfolding http_reason_phrase
write_status_line status_code = dynamic_buffer_write (
    codes "HTTP/1.0 "
    ++ decimal_int status_code
    ++ codes " "
    ++ http_reason_phrase status_code
    ++ crlf)

unfoldable pub write_header : List ℕ → List ℕ → Buffer → Run Buffer
write_header key val = dynamic_buffer_write (key ++ codes ": " ++ val ++ crlf)

unfoldable pub write_end : Buffer → Run Buffer
write_end = dynamic_buffer_write crlf

pub record Request : Type 0 where
  pub url : List ℕ
  pub params : List (List ℕ)

pub record Response : Type 0 where
  pub buf : Buffer
  pub code : ℕ

-- The bytes before the first '/' or the end, and the others.
unfoldable pub segment : List ℕ → List ℕ × List ℕ
segment [] = ([], [])
segment (c ∷ url) =
    let rest = segment url in if c == b'/' then ([], c ∷ url) else (c ∷ rest.0, rest.1)

abbrev is_empty : List ℕ → Bool
is_empty [] = true
is_empty (c ∷ s) = false

-- The result, and the parameters, which are added even if there is no match in the end.
unfoldable pub resolve_pattern : List (List ℕ) → List ℕ → List ℕ → Bool × List (List ℕ)
unfolding segment
resolve_pattern params [] [] = (true, params)
resolve_pattern params [] (c ∷ url) = ((c == b'/') && is_empty url, params)
resolve_pattern params (p ∷ pattern) [] = elim ((p == b'/') && is_empty pattern) [
  | true ↦ (true, params)
  | false ↦ elim (p == b':') [
    | true ↦ resolve_pattern (params ++ [] ∷ []) pattern []
    | false ↦ (false, params)
  ]
]
resolve_pattern params (p ∷ pattern) (c ∷ url) = elim (p == c) [
  | true ↦ resolve_pattern params pattern url
  | false ↦ elim (p == b':') [
    | true ↦
        let split = segment (c ∷ url) in resolve_pattern (params ++ split.0 ∷ []) pattern split.1
    | false ↦ (false, params)
  ]
]

unfoldable pub request_create : List ℕ → List ℕ → Option Request
unfolding resolve_pattern
request_create pattern url =
    let found = resolve_pattern [] pattern url in
    if found.0 then some (record { url = url; params = found.1 }) else none

unfoldable pub request_get_param : Request → ℕ → Run (List ℕ)
request_get_param req i = or_abort (get_elem? req.params i)

abbrev pub response_create : Response
response_create = record { buf = dynamic_buffer_create 32; code = 200 }

abbrev pub response_set_code : Response → ℕ → Response
response_set_code res code = record res { code = code }
