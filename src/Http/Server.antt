-- ===== src/Http/Server.antt =====
-- util/http.c: on_request and on_read, by which a request is answered.
-- The client's buffer is all that a connection keeps. A read gives the whole block of memory, as
-- the code does: its first `nread` bytes were read, and the others are what the memory holds.
use whosecoin_core.Base.{
  ℕ, zero, suc, Bool, true, false, ◌&&◌, ◌||◌, Option, none, some, List, [], ◌∷◌, ◌++◌, leb, ◌==◌,
  Run, ok, abort, fault, ◌>>=◌,
}
use whosecoin_core.Buffer.{Buffer, dynamic_buffer_create, dynamic_buffer_write, contents, splice}
use whosecoin_core.Text.{codes, decimal_int}
use whosecoin_core.Http.{
  Request, Response, find_header_end, write_status_line, write_header, write_end, request_create,
  response_create,
}

-- A handler writes to the response.
abbrev pub Handler : Type 0
Handler = Request → Response → Run Response

pub record Http : Type 0 where
  pub patterns : List (List ℕ)
  pub handlers : List Handler

abbrev pub http_create : Http
http_create = record { patterns = []; handlers = [] }

unfoldable pub http_register : Http → List ℕ → Handler → Http
http_register http pattern handler = record {
  patterns = http.patterns ++ pattern ∷ [];
  handlers = http.handlers ++ handler ∷ [];
}

is_space : ℕ → Bool
is_space c = (leb 9 c && leb c 13) || (c == 32)

-- The bytes of a word, at most `n`, and what follows them. The memory is no string: reading past
-- its end is undefined.
read_word : ℕ → List ℕ → Run (List ℕ × List ℕ)
unfolding is_space
read_word zero s = ok ([], s)
read_word (suc n) [] = fault
read_word (suc n) (c ∷ s) = elim (is_space c || (c == 0)) [
  | true ↦ ok ([], c ∷ s)
  | false ↦ read_word n s >>= λ r. ok (c ∷ r.0, r.1)
]

-- `%ns` of `sscanf`: space is skipped, and there is no word at a zero byte.
scan_word : ℕ → List ℕ → Run (Option (List ℕ × List ℕ))
unfolding is_space read_word
scan_word n [] = fault
scan_word n (c ∷ s) = elim (is_space c) [
  | true ↦ scan_word n s
  | false ↦ elim (c == 0) [ true ↦ ok none | false ↦ read_word n (c ∷ s) >>= λ r. ok (some r) ]
]

-- The space at the end of the format: what follows the words is read up to a byte that is none.
skip_space : List ℕ → Run (List ℕ)
unfolding is_space
skip_space [] = fault
skip_space (c ∷ s) = elim (is_space c) [ true ↦ skip_space s | false ↦ ok (c ∷ s) ]

-- `sscanf(data, "%7s %2047s ", method, url)`: the URL if both words are there.
unfoldable pub scan_url : List ℕ → Run (Option (List ℕ))
unfolding scan_word skip_space
scan_url bytes = scan_word 7 bytes >>= λ method. elim method [
  | none ↦ ok none
  | some m ↦ scan_word 2047 m.1 >>= λ url. elim url [
    | none ↦ ok none
    | some u ↦ skip_space u.1 >>= λ rest. ok (some u.0)
  ]
]

-- The message for a response that a handler has filled in.
unfoldable pub answer : Response → Run (List ℕ)
answer res = do
  body ← contents res.buf
  message ←
      (write_status_line res.code (dynamic_buffer_create 32)
        >>= write_header (codes "Content-Type") (codes "application/json")
        >>= write_header (codes "Content-Length") (decimal_int res.buf.length_field)
        >>= write_header (codes "Access-Control-Allow-Origin") (codes "*")
        >>= write_end
        >>= dynamic_buffer_write body)
  contents message

unfoldable pub not_found : Run (List ℕ)
not_found =
    (write_status_line 404 (dynamic_buffer_create 32)
      >>= write_header (codes "Content-Length") (codes "0")
      >>= write_header (codes "Access-Control-Allow-Origin") (codes "*")
      >>= write_end)
    >>= contents

-- The loop over the patterns: the first that matches has its handler called.
unfoldable pub dispatch : List (List ℕ) → List Handler → List ℕ → Run (List ℕ)
unfolding answer not_found request_create
dispatch [] handlers url = not_found
dispatch (pattern ∷ patterns) [] url = abort
dispatch (pattern ∷ patterns) (handler ∷ handlers) url = elim (request_create pattern url) [
  | none ↦ dispatch patterns handlers url
  | some req ↦ handler req response_create >>= answer
]

-- What is written to the socket.
unfoldable pub on_request : Http → List ℕ → Run (Option (List ℕ))
unfolding scan_url dispatch
on_request http bytes = scan_url bytes >>= λ found. elim found [
  | none ↦ ok none
  | some url ↦ dispatch http.patterns http.handlers url >>= λ message. ok (some message)
]

pub data Connection : Type 0 where
  closed : Connection
  reading : Buffer → Option (List ℕ) → Connection

-- `nread < 0` is the error case, without memory.
unfoldable pub on_read : Http → Buffer → Option (List ℕ) → Run Connection
unfolding on_request splice
on_read http ctx none = ok closed
on_read http ctx (some base) = do
  buf ← dynamic_buffer_write base ctx
  bytes ← contents buf
  let end = find_header_end bytes
  elim (end == 0) [
    | true ↦ ok (reading buf none)
    | false ↦
        on_request http bytes >>= λ message. splice end buf >>= λ rest. ok (reading rest message)
  ]
