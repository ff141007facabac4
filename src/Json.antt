-- ===== src/Json.antt =====
-- util/json.c: the writer of JSON text onto a growing buffer. Every value is followed by a comma,
-- which the end of an object or an array overwrites. The numbers that the program writes are whole.
pub mod Strings
use whosecoin_core.Base.{
  ℕ, ◌-◌, Bool, true, false, Option, none, some, List, ◌==◌, get_elem?, set, Run, ok, ◌>>=◌,
  or_fault, ltb, leb, zero, suc, ◌+◌, ◌*◌, ◌/◌, ◌%◌, ◌^◌, ◌&&◌, ◌||◌, ◌++◌, [], ◌∷◌, fault,
  if◌then◌else◌,
}
use whosecoin_core.Text.{decimal}
use whosecoin_core.Buffer.{Buffer, dynamic_buffer_write, dynamic_buffer_putc}

-- `res->data[res->length - 1]`, of a buffer that is not empty
unfoldable pub last_byte : Buffer → Run ℕ
last_byte res = or_fault (get_elem? res.bytes (res.length_field - 1)) >>= or_fault

unfoldable pub json_write_end : Buffer → Run Buffer
unfolding last_byte
json_write_end res = last_byte res >>= λ c. elim (c == b',') [
  | true ↦ ok (record res { length_field = res.length_field - 1 })
  | false ↦ ok res
]

-- The closing byte goes over the last comma, or behind the opening byte, and a comma follows.
unfoldable pub close : ℕ → ℕ → Buffer → Run Buffer
unfolding last_byte
close opening closing res = last_byte res >>= λ c.
    (elim (c == opening) [
      | false ↦ ok (record res { bytes = set res.bytes (res.length_field - 1) (some closing) })
      | true ↦ dynamic_buffer_putc closing res
    ])
    >>= dynamic_buffer_putc b','

unfoldable pub json_write_object_start : Buffer → Run Buffer
json_write_object_start = dynamic_buffer_putc b'{'

unfoldable pub json_write_object_end : Buffer → Run Buffer
unfolding close
json_write_object_end = close b'{' b'}'

unfoldable pub json_write_array_start : Buffer → Run Buffer
json_write_array_start = dynamic_buffer_putc b'['

unfoldable pub json_write_array_end : Buffer → Run Buffer
unfolding close
json_write_array_end = close b'[' b']'

-- The bytes of the string, which end at its zero byte, between quotes and followed by `last`.
unfoldable pub quote : ℕ → List ℕ → Buffer → Run Buffer
quote last str res =
    dynamic_buffer_putc b'"' res
    >>= dynamic_buffer_write str
    >>= dynamic_buffer_putc b'"'
    >>= dynamic_buffer_putc last

unfoldable pub json_write_string : List ℕ → Buffer → Run Buffer
unfolding quote
json_write_string = quote b','

unfoldable pub json_write_key : List ℕ → Buffer → Run Buffer
unfolding quote
json_write_key = quote b':'

-- `n`, which has at most `53 + shift + left` bits, rounded to the nearest multiple of 2 ^ `shift`
-- that has 53 bits, ties to an even multiple.
round_double : ℕ → ℕ → ℕ → ℕ
round_double zero shift n = n
round_double (suc left) shift n = elim (ltb n (2 ^ (53 + shift))) [
  | false ↦ round_double left (shift + 1) n
  | true ↦
      let unit = 2 ^ shift in
      let low = n / unit in
      let above = 2 * (n % unit) in
      let is_up = ltb unit above || ((above == unit) && (low % 2 == 1)) in
      if is_up then (low + 1) * unit else low * unit
]

-- The argument is a `double`: a whole number is rounded, and is printed as a 64-bit one if it is.
unfoldable pub json_write_number : ℕ → Buffer → Run Buffer
unfolding round_double
json_write_number n res =
    let rounded = round_double 12 0 n in
    elim (ltb rounded (2 ^ 64)) [
      | false ↦ fault
      | true ↦ dynamic_buffer_write (decimal rounded ++ b',' ∷ []) res
    ]
