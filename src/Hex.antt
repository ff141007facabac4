-- ===== src/Hex.antt =====
-- util/buffer.c and main/main.c: buffers, and bytes as hexadecimal text.
-- A `buffer_t` is the list of its bytes. The counters are `uint8_t`, which wrap at 256.
pub mod RoundTrip
use whosecoin_core.Base.{
  ℕ, zero, suc, ◌+◌, ◌-◌, ◌*◌, ◌/◌, ◌%◌, Bool, true, false, ◌&&◌, ◌||◌, Option, none, some, List,
  [], ◌∷◌, ltb, leb, ◌==◌, if◌then◌else◌, ℤ, pos, sub_ℕ, length, get_elem?, set, replicate, Run, ok,
  fault, out_of_fuel, ◌>>=◌, or_fault,
}
use whosecoin_core.Crypto.{crypto_generichash_bytes}

unfoldable pub buffer_create : ℕ → List ℕ
buffer_create size = replicate size 0

unfoldable pub buffer_copy : List ℕ → List ℕ
buffer_copy buffer = buffer

unfoldable pub buffer_is_null : List ℕ → Bool
buffer_is_null [] = true
buffer_is_null (b ∷ buffer) = (b == 0) && buffer_is_null buffer

-- The difference of the lengths, or of the first bytes that differ.
first_difference : List ℕ → List ℕ → ℤ
first_difference (a ∷ b1) (b ∷ b2) =
    let rest = first_difference b1 b2 in if a == b then rest else sub_ℕ a b
first_difference _ _ = pos 0

unfoldable pub buffer_compare : List ℕ → List ℕ → ℤ
unfolding first_difference
buffer_compare b1 b2 =
    if length b1 == length b2 then first_difference b1 b2 else sub_ℕ (length b1) (length b2)

-- "%x" of a digit
unfoldable pub hex_digit : ℕ → ℕ
hex_digit d = if ltb d 10 then d + 48 else d + 87

-- The loop with the counter at `i`: the digits of the first `size` bytes from there on.
unfoldable pub hex_loop : ℕ → List ℕ → ℕ → ℕ → Run (List ℕ)
unfolding hex_digit
hex_loop zero bytes size i = out_of_fuel
hex_loop (suc fuel) bytes size i = elim (ltb i size) [
  | false ↦ ok []
  | true ↦ or_fault (get_elem? bytes i) >>= λ b.
      hex_loop fuel bytes size ((i + 1) % 256) >>= λ rest.
      ok (hex_digit (b / 16) ∷ hex_digit (b % 16) ∷ rest)
]

unfoldable pub buffer_to_hex : ℕ → List ℕ → Run (List ℕ)
unfolding hex_loop
buffer_to_hex fuel bytes = hex_loop fuel bytes (length bytes) 0

-- An array of fewer than 256 bytes takes at most 256 rounds.
unfoldable pub binary_to_hex : List ℕ → ℕ → Run (List ℕ)
unfolding hex_loop
binary_to_hex bytes size = hex_loop 256 bytes size 0

-- The value of a hexadecimal digit.
unfoldable pub digit_value : ℕ → Option ℕ
digit_value c =
    if leb 48 c && leb c 57
    then some (c - 48)
    else if leb 97 c && leb c 102
    then some (c - 87)
    else if leb 65 c && leb c 70
    then some (c - 55)
    else none

-- `isxdigit`
unfoldable pub is_xdigit : ℕ → Bool
unfolding digit_value
is_xdigit c = elim (digit_value c) [ none ↦ false | some d ↦ true ]

-- `sscanf` of "%02x" at two digits. At other text, where it skips space and signs, stops early or
-- leaves `x` without a value, the model faults.
unfoldable pub scan_byte : List ℕ → ℕ → Run ℕ
unfolding digit_value
scan_byte hex i = do
  a ← (or_fault (get_elem? hex (2 * i)) >>= λ c. or_fault (digit_value c))
  b ← (or_fault (get_elem? hex (2 * i + 1)) >>= λ c. or_fault (digit_value c))
  ok (16 * a + b)

-- The loop with the counter at `i`, which writes the bytes below `size` from there on.
unfoldable pub unhex_loop : ℕ → List ℕ → ℕ → ℕ → Run (List ℕ)
unfolding scan_byte
unhex_loop zero hex size i = out_of_fuel
unhex_loop (suc fuel) hex size i = elim (ltb i size) [
  | false ↦ ok []
  | true ↦
      scan_byte hex i >>= λ x. unhex_loop fuel hex size ((i + 1) % 256) >>= λ rest. ok (x ∷ rest)
]

unfoldable pub buffer_from_hex : ℕ → List ℕ → Run (List ℕ)
unfolding unhex_loop
buffer_from_hex fuel hex = unhex_loop fuel hex (length hex / 2) 0

-- NULL for a text of another length.
unfoldable pub hex_to_binary : ℕ → List ℕ → ℕ → Run (Option (List ℕ))
unfolding unhex_loop
hex_to_binary fuel hex size = elim (length hex == 2 * size) [
  | false ↦ ok none
  | true ↦ unhex_loop fuel hex size 0 >>= λ bytes. ok (some bytes)
]

unfoldable pub are_xdigits : List ℕ → Bool
unfolding is_xdigit
are_xdigits [] = true
are_xdigits (c ∷ hex) = is_xdigit c && are_xdigits hex

unfoldable pub is_valid_hash : List ℕ → Bool
unfolding are_xdigits
is_valid_hash hex = (length hex == 2 * crypto_generichash_bytes) && are_xdigits hex
