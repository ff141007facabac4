-- ===== src/Buffer.antt =====
-- util/buffer.c: the growing byte buffer `dynamic_buffer_t`.
-- `length` and `capacity` are `uint32_t`; a byte that was never written is `none`. `n` and the sum
-- with it are `size_t`, which does not wrap at the sizes that memory holds.
pub mod Refines
pub mod Appends
use whosecoin_core.Base.{
  ℕ, zero, suc, ◌+◌, ◌-◌, ◌*◌, ◌%◌, ◌^◌, ◌≤◌, ◌<◌, ◌≡◌, Bool, true, false, Option, none, some, List,
  [], ◌∷◌, ◌++◌, map, ltb, leb, if◌then◌else◌, length, set, take, drop, replicate, Run, ok, fault,
  out_of_fuel, ◌>>=◌, ◌==◌, get_elem?,
}

abbrev pub u32 : ℕ
u32 = 2 ^ 32

pub record Buffer : Type 0 where
  pub length_field : ℕ
  pub bytes : List (Option ℕ)
  pub capacity : ℕ

realloc : List (Option ℕ) → ℕ → List (Option ℕ)
realloc cells n = take n cells ++ replicate (n - length cells) none

-- `memcpy(cells + at, src, n)`, of all the `n` bytes of `src`
memcpy : List (Option ℕ) → ℕ → List ℕ → Run (List (Option ℕ))
memcpy cells at src =
    if leb (at + length src) (length cells)
    then ok (take at cells ++ (map some src ++ drop (at + length src) cells))
    else fault

unfoldable pub dynamic_buffer_create : ℕ → Buffer
dynamic_buffer_create initial_capacity = record {
  length_field = 0;
  bytes = replicate initial_capacity (some 0);
  capacity = if ltb initial_capacity 1 then 1 else initial_capacity;
}

-- `while (need >= capacity) capacity *= 2`
unfoldable pub grow : ℕ → ℕ → ℕ → Run ℕ
grow zero need capacity = out_of_fuel
grow (suc fuel) need capacity =
    let rest = grow fuel need (capacity * 2 % u32) in
    if leb capacity need then rest else ok capacity

-- 32 rounds: after them a capacity that does not wrap is past every 32-bit size.
unfoldable pub dynamic_buffer_write : List ℕ → Buffer → Run Buffer
unfolding realloc memcpy
dynamic_buffer_write src buffer =
    if leb buffer.capacity (buffer.length_field + length src)
    then (do
      capacity ← grow 33 (buffer.length_field + length src) buffer.capacity
      bytes ← memcpy (realloc buffer.bytes capacity) buffer.length_field src
      ok (record {
        length_field = (buffer.length_field + length src) % u32;
        bytes = bytes;
        capacity = capacity;
      }))
    else (do
      bytes ← memcpy buffer.bytes buffer.length_field src
      ok (record buffer { length_field = (buffer.length_field + length src) % u32; bytes = bytes }))

-- `data[i] = c`
write_byte : List (Option ℕ) → ℕ → ℕ → Run (List (Option ℕ))
write_byte cells i c = if ltb i (length cells) then ok (set cells i (some c)) else fault

unfoldable pub dynamic_buffer_putc : ℕ → Buffer → Run Buffer
unfolding realloc write_byte
dynamic_buffer_putc c buffer =
    if leb buffer.capacity ((buffer.length_field + 1) % u32)
    then (do
      let capacity = buffer.capacity * 2 % u32
      bytes ← write_byte (realloc buffer.bytes capacity) buffer.length_field c
      ok (record {
        length_field = (buffer.length_field + 1) % u32;
        bytes = bytes;
        capacity = capacity;
      }))
    else (do
      bytes ← write_byte buffer.bytes buffer.length_field c
      ok (record buffer { length_field = (buffer.length_field + 1) % u32; bytes = bytes }))

-- The bytes that a reader of the first `length` bytes gets, all of which must have been written.
unfoldable pub initialised : ℕ → List (Option ℕ) → Run (List ℕ)
initialised zero cells = ok []
initialised (suc n) [] = fault
initialised (suc n) (none ∷ cells) = fault
initialised (suc n) (some b ∷ cells) = initialised n cells >>= λ bs. ok (b ∷ bs)

unfoldable pub contents : Buffer → Run (List ℕ)
unfolding initialised
contents buffer = initialised buffer.length_field buffer.bytes

-- `memmove(data, data + n, length - n)` and `length -= n`: what follows the first `n` bytes moves to
-- the front, and the cells behind it keep what they hold. For a greater `n` the size wraps around.
unfoldable pub splice : ℕ → Buffer → Run Buffer
splice n buffer = elim (leb n buffer.length_field) [
  | false ↦ fault
  | true ↦
      let rest = buffer.length_field - n in
      ok (record buffer {
        length_field = rest;
        bytes = take rest (drop n buffer.bytes) ++ drop rest buffer.bytes;
      })
]
