-- ===== src/Tuple.antt =====
-- tuple.c: the binary tuples of the network messages: the parser and the readers.
-- A pointer into a message is the rest of the message from there; an access past the end of the
-- buffer that `tuple_parse` was given is a fault. `void*` elements are of two kinds, a pointer to
-- the element's bytes and a pointer to a sub-tuple, so the element list has two constructors.
pub mod Values
pub mod Write
pub mod RoundTrip
pub mod Readers
use whosecoin_core.Base.{
  ℕ, zero, suc, ◌+◌, ◌-◌, ◌≤◌, ◌<◌, Bool, true, false, Option, none, some, List, [], ◌∷◌, ltb, ◌==◌,
  if◌then◌else◌, length, take, drop, Run, ok, abort, fault, out_of_fuel, ◌>>=◌, ◌>>◌, assert,
}
use whosecoin_core.Bytes.{from_be, from_le, strlen}

abbrev pub tuple_start : ℕ
tuple_start = b'('

abbrev pub tuple_end : ℕ
tuple_end = b')'

abbrev pub tuple_i32 : ℕ
tuple_i32 = b'i'

abbrev pub tuple_i64 : ℕ
tuple_i64 = b'I'

abbrev pub tuple_u32 : ℕ
tuple_u32 = b'u'

abbrev pub tuple_u64 : ℕ
tuple_u64 = b'U'

abbrev pub tuple_f32 : ℕ
tuple_f32 = b'f'

abbrev pub tuple_f64 : ℕ
tuple_f64 = b'F'

abbrev pub tuple_bool : ℕ
tuple_bool = b'b'

abbrev pub tuple_binary : ℕ
tuple_binary = b'B'

abbrev pub tuple_string : ℕ
tuple_string = b's'

abbrev pub tuple_null : ℕ
tuple_null = b'n'

-- `list_t` of the elements: each a pointer to its bytes, or a sub-tuple with its own elements,
-- its first byte and its length in bytes.
pub data Elements : Type 0 where
  none_left : Elements
  at_bytes : List ℕ → Elements → Elements
  sub_tuple : Elements → List ℕ → ℕ → Elements → Elements

-- `tuple_t`; the field `kind` is always TUPLE_START.
pub record Tuple : Type 0 where
  pub elements : Elements
  pub start : List ℕ
  pub length_field : ℕ

-- What one round of the parser's `switch` does with the byte at `iter`.
pub data Move : Type 0 where
  element : List ℕ → Move
  descend : Move
  finish : Move
  stay : Move

-- `((uint32_t*) p)[0]`, in the host's order
unfoldable pub read_u32 : List ℕ → Run ℕ
read_u32 p = if ltb (length p) 4 then fault else ok (from_le (take 4 p))

-- The case of a binary: its size, the assertion that it ends before the buffer does, the skip.
unfoldable pub skip_binary : List ℕ → Run Move
unfolding read_u32
skip_binary r = do
  binary_size ← read_u32 r
  assert (ltb binary_size (length (drop 4 r)))
  ok (element (drop binary_size (drop 4 r)))

-- The case of a string: past its terminating zero byte.
unfoldable pub skip_string : List ℕ → Run Move
skip_string r = elim (strlen r) [ none ↦ fault | some n ↦ ok (element (drop (n + 1) r)) ]

-- The `switch` on the byte `c` with the bytes `r` behind it. There is no `default`.
unfoldable pub switch : ℕ → List ℕ → Run Move
switch c r =
    if c == tuple_null
    then ok (element r)
    else if c == tuple_i32
    then ok (element (drop 4 r))
    else if c == tuple_i64
    then ok (element (drop 8 r))
    else if c == tuple_u32
    then ok (element (drop 4 r))
    else if c == tuple_u64
    then ok (element (drop 8 r))
    else if c == tuple_f32
    then ok (element (drop 4 r))
    else if c == tuple_f64
    then ok (element (drop 8 r))
    else if c == tuple_bool
    then ok (element (drop 1 r))
    else if c == tuple_string
    then skip_string r
    else if c == tuple_binary
    then skip_binary r
    else if c == tuple_start
    then ok descend
    else if c == tuple_end
    then ok finish
    else ok stay

-- The elements that the loop finds and what is left behind the tuple; `none` is NULL.
abbrev pub Found : Type 0
Found = Option (Elements × List ℕ)

abbrev pub prepend : (Elements → Elements) → Run Found → Run Found
prepend add m =
    m >>= λ found. elim found [ none ↦ ok none | some (es, rest) ↦ ok (some (add es, rest)) ]

-- The body of `tuple_parse` around its loop.
unfoldable pub parse_with : (List ℕ → Run Found) → List ℕ → Run (Option Tuple)
parse_with loop [] = ok none
parse_with loop (c ∷ r) =
    if ltb (length (c ∷ r)) 2
    then ok none
    else if c == tuple_start
    then loop r >>= (λ found. elim found [
      | none ↦ ok none
      | some (es, rest) ↦ ok (
          some
            (record { elements = es; start = c ∷ r; length_field = length (c ∷ r) - length rest }))
    ])
    else ok none

-- The loop, from `iter`; the fuel counts its rounds, those of the inner calls included.
unfoldable pub parse_loop : ℕ → List ℕ → Run Found
unfolding parse_with
parse_loop zero iter = out_of_fuel
parse_loop (suc fuel) [] = ok none
parse_loop (suc fuel) (c ∷ r) = switch c r >>= λ move. elim move [
  | element rest ↦ prepend (at_bytes (c ∷ r)) (parse_loop fuel rest)
  | descend ↦ parse_with (parse_loop fuel) (c ∷ r) >>= (λ sub. elim sub [
    | none ↦ ok none
    | some t ↦
        prepend (sub_tuple t.elements t.start t.length_field)
          (parse_loop fuel (drop t.length_field (c ∷ r)))
  ])
  | finish ↦ ok (some (none_left, r))
  | stay ↦ parse_loop fuel (c ∷ r)
]

unfoldable pub tuple_parse : ℕ → List ℕ → Run (Option Tuple)
tuple_parse fuel buffer = parse_with (parse_loop fuel) buffer
