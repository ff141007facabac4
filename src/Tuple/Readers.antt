-- ===== src/Tuple/Readers.antt =====
-- tuple.c: the readers `tuple_size`, `tuple_get_*`, and that on a parsed tuple each gives the value
-- that was written.
pub mod Agree
use whosecoin_core.Base.{
  ℕ, zero, suc, ◌+◌, ◌^◌, ◌≤◌, ◌<◌, ◌≡◌, refl, sym, ap, ◌∙◌, Option, none, some, List, [], ◌∷◌,
  ◌++◌, arith, length, take, drop, ltb, ◌==◌, if◌then◌else◌, Run, ok, fault, abort, ◌>>=◌, ◌>>◌,
  assert, or_abort, or_fault, append_assoc,
}
use whosecoin_core.Bytes.{from_be, from_le}
use whosecoin_core.Tuple.{
  Elements, none_left, at_bytes, sub_tuple, Tuple, tuple_start, tuple_i32, tuple_i64, tuple_u32,
  tuple_u64, tuple_f32, tuple_f64, tuple_bool, tuple_binary, tuple_string, read_u32,
}
use whosecoin_core.Tuple.Values.{
  Scalar, i32, i64, u32, u64, string, binary, Values, nil, scalar, tuple, encode_scalar,
  encode_tuple, Shows,
}

-- An element pointer, dereferenced as the code does: the bytes at it, or the sub-tuple at it.
pub data Item : Type 0 where
  bytes : List ℕ → Item
  sub : Tuple → Item

size_elements : Elements → ℕ
size_elements none_left = 0
size_elements (at_bytes p es) = suc (size_elements es)
size_elements (sub_tuple es p n fs) = suc (size_elements fs)

unfoldable pub tuple_size : Tuple → ℕ
unfolding size_elements
tuple_size t = size_elements t.elements

element_at : Elements → ℕ → Option Item
element_at none_left i = none
element_at (at_bytes p es) zero = some (bytes p)
element_at (sub_tuple es p n fs) zero =
    some (sub (record { elements = es; start = p; length_field = n }))
element_at (at_bytes p es) (suc i) = element_at es i
element_at (sub_tuple es p n fs) (suc i) = element_at fs i

-- `list_get(tuple->elements, i)`
unfoldable pub get_item : Tuple → ℕ → Run Item
unfolding element_at
get_item t i = or_abort (element_at t.elements i)

-- `*element`: the tag, or the field `kind` of a sub-tuple
unfoldable pub item_tag : Item → Run ℕ
item_tag (bytes []) = fault
item_tag (bytes (c ∷ r)) = ok c
item_tag (sub t) = ok tuple_start

-- `element + 1`, for an element whose tag is not that of a tuple
payload : Item → List ℕ
payload (bytes []) = []
payload (bytes (c ∷ r)) = r
payload (sub t) = []

-- the element with the tag that the reader asserts
tagged : ℕ → Tuple → ℕ → Run (List ℕ)
unfolding get_item item_tag payload
tagged tag t i = do e ← get_item t i; c ← item_tag e; assert (c == tag); ok (payload e)

-- a word of `k` bytes that went through `ntohl` or `ntohll`
read_be : ℕ → List ℕ → Run ℕ
read_be k p = if ltb (length p) k then fault else ok (from_be 0 (take k p))

unfoldable pub tuple_get_type : Tuple → ℕ → Run ℕ
unfolding get_item item_tag
tuple_get_type t i = get_item t i >>= item_tag

unfoldable pub tuple_get_i32 : Tuple → ℕ → Run ℕ
unfolding tagged read_be
tuple_get_i32 t i = tagged tuple_i32 t i >>= read_be 4

unfoldable pub tuple_get_i64 : Tuple → ℕ → Run ℕ
unfolding tagged read_be
tuple_get_i64 t i = tagged tuple_i64 t i >>= read_be 8

unfoldable pub tuple_get_u32 : Tuple → ℕ → Run ℕ
unfolding tagged read_be
tuple_get_u32 t i = tagged tuple_u32 t i >>= read_be 4

unfoldable pub tuple_get_u64 : Tuple → ℕ → Run ℕ
unfolding tagged read_be
tuple_get_u64 t i = tagged tuple_u64 t i >>= read_be 8

-- The pointer to the string's first byte.
unfoldable pub tuple_get_string : Tuple → ℕ → Run (List ℕ)
unfolding tagged
tuple_get_string t i = tagged tuple_string t i

-- `buffer_t`: a length and a pointer.
pub record View : Type 0 where
  pub size : ℕ
  pub start : List ℕ

unfoldable pub tuple_get_binary : Tuple → ℕ → Run View
unfolding tagged read_u32
tuple_get_binary t i = do
  p ← tagged tuple_binary t i
  size ← read_u32 p
  ok (record { size = size; start = drop 4 p })

-- A cast of the element pointer: its tag says that it is a sub-tuple.
as_tuple : Item → Run Tuple
as_tuple (bytes p) = fault
as_tuple (sub t) = ok t

unfoldable pub tuple_get_tuple : Tuple → ℕ → Run Tuple
unfolding get_item item_tag as_tuple
tuple_get_tuple t i = do e ← get_item t i; c ← item_tag e; assert (c == tuple_start); as_tuple e

-- A float or a boolean is read in the host's byte order.
read_le : ℕ → List ℕ → Run ℕ
read_le k p = if ltb (length p) k then fault else ok (from_le (take k p))

unfoldable pub tuple_get_f32 : Tuple → ℕ → Run ℕ
unfolding tagged read_le
tuple_get_f32 t i = tagged tuple_f32 t i >>= read_le 4

unfoldable pub tuple_get_f64 : Tuple → ℕ → Run ℕ
unfolding tagged read_le
tuple_get_f64 t i = tagged tuple_f64 t i >>= read_le 8

unfoldable pub tuple_get_boolean : Tuple → ℕ → Run ℕ
unfolding tagged read_le
tuple_get_boolean t i = tagged tuple_bool t i >>= read_le 1
