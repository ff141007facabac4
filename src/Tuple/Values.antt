-- ===== src/Tuple/Values.antt =====
-- The values that a message tuple carries and the bytes that stand for them, as the grammar in
-- README.md and the `tuple_write_*` functions of tuple.c have them. A signed integer and a float
-- are their bit patterns.
use whosecoin_core.Base.{ℕ, suc, ◌+◌, ◌^◌, ◌<◌, ◌≡◌, List, [], ◌∷◌, ◌++◌, length}
use whosecoin_core.Bytes.{be_bytes, le_bytes, NoZero}
use whosecoin_core.Tuple.{
  tuple_start, tuple_end, tuple_i32, tuple_i64, tuple_u32, tuple_u64, tuple_f32, tuple_f64,
  tuple_bool, tuple_binary, tuple_string, tuple_null, Elements, none_left, at_bytes, sub_tuple,
}

pub data Scalar : Type 0 where
  null : Scalar
  i32 i64 u32 u64 f32 f64 bool : ℕ → Scalar
  string binary : List ℕ → Scalar

pub data Values : Type 0 where
  nil : Values
  scalar : Scalar → Values → Values
  tuple : Values → Values → Values

unfoldable pub encode_scalar : Scalar → List ℕ
encode_scalar null = tuple_null ∷ []
encode_scalar (i32 v) = tuple_i32 ∷ be_bytes 4 v
encode_scalar (i64 v) = tuple_i64 ∷ be_bytes 8 v
encode_scalar (u32 v) = tuple_u32 ∷ be_bytes 4 v
encode_scalar (u64 v) = tuple_u64 ∷ be_bytes 8 v
encode_scalar (f32 v) = tuple_f32 ∷ le_bytes 4 v
encode_scalar (f64 v) = tuple_f64 ∷ le_bytes 8 v
encode_scalar (bool v) = tuple_bool ∷ le_bytes 1 v
encode_scalar (string s) = tuple_string ∷ (s ++ 0 ∷ [])
encode_scalar (binary s) = tuple_binary ∷ (le_bytes 4 (length s) ++ s)

-- The bytes of the values, each tuple in its brackets.
unfoldable pub encode : Values → List ℕ
encode nil = []
encode (scalar s vs) = encode_scalar s ++ encode vs
encode (tuple ws vs) = tuple_start ∷ (encode ws ++ tuple_end ∷ encode vs)

unfoldable pub encode_tuple : Values → List ℕ
encode_tuple vs = tuple_start ∷ (encode vs ++ tuple_end ∷ [])

-- A string is zero-terminated, and the size of a binary is a 32-bit word.
abbrev pub ScalarFits : Scalar → Type 0
ScalarFits null = Unit
ScalarFits (i32 v) = v < 2 ^ 32
ScalarFits (i64 v) = v < 2 ^ 64
ScalarFits (u32 v) = v < 2 ^ 32
ScalarFits (u64 v) = v < 2 ^ 64
ScalarFits (f32 v) = v < 2 ^ 32
ScalarFits (f64 v) = v < 2 ^ 64
ScalarFits (bool v) = v < 2
ScalarFits (string s) = NoZero s
ScalarFits (binary s) = length s < 2 ^ 32

abbrev pub Fits : Values → Type 0
Fits nil = Unit
Fits (scalar s vs) = ScalarFits s × Fits vs
Fits (tuple ws vs) = Fits ws × Fits vs

-- The rounds that the parser's loop makes for the values.
unfoldable pub rounds : Values → ℕ
rounds nil = 1
rounds (scalar s vs) = suc (rounds vs)
rounds (tuple ws vs) = suc (rounds ws + rounds vs)

-- The parsed elements point at the bytes of the values, in order.
abbrev pub Shows : Elements → Values → Type 0
Shows none_left nil = Unit
Shows (at_bytes p es) (scalar s vs) = ((t : List ℕ) × (p ≡ encode_scalar s ++ t)) × Shows es vs
Shows (sub_tuple es p n fs) (tuple ws vs) =
    Shows es ws
    × ((t : List ℕ) × (p ≡ encode_tuple ws ++ t))
    × (n ≡ length (encode_tuple ws))
    × Shows fs vs
Shows _ _ = ⊥
