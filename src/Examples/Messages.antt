-- ===== src/Examples/Messages.antt =====
-- tuple.c and transaction.c at concrete inputs.
use whosecoin_core.Base.{
  ℕ, ◌≡◌, refl, some, List, [], ◌∷◌, ◌++◌, arith, ok, abort, length, replicate, out_of_fuel,
  Returns,
}
use whosecoin_core.Examples.Toy.{toy}
use whosecoin_core.Tuple.{none_left, at_bytes, sub_tuple, Tuple, tuple_start, tuple_parse}
use whosecoin_core.Tuple.Values.{
  u32, binary, Values, nil, scalar, tuple, encode_scalar, encode, encode_tuple, Shows, rounds,
}
use whosecoin_core.Tuple.RoundTrip.{tuple_parse-encode, tuple_parse-diverges}
use whosecoin_core.Transaction.{Transaction, transaction_create_from_tuple}
use whosecoin_core.Transaction.Read.{
  send_receive, created, transaction_roundtrip, transaction_create_from_tuple-aborts,
}

-- (u32 7, (), binary 1 2)
abbrev sample : Values
sample = scalar (u32 7) (tuple nil (scalar (binary (1 ∷ 2 ∷ [])) nil))

abbrev sample_bytes : List ℕ
sample_bytes = b'(' ∷ b'u' ∷ 0 ∷ 0 ∷ 0 ∷ 7 ∷ b'(' ∷ b')' ∷ b'B' ∷ 2 ∷ 0 ∷ 0 ∷ 0 ∷ 1 ∷ 2 ∷ b')' ∷ []

encode_sample : encode_tuple sample ≡ sample_bytes
unfolding encode_tuple encode encode_scalar whosecoin_core.Bytes.be_bytes
    whosecoin_core.Bytes.le_bytes
encode_sample = refl

tuple_parse-encode_example : Returns (tuple_parse 9 (encode_tuple sample ++ 5 ∷ [])) λ found.
    (t : Tuple) × (found ≡ some t)
    × Shows t.elements sample
    × (t.start ≡ encode_tuple sample ++ 5 ∷ [])
    × (t.length_field ≡ length (encode_tuple sample))
unfolding rounds
tuple_parse-encode_example = tuple_parse-encode sample (5 ∷ []) 9 (omega arith) (omega arith)

tuple_parse-diverges_example : tuple_parse 100 (tuple_start ∷ b'x' ∷ []) ≡ out_of_fuel
tuple_parse-diverges_example = tuple_parse-diverges 100 b'x' [] (ground arith)

-- The sample as a parsed tuple.
abbrev shown : Tuple
shown = record {
  elements = at_bytes (encode_scalar (u32 7) ++ []) (
      sub_tuple none_left (encode_tuple nil ++ []) (length (encode_tuple nil))
        (at_bytes (encode_scalar (binary (1 ∷ 2 ∷ [])) ++ []) none_left));
  start = [];
  length_field = 0;
}

shown-Shows : Shows shown.elements sample
shown-Shows = (([], refl), (tt, ([], refl), refl, (([], refl), tt)))

-- A transaction of the toy key 1 to the key 2.
abbrev key_one : List ℕ
key_one = replicate 31 0 ++ 1 ∷ []

abbrev key_two : List ℕ
key_two = replicate 31 0 ++ 2 ∷ []

transaction_roundtrip_example :
    send_receive toy 20 key_one key_one key_two 5 0
    ≡ ok (some (created toy key_one key_one key_two 5 0))
transaction_roundtrip_example =
    transaction_roundtrip toy key_one key_one key_two 5 0 refl refl (omega arith) (omega arith) refl
      20 (omega arith)

abbrev paid : Transaction
paid = created toy key_one key_one key_two 5 0

-- A message whose transaction has no fields.
abbrev hollow : Tuple
hollow = record {
  elements =
      sub_tuple none_left (encode_tuple nil ++ []) (length (encode_tuple nil))
        (at_bytes (encode_scalar (binary (replicate 64 0)) ++ []) none_left);
  start = [];
  length_field = 0;
}

transaction_create_from_tuple-aborts_example : transaction_create_from_tuple toy hollow ≡ abort
transaction_create_from_tuple-aborts_example =
    transaction_create_from_tuple-aborts toy hollow (replicate 64 0) refl
      (tt, ([], refl), refl, (([], refl), tt))
