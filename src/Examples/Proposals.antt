-- ===== src/Examples/Proposals.antt =====
-- The first block of a node: created, written, parsed and read.
use whosecoin_core.Base.{
  ℕ, ◌≡◌, refl, none, some, List, [], ◌∷◌, ◌++◌, ok, Returns, arith, length, replicate,
}
use whosecoin_core.Bytes.{length-be_bytes}
use whosecoin_core.Examples.Toy.{toy}
use whosecoin_core.Tuple.{Tuple, tuple_parse}
use whosecoin_core.Tuple.Values.{encode_tuple, Shows}
use whosecoin_core.Tuple.RoundTrip.{tuple_parse-encode}
use whosecoin_core.Block.{Block, Store, block_get_hash}
use whosecoin_core.Block.Wire.Bytes.{block_values}
use whosecoin_core.Block.Wire.Size.{rounds-block}
use whosecoin_core.Block.RoundTrip.{send_receive_block, block_values-Fits, block_roundtrip}
use whosecoin_core.Block.Read.{block_create_from_tuple}
use whosecoin_core.Block.Read.Accepted.{IsAccepted, block_create_from_tuple-IsAccepted}
use whosecoin_core.Block.Read.Header.{IsBlockSized}
use whosecoin_core.Block.Read.Proposed.{IsProposed, block_create_from_tuple-Shows}
use whosecoin_core.Block.Create.{block_create}
use whosecoin_core.Block.Create.Proposed.{block_create-IsProposed}
use whosecoin_core.Node.FirstBlock.{genesis_block, created-first}

abbrev key : List ℕ
key = replicate 31 0 ++ 1 ∷ []

abbrev no_blocks : Store
no_blocks = record { blocks = []; children = λ a. [] }

abbrev zeros : List ℕ
zeros = replicate 32 0

abbrev first : Block
first = genesis_block toy 0 7 key key

no_previous : block_get_hash no_blocks none ≡ ok zeros
unfolding block_get_hash
no_previous = refl

proofs_sized : (k m : List ℕ) → length (toy.vrf_prove k m) ≡ 80
unfolding whosecoin_core.Examples.Toy.toy_prove
proofs_sized k m = length-be_bytes 80 _

first_created : block_create toy no_blocks 1 0 7 key key none [] ≡ ok (some first)
first_created = created-first toy 0 7 key key refl proofs_sized

first-IsProposed :
    IsProposed toy no_blocks 1 0 zeros first × IsBlockSized zeros first × (first.transactions ≡ [])
first-IsProposed =
    block_create-IsProposed toy no_blocks 1 0 7 key key refl refl (proofs_sized key) none zeros
      no_previous refl [] tt first (omega arith) (omega arith) first_created

-- The bytes of the first block, parsed.
first_parsed : Returns (tuple_parse 13 (encode_tuple (block_values zeros first) ++ [])) λ found.
    (t : Tuple) × (found ≡ some t)
    × Shows t.elements (block_values zeros first)
    × (t.start ≡ encode_tuple (block_values zeros first) ++ [])
    × (t.length_field ≡ length (encode_tuple (block_values zeros first)))
unfolding whosecoin_core.Block.Create.enter_sortition
first_parsed =
    tuple_parse-encode (block_values zeros first) [] 13
      (block_values-Fits zeros first first-IsProposed.1 tt)
      (omega (arith, rounds-block first zeros))

abbrev message : Tuple
message = first_parsed.2.0

block_roundtrip_example :
    send_receive_block toy no_blocks 1 0 (λ v. none) 13 first ≡ ok (some first)
block_roundtrip_example =
    block_roundtrip toy no_blocks 1 0 (λ v. none) 13 7 key key none zeros [] first refl refl
      (proofs_sized key) no_previous refl tt tt (omega arith) (omega arith) (omega arith)
      (λ r. refl) first_created

block_create-IsProposed_example :
    IsProposed toy no_blocks 1 0 zeros first × IsBlockSized zeros first × (first.transactions ≡ [])
block_create-IsProposed_example =
    block_create-IsProposed toy no_blocks 1 0 7 key key refl refl (proofs_sized key) none zeros
      no_previous refl [] tt first (omega arith) (omega arith) first_created

block_create_from_tuple-Shows_example :
    block_create_from_tuple toy no_blocks 1 0 (λ v. none) message ≡ ok (some first)
unfolding whosecoin_core.Block.Create.enter_sortition
block_create_from_tuple-Shows_example =
    block_create_from_tuple-Shows toy no_blocks 1 0 zeros first (λ v. none) message
      first-IsProposed.1 first-IsProposed.0 tt tt (λ r. refl) first_parsed.2.2

first_read : block_create_from_tuple toy no_blocks 1 0 (λ v. none) message ≡ ok (some first)
unfolding whosecoin_core.Block.Create.enter_sortition
first_read =
    block_create_from_tuple-Shows toy no_blocks 1 0 zeros first (λ v. none) message
      first-IsProposed.1 first-IsProposed.0 tt tt (λ r. refl) first_parsed.2.2

block_create_from_tuple-IsAccepted_example : IsAccepted toy no_blocks 1 (λ v. none) message 0 first
block_create_from_tuple-IsAccepted_example =
    block_create_from_tuple-IsAccepted toy no_blocks 1 (λ v. none) message 0 first first_read
