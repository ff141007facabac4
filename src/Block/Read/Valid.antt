-- ===== src/Block/Read/Valid.antt =====
-- block.c: block_is_valid on a message that shows a block.
use whosecoin_core.Base.{ℕ, ◌%◌, ◌^◌, ◌≡◌, refl, true, List, length, arith, ok, ◌>>=◌, ◌==◌}
use whosecoin_core.Bytes.{memcmp_refl}
use whosecoin_core.Crypto.{Crypto}
use whosecoin_core.Tuple.{Tuple}
use whosecoin_core.Tuple.Values.{binary, encode_scalar, Shows}
use whosecoin_core.Tuple.Readers.Agree.{
  tuple_size-Shows, tuple_get_u32-Shows, tuple_get_binary-Shows, tuple_get_tuple-Shows,
  tuple_get_type-leaf, tuple_get_type-branch,
}
use whosecoin_core.Transaction.Read.{copy_view-sized}
use whosecoin_core.Block.{Block}
use whosecoin_core.Block.Merkle.{merkle_root_from_list}
use whosecoin_core.Block.Wire.Bytes.{header_values, transaction_list, block_values}
use whosecoin_core.Block.Read.{is_content_valid, block_is_valid}
use whosecoin_core.Block.Read.Header.{IsBlockSized, is_header_valid-Shows}
use whosecoin_core.Block.Read.Listed.{
  AreHashed, tuple_size-list, are_tuples_valid-list, merkle_root_from_tuple-list,
}

module _ (crypto : Crypto) (prev_hash : List ℕ) (b : Block) (h : IsBlockSized prev_hash b)
    (hashed : AreHashed crypto b.transactions)
    (root : merkle_root_from_list crypto b.transactions ≡ ok b.merkle_root) where
  is_content_valid-Shows :
      (header txns : Tuple)
      → Shows header.elements (header_values prev_hash b)
      → Shows txns.elements (transaction_list b.transactions)
      → is_content_valid crypto header txns ≡ ok true
  unfolding is_content_valid
  is_content_valid-Shows header txns head list =
      let vs = header_values prev_hash b in
      let n = length b.transactions in
      let small : (n == n % 2 ^ 32) ≡ true = ground (arith, h.count_word) in
      let (r, field) =
        tuple_get_binary-Shows header vs 2 head b.merkle_root
          (omega (arith, h.header_sized.merkle_root_size)) refl in
      rw (
        is_header_valid-Shows prev_hash b h header head,
        tuple_get_u32-Shows header vs 6 head (n % 2 ^ 32) (omega arith) refl,
        ◌>>=◌,
        are_tuples_valid-list crypto txns b.transactions list hashed,
        merkle_root_from_tuple-list crypto txns b.transactions list hashed,
        tuple_size-list crypto txns b.transactions list hashed,
        small,
        root,
        field,
        copy_view-sized b.merkle_root r (length b.merkle_root) 32 h.header_sized.merkle_root_size,
        memcmp_refl 32 b.merkle_root,
      )

  -- A message that shows a block whose fields have their sizes, whose transactions have their
  -- hashes and whose Merkle root is theirs passes the checks of its form.
  pub block_is_valid-Shows :
      (t : Tuple) → Shows t.elements (block_values prev_hash b) → block_is_valid crypto t ≡ ok true
  unfolding block_is_valid encode_scalar
  block_is_valid-Shows t shows =
      let vs = block_values prev_hash b in
      let head = header_values prev_hash b in
      let list = transaction_list b.transactions in
      let (header, sub0, (inner0, start0, size0)) = tuple_get_tuple-Shows t vs 0 shows head refl in
      let (txns, sub2, (inner2, start2, size2)) = tuple_get_tuple-Shows t vs 2 shows list refl in
      rw
        (
          tuple_size-Shows t vs shows,
          tuple_get_type-branch t vs 0 shows head refl,
          tuple_get_type-leaf t vs 1 shows (binary b.signature) _ _ refl refl,
          tuple_get_type-branch t vs 2 shows list refl,
          sub0,
          ◌>>=◌,
          sub2,
          ◌>>=◌,
        )
        (is_content_valid-Shows header txns inner0 inner2)
