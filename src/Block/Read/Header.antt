-- ===== src/Block/Read/Header.antt =====
-- The header of a message that shows a block is valid, and its fields are read back.
use whosecoin_core.Base.{
  ℕ, ◌%◌, ◌^◌, ◌<◌, ◌≡◌, refl, ap, true, Option, List, [], ◌++◌, arith, length, replicate, leb, ok,
  ◌>>=◌, append-nil,
}
use whosecoin_core.Crypto.{
  Crypto, crypto_generichash_bytes, crypto_sign_bytes, crypto_vrf_output_bytes,
}
use whosecoin_core.Tuple.{Tuple}
use whosecoin_core.Tuple.Values.{u32, u64, binary, encode_scalar, Shows}
use whosecoin_core.Tuple.Readers.{View}
use whosecoin_core.Tuple.Readers.Agree.{
  tuple_size-Shows, tuple_get_u32-Shows, tuple_get_u64-Shows, tuple_get_binary-Shows,
  tuple_get_type-leaf,
}
use whosecoin_core.Transaction.Read.{copy_view-prefix, copy_view-sized}
use whosecoin_core.Block.{Block, null}
use whosecoin_core.Block.Wire.Bytes.{header_values, IsHeaderSized}
use whosecoin_core.Block.Read.{is_header_valid, copy_signature, read_header}

-- The arrays have their C sizes, the numbers are words, and the transactions can be counted.
pub record IsBlockSized (prev_hash : List ℕ) (b : Block) : Type 0 where
  pub header_sized : IsHeaderSized b
  pub prev_hash_size : length prev_hash ≡ crypto_generichash_bytes
  pub signature_size : length b.signature ≡ crypto_sign_bytes
  pub timestamp_word : b.timestamp < 2 ^ 64
  pub delegate_word : b.delegate < 2 ^ 32
  pub count_word : length b.transactions < 2 ^ 32

-- The object after the fields of the message are copied.
abbrev pub copied : Block → Block
copied b = record b {
  transactions = [];
  hash = replicate crypto_generichash_bytes 0;
  sortition_seed = replicate crypto_generichash_bytes 0;
  sortition_hash = replicate crypto_vrf_output_bytes 0;
  sortition_priority = replicate crypto_generichash_bytes 0;
  height = 0;
  accounts = λ key. null;
}

module _ (prev_hash : List ℕ) (b : Block) (h : IsBlockSized prev_hash b) (header : Tuple)
    (shows : Shows header.elements (header_values prev_hash b)) where
  pub is_header_valid-Shows : is_header_valid header ≡ ok true
  unfolding is_header_valid encode_scalar
  is_header_valid-Shows =
      let vs = header_values prev_hash b in
      let sizes = h.header_sized in
      let (r1, b1) =
        tuple_get_binary-Shows header vs 1 shows prev_hash (omega (arith, h.prev_hash_size)) refl in
      let (r2, b2) =
        tuple_get_binary-Shows header vs 2 shows b.merkle_root
          (omega (arith, sizes.merkle_root_size)) refl in
      let (r3, b3) =
        tuple_get_binary-Shows header vs 3 shows b.public_key (omega (arith, sizes.public_key_size))
          refl in
      let (r4, b4) =
        tuple_get_binary-Shows header vs 4 shows b.sortition_proof
          (omega (arith, sizes.sortition_proof_size)) refl in
      let n = length b.transactions % 2 ^ 32 in
      rw (
        tuple_size-Shows header vs shows,
        tuple_get_type-leaf header vs 0 shows (u64 b.timestamp) _ _ refl refl,
        tuple_get_type-leaf header vs 1 shows (binary prev_hash) _ _ refl refl,
        b1,
        ◌>>=◌,
        h.prev_hash_size,
        tuple_get_type-leaf header vs 2 shows (binary b.merkle_root) _ _ refl refl,
        b2,
        ◌>>=◌,
        sizes.merkle_root_size,
        tuple_get_type-leaf header vs 3 shows (binary b.public_key) _ _ refl refl,
        b3,
        ◌>>=◌,
        sizes.public_key_size,
        tuple_get_type-leaf header vs 4 shows (binary b.sortition_proof) _ _ refl refl,
        b4,
        ◌>>=◌,
        sizes.sortition_proof_size,
        tuple_get_type-leaf header vs 5 shows (u32 b.delegate) _ _ refl refl,
        tuple_get_type-leaf header vs 6 shows (u32 n) _ _ refl refl,
      )

  pub copy_signature-prefix :
      (crypto : Crypto) (r : List ℕ)
      → copy_signature crypto (record { size = length b.signature; start = b.signature ++ r })
        ≡ ok b.signature
  unfolding copy_signature
  copy_signature-prefix crypto r =
      let fits : leb (length b.signature) 64 ≡ true = ground (arith, h.signature_size) in
      rw (fits, copy_signature, copy_view-prefix b.signature r, h.signature_size)
        (ap ok (append-nil b.signature))

  -- The fields that are copied out of the message are those of the block.
  pub read_header-Shows :
      (crypto : Crypto) (find : View → Option ℕ)
      → ((r : List ℕ)
          → find (record { size = crypto_generichash_bytes; start = prev_hash ++ r })
            ≡ b.prev_block)
      → (r : List ℕ)
      → read_header crypto find header
          (record { size = length b.signature; start = b.signature ++ r })
        ≡ ok (copied b)
  unfolding read_header
  read_header-Shows crypto find found r =
      let vs = header_values prev_hash b in
      let sizes = h.header_sized in
      let (r1, b1) =
        tuple_get_binary-Shows header vs 1 shows prev_hash (omega (arith, h.prev_hash_size)) refl in
      let (r2, b2) =
        tuple_get_binary-Shows header vs 2 shows b.merkle_root
          (omega (arith, sizes.merkle_root_size)) refl in
      let (r3, b3) =
        tuple_get_binary-Shows header vs 3 shows b.public_key (omega (arith, sizes.public_key_size))
          refl in
      let (r4, b4) =
        tuple_get_binary-Shows header vs 4 shows b.sortition_proof
          (omega (arith, sizes.sortition_proof_size)) refl in
      rw
        (
          tuple_get_u64-Shows header vs 0 shows b.timestamp h.timestamp_word refl,
          b1,
          ◌>>=◌,
          b2,
          ◌>>=◌,
          b3,
          ◌>>=◌,
          b4,
          ◌>>=◌,
          tuple_get_u32-Shows header vs 5 shows b.delegate h.delegate_word refl,
          ◌>>=◌,
          copy_view-sized b.merkle_root r2 (length b.merkle_root) 32 sizes.merkle_root_size,
          copy_view-sized b.public_key r3 (length b.public_key) 32 sizes.public_key_size,
          copy_view-sized b.sortition_proof r4 (length b.sortition_proof) 80
              sizes.sortition_proof_size,
          copy_signature-prefix crypto r,
          h.prev_hash_size,
        )
        (ap (λ p. ok (record (copied b) { prev_block = p })) (found r1))
