-- ===== src/Transaction/Read.antt =====
use whosecoin_core.Base.{
  ℕ, ◌^◌, ◌≤◌, ◌<◌, ◌≡◌, refl, sym, ap, ◌∙◌, true, false, Option, none, some, List, [], ◌++◌, arith,
  ltb, if◌then◌else◌, length, take-append, take_whole, replicate, append-nil, Run, ok, abort, ◌>>=◌,
  length-append,
}
use whosecoin_core.Buffer.{dynamic_buffer_create, contents}
use whosecoin_core.Buffer.Refines.{dynamic_buffer_create-Holds, contents-Holds}
use whosecoin_core.Crypto.{
  Crypto, crypto_sign_public_key_bytes, crypto_sign_bytes, crypto_generichash_bytes,
}
use whosecoin_core.Tuple.{Tuple, tuple_parse}
use whosecoin_core.Tuple.Values.{
  u32, u64, binary, nil, scalar, tuple, encode_scalar, encode_tuple, Shows,
}
use whosecoin_core.Tuple.RoundTrip.{tuple_parse-encode}
use whosecoin_core.Tuple.Readers.Agree.{
  tuple_size-Shows, tuple_get_u32-Shows, tuple_get_u64-Shows, tuple_get_binary-Shows,
  tuple_get_tuple-Shows, tuple_get_type-leaf, tuple_get_type-branch, tuple_get_type-past,
}
use whosecoin_core.Transaction.{
  Transaction, is_body_valid, transaction_is_valid, copy_view, transaction_write, verify,
  read_transaction, transaction_create, transaction_create_from_tuple,
}
use whosecoin_core.Transaction.Wire.{
  body_values, signed_values, IsSized, length-signed, rounds-signed, transaction_write-Appends,
  signed_values-Fits, hash_of, transaction_compute_hash-eq,
}

module _ (u : Tuple) (txn : Transaction) (h : IsSized txn)
    (shows : Shows u.elements (body_values txn)) where
  is_body_valid-Shows : is_body_valid u ≡ ok true
  unfolding is_body_valid encode_scalar
  is_body_valid-Shows =
      let vs = body_values txn in
      let (r0, b0) =
        tuple_get_binary-Shows u vs 0 shows txn.sender (omega (arith, h.sender_size)) refl in
      let (r1, b1) =
        tuple_get_binary-Shows u vs 1 shows txn.recipient (omega (arith, h.recipient_size)) refl in
      rw (
        tuple_get_type-leaf u vs 0 shows (binary txn.sender) _ _ refl refl,
        b0,
        ◌>>=◌,
        h.sender_size,
        tuple_get_type-leaf u vs 1 shows (binary txn.recipient) _ _ refl refl,
        b1,
        ◌>>=◌,
        h.recipient_size,
        tuple_get_type-leaf u vs 2 shows (u64 txn.value) _ _ refl refl,
        tuple_get_type-leaf u vs 3 shows (u32 txn.nonce) _ _ refl refl,
      )

pub copy_view-prefix :
    (s r : List ℕ) → copy_view (record { size = length s; start = s ++ r }) (length s) ≡ ok s
unfolding copy_view
copy_view-prefix s r =
    let there : ltb (length (s ++ r)) (length s) ≡ false = ground (arith, length-append s r) in
    rw there (ap ok (take-append s r))

pub copy_view-sized :
    (s r : List ℕ) (m n : ℕ)
    → length s ≡ n
    → copy_view (record { size = m; start = s ++ r }) n ≡ ok s
unfolding copy_view
copy_view-sized s r m n size = rw (← size) (copy_view-prefix s r)

-- The transaction with the fields that are read, before its hash and its signature.
abbrev blank : Transaction → Transaction
blank txn = record txn {
  signature = replicate crypto_sign_bytes 0;
  hash = replicate crypto_generichash_bytes 0;
}

blank-IsSized : (txn : Transaction) → IsSized txn → IsSized (blank txn)
blank-IsSized txn h = record {
  sender_size = h.sender_size;
  recipient_size = h.recipient_size;
  signature_size = refl;
  value_word = h.value_word;
  nonce_word = h.nonce_word;
}

module _ (crypto : Crypto) (t : Tuple) (txn : Transaction) (h : IsSized txn)
    (shows : Shows t.elements (signed_values txn)) where
  pub transaction_is_valid-Shows : transaction_is_valid t ≡ ok true
  unfolding transaction_is_valid encode_scalar
  transaction_is_valid-Shows =
      let vs = signed_values txn in
      let (r1, b1) =
        tuple_get_binary-Shows t vs 1 shows txn.signature (omega (arith, h.signature_size)) refl in
      let (u, sub, (inner, start, size)) =
        tuple_get_tuple-Shows t vs 0 shows (body_values txn) refl in
      rw
        (
          tuple_size-Shows t vs shows,
          tuple_get_type-branch t vs 0 shows (body_values txn) refl,
          tuple_get_type-leaf t vs 1 shows (binary txn.signature) _ _ refl refl,
          b1,
          ◌>>=◌,
          h.signature_size,
          sub,
          ◌>>=◌,
        )
        (is_body_valid-Shows u txn h inner)

  verify-hash :
      txn.hash ≡ hash_of crypto txn
      → verify crypto txn
        ≡ (if crypto.sign_verify_detached txn.signature txn.hash txn.sender then some txn else none)
  unfolding verify
  verify-hash hashed =
      let whole = take_whole 32 txn.hash (ap length hashed ∙ crypto.length-generichash _) in
      rw whole

  read_transaction-Shows :
      txn.hash ≡ hash_of crypto txn → read_transaction crypto t ≡ ok (verify crypto txn)
  unfolding read_transaction
  read_transaction-Shows hashed =
      let vs = signed_values txn in
      let body = body_values txn in
      let (r1, b1) =
        tuple_get_binary-Shows t vs 1 shows txn.signature (omega (arith, h.signature_size)) refl in
      let (u, sub, (inner, start, size)) = tuple_get_tuple-Shows t vs 0 shows body refl in
      let (s0, c0) =
        tuple_get_binary-Shows u body 0 inner txn.sender (omega (arith, h.sender_size)) refl in
      let (s1, c1) =
        tuple_get_binary-Shows u body 1 inner txn.recipient (omega (arith, h.recipient_size))
          refl in
      rw
        (
          sub,
          b1,
          c0,
          c1,
          tuple_get_u64-Shows u body 2 inner txn.value h.value_word refl,
          tuple_get_u32-Shows u body 3 inner txn.nonce h.nonce_word refl,
          copy_view-prefix txn.sender s0,
          copy_view-prefix txn.recipient s1,
          transaction_compute_hash-eq crypto (blank txn) (blank-IsSized txn h),
          copy_view-prefix txn.signature r1,
        )
        (λ i. ok (verify crypto (record txn { hash = sym hashed i })))

  -- A message that shows a transaction whose hash is that of its fields is accepted, as that
  -- transaction, exactly if its signature verifies.
  pub transaction_create_from_tuple-Shows :
      txn.hash ≡ hash_of crypto txn
      → transaction_create_from_tuple crypto t
        ≡ ok (
            if crypto.sign_verify_detached txn.signature txn.hash txn.sender
            then some txn
            else none)
  unfolding transaction_create_from_tuple
  transaction_create_from_tuple-Shows hashed =
      rw transaction_is_valid-Shows (read_transaction-Shows hashed ∙ ap ok (verify-hash hashed))

-- The body of a tuple with no elements: reading the type of its first stops at the assertion in
-- `list_get`, since the size of the inner tuple is not tested.
is_body_valid-empty : (u : Tuple) → Shows u.elements nil → is_body_valid u ≡ abort
unfolding is_body_valid
is_body_valid-empty u h = let e = tuple_get_type-past u nil 0 h refl in rw e

-- A message of the right outer form whose transaction has no fields stops the node.
pub transaction_create_from_tuple-aborts :
    (crypto : Crypto) (t : Tuple) (signature : List ℕ)
    → length signature ≡ crypto_sign_bytes
    → Shows t.elements (tuple nil (scalar (binary signature) nil))
    → transaction_create_from_tuple crypto t ≡ abort
unfolding transaction_create_from_tuple transaction_is_valid encode_scalar
transaction_create_from_tuple-aborts crypto t signature size shows =
    let vs = tuple nil (scalar (binary signature) nil) in
    let (r1, b1) = tuple_get_binary-Shows t vs 1 shows signature (omega arith) refl in
    let (u, sub, (inner, start, n)) = tuple_get_tuple-Shows t vs 0 shows nil refl in
    rw (
      tuple_size-Shows t vs shows,
      tuple_get_type-branch t vs 0 shows nil refl,
      tuple_get_type-leaf t vs 1 shows (binary signature) _ _ refl refl,
      b1,
      ◌>>=◌,
      size,
      sub,
      ◌>>=◌,
      is_body_valid-empty u inner,
    )

-- The sender creates and writes a transaction, and the receiver parses and reads the bytes.
abbrev pub send_receive : Crypto → ℕ → List ℕ → List ℕ → List ℕ → ℕ → ℕ → Run (Option Transaction)
send_receive crypto fuel pk sk recipient value nonce = do
  txn ← transaction_create crypto pk sk recipient value nonce
  buf ← transaction_write txn (dynamic_buffer_create 64)
  message ← contents buf
  found ← tuple_parse fuel message
  elim found [ none ↦ ok none | some t ↦ transaction_create_from_tuple crypto t ]

module _ (crypto : Crypto) (pk sk recipient : List ℕ) (value nonce : ℕ) where
  -- The transaction that `transaction_create` returns.
  abbrev pub created : Transaction
  created =
      let unsigned : Transaction = record {
        sender = pk;
        recipient = recipient;
        value = value;
        nonce = nonce;
        signature = replicate crypto_sign_bytes 0;
        hash = replicate crypto_generichash_bytes 0;
      } in
      let hash = hash_of crypto unsigned in
      record unsigned { hash = hash; signature = crypto.sign_detached hash sk }

  module _ (pk_size : length pk ≡ crypto_sign_public_key_bytes)
      (recipient_size : length recipient ≡ crypto_sign_public_key_bytes)
      (value_word : value < 2 ^ 64) (nonce_word : nonce < 2 ^ 32) where
    created-IsSized : IsSized created
    created-IsSized = record {
      sender_size = pk_size;
      recipient_size = recipient_size;
      signature_size = crypto.length-sign_detached _ sk;
      value_word = value_word;
      nonce_word = nonce_word;
    }

    pub transaction_create-eq : transaction_create crypto pk sk recipient value nonce ≡ ok created
    unfolding transaction_create
    transaction_create-eq =
        rw (
          transaction_compute_hash-eq crypto (blank created)
            (blank-IsSized created created-IsSized))

    -- A transaction that is created with a key pair, written to a fresh buffer, parsed by the
    -- receiver with fuel for at least 8 rounds and read from the message comes out unchanged, if the
    -- keys have 32 bytes and the value and the nonce are words of 64 and 32 bits.
    pub transaction_roundtrip :
        crypto.IsKeyPair pk sk
        → (fuel : ℕ) → 8 ≤ fuel
        → send_receive crypto fuel pk sk recipient value nonce ≡ ok (some created)
    transaction_roundtrip keys fuel enough =
        let sized = created-IsSized in
        let bytes = encode_tuple (signed_values created) in
        let (buf, written, held) =
          transaction_write-Appends created (dynamic_buffer_create 64) []
            (dynamic_buffer_create-Holds 64 (omega arith) (omega arith))
            (omega (arith, length-signed created sized)) in
        let (found, parsed, (t, is_t, shows, start, size)) =
          tuple_parse-encode (signed_values created) [] fuel (signed_values-Fits created sized)
            (rounds-signed fuel created enough) in
        let same : tuple_parse fuel bytes ≡ ok (some t) =
          ap (tuple_parse fuel) (sym (append-nil bytes)) ∙ parsed ∙ ap ok is_t in
        let verified = crypto.verify-sign created.hash pk sk keys in
        rw
          (
            transaction_create-eq,
            ◌>>=◌,
            written,
            ◌>>=◌,
            contents-Holds buf bytes held,
            ◌>>=◌,
            same,
            ◌>>=◌,
          )
          (transaction_create_from_tuple-Shows crypto t created sized shows refl ∙ (rw verified))
