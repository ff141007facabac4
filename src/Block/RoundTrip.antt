-- ===== src/Block/RoundTrip.antt =====
-- A block that a node creates and writes is the block that another node reads.
use whosecoin_core.Base.{
  ℕ, ◌+◌, ◌*◌, ◌%◌, ◌^◌, ◌≤◌, ◌<◌, ◌≡◌, sym, ap, ◌∙◌, subst, Option, none, some, List, [], ◌∷◌,
  ◌++◌, arith, append-nil, length, Run, ok, ◌>>=◌,
}
use whosecoin_core.Buffer.{dynamic_buffer_create, contents}
use whosecoin_core.Buffer.Refines.{dynamic_buffer_create-Holds, contents-Holds}
use whosecoin_core.Crypto.{
  Crypto, crypto_generichash_bytes, crypto_vrf_public_key_bytes, crypto_vrf_proof_bytes,
}
use whosecoin_core.Tuple.{tuple_parse}
use whosecoin_core.Tuple.Values.{encode_tuple, Fits}
use whosecoin_core.Tuple.RoundTrip.{tuple_parse-encode}
use whosecoin_core.Tuple.Readers.{View}
use whosecoin_core.Transaction.{Transaction}
use whosecoin_core.Block.{Block, Store, block_get_hash}
use whosecoin_core.Block.Wire.{block_write}
use whosecoin_core.Block.Wire.Bytes.{block_values, block_write-Appends}
use whosecoin_core.Block.Wire.Size.{AreSized, length-block, rounds-block, transaction_list-Fits}
use whosecoin_core.Block.Create.{block_create}
use whosecoin_core.Block.Create.Placed.{block_create-prev}
use whosecoin_core.Block.Create.Proposed.{block_create-IsProposed}
use whosecoin_core.Block.Read.{block_create_from_tuple}
use whosecoin_core.Block.Read.Signed.{AreSigned}
use whosecoin_core.Block.Read.Listed.{AreHashed}
use whosecoin_core.Block.Read.Header.{IsBlockSized}
use whosecoin_core.Block.Read.Proposed.{IsProposed, block_create_from_tuple-Shows}

-- The block is written, and the bytes are parsed and read.
abbrev pub send_receive_block :
    Crypto → Store → ℕ → ℕ → (View → Option ℕ) → ℕ → Block → Run (Option Block)
send_receive_block crypto st fuel self find steps b = do
  buf ← block_write st b (dynamic_buffer_create 64)
  message ← contents buf
  found ← tuple_parse steps message
  elim found [ none ↦ ok none | some t ↦ block_create_from_tuple crypto st fuel self find t ]

AreHashed-AreSized :
    (crypto : Crypto) (txns : List Transaction) → AreHashed crypto txns → AreSized txns
AreHashed-AreSized crypto [] h = tt
AreHashed-AreSized crypto (txn ∷ txns) h = (h.0.0, AreHashed-AreSized crypto txns h.1)

pub block_values-Fits :
    (prev_hash : List ℕ) (b : Block)
    → IsBlockSized prev_hash b
    → AreSized b.transactions
    → Fits (block_values prev_hash b)
block_values-Fits prev_hash b h sized =
    let sizes = h.header_sized in
    let root : length b.merkle_root < 2 ^ 32 = omega (arith, sizes.merkle_root_size) in
    let key : length b.public_key < 2 ^ 32 = omega (arith, sizes.public_key_size) in
    let proof : length b.sortition_proof < 2 ^ 32 = omega (arith, sizes.sortition_proof_size) in
    let counted : length b.transactions % 2 ^ 32 < 2 ^ 32 = omega arith in
    let prev : length prev_hash < 2 ^ 32 = omega (arith, h.prev_hash_size) in
    let signed : length b.signature < 2 ^ 32 = omega (arith, h.signature_size) in
    (
      (h.timestamp_word, (prev, (root, (key, (proof, (h.delegate_word, (counted, tt))))))),
      (signed, (transaction_list-Fits b.transactions sized, tt)),
    )

module _ (crypto : Crypto) (st : Store) (fuel self : ℕ) (find : View → Option ℕ) (steps : ℕ) where
  -- A block that is proposed by the rules is read as it was written, if the reader finds the
  -- previous block by its hash and its transactions are signed, at most 13 million.
  send_receive_block-IsProposed :
      (prev_hash : List ℕ) (b : Block)
      → IsProposed crypto st fuel self prev_hash b
      → IsBlockSized prev_hash b
      → AreHashed crypto b.transactions
      → AreSigned crypto b.transactions
      → length b.transactions ≤ 13000000
      → 9 * length b.transactions + 13 ≤ steps
      → ((r : List ℕ)
          → find (record { size = crypto_generichash_bytes; start = prev_hash ++ r })
            ≡ b.prev_block)
      → send_receive_block crypto st fuel self find steps b ≡ ok (some b)
  send_receive_block-IsProposed prev_hash b h sized hashed signed few enough found =
      let vs = block_values prev_hash b in
      let bytes = encode_tuple vs in
      let each = AreHashed-AreSized crypto b.transactions hashed in
      let size =
        length-block b prev_hash sized.prev_hash_size sized.header_sized sized.signature_size
          each in
      let (buf, written, held) =
        block_write-Appends st b prev_hash h.prev (dynamic_buffer_create 64) []
          (dynamic_buffer_create-Holds 64 (omega arith) (omega arith)) (omega arith) in
      let (read, parsed, (t, is_t, shows, start, long)) =
        tuple_parse-encode vs [] steps (block_values-Fits prev_hash b sized each)
          (omega (arith, rounds-block b prev_hash)) in
      let same : tuple_parse steps bytes ≡ ok (some t) =
        ap (tuple_parse steps) (sym (append-nil bytes)) ∙ parsed ∙ ap ok is_t in
      rw (written, ◌>>=◌, contents-Holds buf bytes held, ◌>>=◌, same, ◌>>=◌)
        (block_create_from_tuple-Shows crypto st fuel self prev_hash b find t sized h hashed signed
          found shows)

  -- A block that a node creates with a key pair, of signed transactions of their C sizes, at most
  -- 13 million, on a previous block with a hash of 32 bytes, and writes, is parsed and accepted
  -- unchanged by a node in the same state, if the proofs have 80 bytes, the clock is a 64-bit word,
  -- and the reader finds the previous block by its hash and parses with fuel for 9 rounds for each
  -- transaction and 13 more.
  pub block_roundtrip :
      (now : ℕ) (pk sk : List ℕ) (prev : Option ℕ) (prev_hash : List ℕ) (txns : List Transaction)
      (b : Block)
      → crypto.IsKeyPair pk sk
      → length pk ≡ crypto_vrf_public_key_bytes
      → ((m : List ℕ) → length (crypto.vrf_prove sk m) ≡ crypto_vrf_proof_bytes)
      → block_get_hash st prev ≡ ok prev_hash
      → length prev_hash ≡ crypto_generichash_bytes
      → AreHashed crypto txns
      → AreSigned crypto txns
      → now < 2 ^ 64
      → length txns ≤ 13000000
      → 9 * length txns + 13 ≤ steps
      → ((r : List ℕ)
          → find (record { size = crypto_generichash_bytes; start = prev_hash ++ r }) ≡ prev)
      → block_create crypto st fuel self now pk sk prev txns ≡ ok (some b)
      → send_receive_block crypto st fuel self find steps b ≡ ok (some b)
  block_roundtrip now pk sk prev prev_hash txns b keys pk_size proof_size there prev_size hashed
        signed time few enough found run =
      let (h, sized, carried) =
        block_create-IsProposed crypto st fuel self now pk sk keys pk_size proof_size prev prev_hash
          there prev_size txns hashed b time (omega arith) run in
      let on = block_create-prev crypto st fuel self now pk sk prev txns b run in
      send_receive_block-IsProposed prev_hash b h sized
        (subst (AreHashed crypto) (sym carried) hashed)
        (subst (AreSigned crypto) (sym carried) signed)
        (subst (λ ts. length ts ≤ 13000000) (sym carried) few)
        (subst (λ ts. 9 * length ts + 13 ≤ steps) (sym carried) enough) (λ r. found r ∙ sym on)
