-- ===== src/Block/Read/Accepted.antt =====
-- What holds of every block that is accepted when it is read.
use whosecoin_core.Base.{
  ℕ, ◌+◌, ◌%◌, ◌^◌, ◌≡◌, refl, sym, ap, ◌∙◌, subst, true, Option, some, List, map, length, take, ok,
  >>=-ok, passed, kept, is_there,
}
use whosecoin_core.Buffer.{Buffer, dynamic_buffer_create, contents}
use whosecoin_core.Crypto.{Crypto, crypto_sign_public_key_bytes}
use whosecoin_core.Tuple.{Tuple}
use whosecoin_core.Tuple.Readers.{View, tuple_get_binary, tuple_get_tuple, tuple_size}
use whosecoin_core.Transaction.{Transaction}
use whosecoin_core.Block.{null, Block, Store, is_staking_allowed, block_get_height}
use whosecoin_core.Block.Accounts.{are_transactions_valid}
use whosecoin_core.Block.Wire.{write_header, compute_hash, block_compute_seed}
use whosecoin_core.Block.Create.{delegate_priority}
use whosecoin_core.Block.Read.{
  block_is_valid, read_header, is_delegate_valid, read_transactions, all_present, verify_block,
  accept_block, draw_block, verify_sortition, block_create_from_tuple,
}
use whosecoin_core.Block.Read.Signed.{AreSigned, all_present-AreSigned}
use whosecoin_core.Block.Read.Drawn.{
  IsSeeded, IsDelegate, IsFound, block_compute_seed-IsSeeded, is_delegate_valid-IsDelegate,
  read_header-IsFound,
}
use whosecoin_core.Block.Read.Stages.{
  verify_sortition-some, all_present-map, length-present, compute_hash-IsHashed,
}

module _ (crypto : Crypto) where
  module _ (st : Store) (fuel : ℕ) (find : View → Option ℕ) (t : Tuple) where
    abbrev IsPlaced : Block → Type 0
    IsPlaced b =
        IsFound crypto find t b.prev_block b.merkle_root
        × (is_staking_allowed st fuel b.prev_block b.public_key ≡ ok true)

    -- The block stands where the message says and has the root of the transactions that came with
    -- it, the key may propose there, and has drawn the priority, from the seed of that place, for a
    -- delegate that it has.
    abbrev pub IsDrawn : Block → Type 0
    IsDrawn b =
        IsPlaced b
        × IsSeeded crypto st b.prev_block b.sortition_seed
        × (crypto.vrf_verify b.public_key b.sortition_proof b.sortition_seed
            ≡ some b.sortition_hash)
        × (b.sortition_priority ≡ delegate_priority crypto b.sortition_hash b.delegate)
        × IsDelegate st fuel b.prev_block b.public_key b.delegate

    -- The height is one more than that of the previous block.
    abbrev pub IsHigher : Block → Type 0
    IsHigher b =
        (height : ℕ) × (block_get_height st b.prev_block ≡ ok height)
        × (b.height ≡ (1 + height) % 2 ^ 32)

    -- The hash is that of the bytes of the header with the number of transactions.
    abbrev pub IsHashed : ℕ → Block → Type 0
    IsHashed n b =
        (buf : Buffer) × (bytes : List ℕ) × (write_header st b n (dynamic_buffer_create 256)
          ≡ ok buf)
        × (contents buf ≡ ok bytes)
        × (b.hash ≡ crypto.generichash bytes)

    -- Besides, the height and the hash are those of the block, the key has signed the hash, the
    -- transactions are those of the message, each with a signature of its sender, and the accounts
    -- are built from them at the address `self`.
    pub record IsAccepted (self : ℕ) (b : Block) : Type 0 where
      pub drawn : IsDrawn b
      pub placed : IsHigher b
      pub hashed : IsHashed (length b.transactions) b
      pub signed :
          crypto.sign_verify_detached b.signature
            (take crypto_sign_public_key_bytes b.hash)
            b.public_key
          ≡ true
      pub received :
          (txns : Tuple) × (tuple_get_tuple t 2 ≡ ok txns)
          × (read_transactions crypto txns (tuple_size txns) 0 ≡ ok (map some b.transactions))
      pub senders_signed : AreSigned crypto b.transactions
      pub built :
          are_transactions_valid st fuel self (record b { accounts = λ key. null })
          ≡ ok (true, b.accounts)

    -- The object before the accounts are built.
    abbrev IsFresh : ℕ → Block → Type 0
    IsFresh n b = IsDrawn b × IsHigher b × IsHashed n b × (b.accounts ≡ λ key. null)

    module _ (self : ℕ) (tuples : Tuple) (there : tuple_get_tuple t 2 ≡ ok tuples)
        (txns : List (Option Transaction))
        (read : read_transactions crypto tuples (tuple_size tuples) 0 ≡ ok txns) where
      verify_block-IsAccepted :
          (hashed b : Block)
          → verify_block crypto st fuel self txns hashed ≡ ok (some b)
          → IsFresh (length txns) hashed
          → IsAccepted self b
      unfolding verify_block write_header
      verify_block-IsAccepted hashed b run (drawn, higher, hash, fresh) =
          let message = take crypto_sign_public_key_bytes hashed.hash in
          let (verifies, e0) =
            passed (crypto.sign_verify_detached hashed.signature message hashed.public_key) _ run in
          let (present, all, e1) = >>=-ok (all_present crypto txns) _ e0 in
          let whole = record hashed { transactions = present } in
          let (r, built, e2) = >>=-ok (are_transactions_valid st fuel self whole) _ e1 in
          let (valid, e3) = kept r.0 _ e2 in
          let same = all_present-map crypto txns present all in
          let counted : length txns ≡ length present =
            ap length same ∙ length-present crypto present in
          let started : are_transactions_valid st fuel self
                (record whole { accounts = λ key. null })
              ≡ ok r =
            subst (λ a. are_transactions_valid st fuel self (record whole { accounts = a }) ≡ ok r)
              fresh built in
          subst (IsAccepted self) (sym e3) (record {
            drawn = drawn;
            placed = higher;
            hashed = subst (λ n. IsHashed n hashed) counted hash;
            signed = verifies;
            received = (tuples, there, read ∙ ap ok same);
            senders_signed =
                all_present-AreSigned crypto tuples (tuple_size tuples) 0 txns present read all;
            built = started ∙ ap (λ v. ok (v, r.1)) valid;
          })

      accept_block-IsAccepted :
          (drawn b : Block)
          → accept_block crypto st fuel self drawn txns ≡ ok (some b)
          → IsDrawn drawn
          → (drawn.accounts ≡ λ key. null)
          → IsAccepted self b
      unfolding accept_block write_header
      accept_block-IsAccepted drawn b run d fresh =
          let (height, r0, e0) = >>=-ok (block_get_height st drawn.prev_block) _ run in
          let placed : Block = record drawn { height = (1 + height) % 2 ^ 32 } in
          let (hashed, r1, e1) = >>=-ok (compute_hash crypto st placed (length txns)) _ e0 in
          let (x, eq, hash) = compute_hash-IsHashed crypto st placed (length txns) r1 in
          verify_block-IsAccepted hashed b e1
            (subst (IsFresh (length txns)) (sym eq) (d, (height, r0, refl), hash, fresh))

    draw_block-IsAccepted :
        (self : ℕ) (txns : Tuple) (block b : Block)
        → tuple_get_tuple t 2 ≡ ok txns
        → draw_block crypto st fuel self txns block ≡ ok (some b)
        → IsPlaced block
        → (block.accounts ≡ λ key. null)
        → IsAccepted self b
    unfolding draw_block
    draw_block-IsAccepted self txns block b there run placed fresh =
        let (seeded, r0, e0) = >>=-ok (block_compute_seed crypto st block) _ run in
        let (x, eq, from_previous) = block_compute_seed-IsSeeded crypto st block r0 in
        let (drawn, r1, e1) = is_there (verify_sortition crypto seeded) _ e0 in
        let (output, verifies, at) = verify_sortition-some crypto seeded r1 in
        let (valid, r2, e2) = >>=-ok (is_delegate_valid crypto st fuel drawn) _ e1 in
        let (is_valid, e3) = passed valid _ e2 in
        let (found, r3, e4) = >>=-ok (read_transactions crypto txns (tuple_size txns) 0) _ e3 in
        let below = is_delegate_valid-IsDelegate crypto st fuel drawn (r2 ∙ ap ok is_valid) in
        let (met, fit, none_yet) : IsPlaced seeded
            × IsSeeded crypto st seeded.prev_block seeded.sortition_seed
            × (seeded.accounts ≡ λ key. null) =
          subst
            (λ (s : Block).
              IsPlaced s
              × IsSeeded crypto st s.prev_block s.sortition_seed
              × (s.accounts ≡ λ key. null))
            (sym eq) (placed, from_previous, fresh) in
        let (where_drawn, still) : (IsDelegate st fuel drawn.prev_block drawn.public_key
                drawn.delegate
              → IsDrawn drawn)
            × (drawn.accounts ≡ λ key. null) =
          subst
            (λ (d : Block).
              (IsDelegate st fuel d.prev_block d.public_key d.delegate → IsDrawn d)
              × (d.accounts ≡ λ key. null))
            (sym at) ((λ own. (met, fit, verifies, refl, own)), none_yet) in
        accept_block-IsAccepted self txns there found r3 drawn b e4 (where_drawn below) still

    -- Every block that is returned for a message
    -- stands on what `find` gives for the hash in the message, which may be NULL,
    -- has the Merkle root of the transactions of the message, and exactly these, each with a signature
    -- that verifies under its sender; its key may stake there, and has drawn its priority from the
    -- seed of that place, for a delegate below those that it has if it has an account; its height,
    -- hash and accounts are those of this place, and its signature of the hash verifies.
    pub block_create_from_tuple-IsAccepted :
        (self : ℕ) (b : Block)
        → block_create_from_tuple crypto st fuel self find t ≡ ok (some b)
        → IsAccepted self b
    unfolding block_create_from_tuple
    block_create_from_tuple-IsAccepted self b run =
        let (valid, r0, e0) = >>=-ok (block_is_valid crypto t) _ run in
        let (is_valid, e1) = passed valid _ e0 in
        let (header, r1, e2) = >>=-ok (tuple_get_tuple t 0) _ e1 in
        let (signature, r2, e3) = >>=-ok (tuple_get_binary t 1) _ e2 in
        let (txns, r3, e4) = >>=-ok (tuple_get_tuple t 2) _ e3 in
        let (block, r4, e5) = >>=-ok (read_header crypto find header signature) _ e4 in
        let (allowed, r5, e6) =
          >>=-ok (is_staking_allowed st fuel block.prev_block block.public_key) _ e5 in
        let (is_allowed, e7) = passed allowed _ e6 in
        let (found, fresh) =
          read_header-IsFound crypto find t header signature (r0 ∙ ap ok is_valid) r1 r4 in
        draw_block-IsAccepted self txns block b r3 e7 (found, r5 ∙ ap ok is_allowed) fresh
