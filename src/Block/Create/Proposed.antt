-- ===== src/Block/Create/Proposed.antt =====
-- A block that block.c's block_create returns is proposed by the rules.
use whosecoin_core.Base.{
  ℕ, ◌+◌, ◌%◌, ◌^◌, ◌<◌, ◌==◌, ◌≡◌, refl, sym, ap, ◌∙◌, subst, true, false, Option, some, List,
  arith, length, replicate, take_whole, ok, ◌>>=◌, >>=-ok, passed, failed, kept,
}
use whosecoin_core.Crypto.{
  Crypto, crypto_generichash_bytes, crypto_sign_bytes, crypto_vrf_public_key_bytes,
  crypto_vrf_proof_bytes, crypto_vrf_output_bytes,
}
use whosecoin_core.Tuple.Values.{encode_tuple}
use whosecoin_core.Transaction.{Transaction}
use whosecoin_core.Block.{
  Account, null, Accounts, Block, Store, block_get_hash, block_get_height, block_get_account,
  is_staking_allowed,
}
use whosecoin_core.Block.Accounts.{are_transactions_valid}
use whosecoin_core.Block.Merkle.{merkle_root_from_list}
use whosecoin_core.Block.Merkle.Width.{length-merkle_root}
use whosecoin_core.Block.Create.Delegates.{count_delegates-word, is_delegate_valid-counted}
use whosecoin_core.Block.Wire.{block_compute_seed}
use whosecoin_core.Block.Wire.Bytes.{header_values, IsHeaderSized, block_compute_hash-eq}
use whosecoin_core.Block.Wire.Seed.{block_compute_seed-same}
use whosecoin_core.Block.Create.{
  count_delegates, finish_block, start_block, enter_sortition, block_create,
}
use whosecoin_core.Block.Create.Sortition.{enter_sortition-IsBest}
use whosecoin_core.Block.Read.Stages.{block_compute_seed-ok}
use whosecoin_core.Block.Read.Listed.{AreHashed}
use whosecoin_core.Block.Read.Header.{IsBlockSized}
use whosecoin_core.Block.Read.Proposed.{IsProposed}

positive : (n : ℕ) → (n == 0) ≡ false → 0 < n
positive n h = ground arith

module _ (crypto : Crypto) where
  module _ (st : Store) (now : ℕ) (pk : List ℕ) (prev : Option ℕ) (txns : List Transaction) where
    -- The object with its header, up to the seed.
    abbrev started : List ℕ → List ℕ → Block
    started root seed = record {
      timestamp = now;
      prev_block = prev;
      merkle_root = root;
      public_key = pk;
      sortition_proof = replicate 80 0;
      signature = replicate crypto_sign_bytes 0;
      delegate = 0;
      transactions = txns;
      hash = replicate crypto_generichash_bytes 0;
      sortition_seed = seed;
      sortition_hash = replicate crypto_vrf_output_bytes 0;
      sortition_priority = replicate crypto_generichash_bytes 0;
      height = 0;
      accounts = λ key. null;
    }

    start_block-ok :
        (s : Block)
        → start_block crypto st now pk prev txns ≡ ok s
        → (root : List ℕ) × (seed : List ℕ) × (merkle_root_from_list crypto txns ≡ ok root)
          × (s ≡ started root seed)
          × (block_compute_seed crypto st (started root (replicate crypto_generichash_bytes 0))
              ≡ ok (started root seed))
    unfolding start_block
    start_block-ok s run =
        let (root, there, rest) = >>=-ok (merkle_root_from_list crypto txns) _ run in
        let (seed, same) =
          block_compute_seed-ok crypto st (started root (replicate crypto_generichash_bytes 0))
            rest in
        (root, seed, there, same, rest ∙ ap ok same)

  module _ (st : Store) (fuel self : ℕ) (sk prev_hash : List ℕ) (d : Block)
      (prev : block_get_hash st d.prev_block ≡ ok prev_hash)
      (prev_size : length prev_hash ≡ crypto_generichash_bytes) (sized : IsHeaderSized d) where
    -- The block with its hash, its signature and its height.
    abbrev finished : ℕ → Block
    finished height =
        let hash = crypto.generichash (encode_tuple (header_values prev_hash d)) in
        record d { hash = hash; signature = crypto.sign_detached hash sk; height = height }

    finish_block-ok :
        (b : Block)
        → finish_block crypto st fuel self sk d ≡ ok (some b)
        → (height : ℕ) × (accounts : Accounts) × ((block_get_height st d.prev_block >>= λ height.
              ok ((1 + height) % 2 ^ 32))
            ≡ ok height)
          × (are_transactions_valid st fuel self (finished height) ≡ ok (true, accounts))
          × (b ≡ record (finished height) { accounts = accounts })
    unfolding finish_block
    finish_block-ok b run =
        let hash = block_compute_hash-eq crypto st d prev_hash prev prev_size sized in
        let e0 = rw (hash, ◌>>=◌) at run in
        let (above, r1, e1) = >>=-ok (block_get_height st d.prev_block) _ e0 in
        let height = (1 + above) % 2 ^ 32 in
        let (r, r2, e2) = >>=-ok (are_transactions_valid st fuel self (finished height)) _ e1 in
        let (valid, same) = kept r.0 _ e2 in
        let accounts : Accounts = r.1 in
        (height, accounts, rw r1, r2 ∙ ap (λ v. ok (v, accounts)) valid, same)

  module _ (st : Store) (fuel self now : ℕ) (pk sk : List ℕ) (keys : crypto.IsKeyPair pk sk)
      (pk_size : length pk ≡ crypto_vrf_public_key_bytes)
      (proof_size : (m : List ℕ) → length (crypto.vrf_prove sk m) ≡ crypto_vrf_proof_bytes)
      (prev : Option ℕ) (prev_hash : List ℕ) (there : block_get_hash st prev ≡ ok prev_hash)
      (prev_size : length prev_hash ≡ crypto_generichash_bytes) (txns : List Transaction)
      (hashed : AreHashed crypto txns) where
    entered-IsHeaderSized :
        (root seed : List ℕ) (n : ℕ)
        → merkle_root_from_list crypto txns ≡ ok root
        → IsHeaderSized (enter_sortition crypto sk n (started st now pk prev txns root seed))
    unfolding enter_sortition
    entered-IsHeaderSized root seed n rooted = record {
      merkle_root_size = length-merkle_root crypto txns root hashed rooted;
      public_key_size = pk_size;
      sortition_proof_size = proof_size seed;
    }

    module _ (found : Account) (n : ℕ) (root seed : List ℕ)
        (rooted : merkle_root_from_list crypto txns ≡ ok root)
        (seeding : block_compute_seed crypto st
            (started st now pk prev txns root (replicate crypto_generichash_bytes 0))
          ≡ ok (started st now pk prev txns root seed))
        (some_delegate : 0 < n) (allowed : is_staking_allowed st fuel prev pk ≡ ok true)
        (at : block_get_account st fuel prev pk ≡ ok found)
        (counted : count_delegates prev found ≡ ok n) where
      abbrev entered : Block
      entered = enter_sortition crypto sk n (started st now pk prev txns root seed)

      abbrev completed : ℕ → Accounts → Block
      completed height accounts =
          let hash = crypto.generichash (encode_tuple (header_values prev_hash entered)) in
          record entered {
            hash = hash;
            signature = crypto.sign_detached hash sk;
            height = height;
            accounts = accounts;
          }

      completed-IsProposed :
          (height : ℕ) (accounts : Accounts)
          → (block_get_height st prev >>= λ above. ok ((1 + above) % 2 ^ 32)) ≡ ok height
          → are_transactions_valid st fuel self (completed height (λ key. null))
            ≡ ok (true, accounts)
          → IsProposed crypto st fuel self prev_hash (completed height accounts)
      unfolding enter_sortition
      completed-IsProposed height accounts placed built =
          let best =
            enter_sortition-IsBest crypto sk n (started st now pk prev txns root seed)
              some_delegate in
          let hash = crypto.generichash (encode_tuple (header_values prev_hash entered)) in
          record {
            prev = there;
            root = rooted;
            allowed = allowed;
            seeded =
                block_compute_seed-same crypto st
                  (started st now pk prev txns root (replicate crypto_generichash_bytes 0))
                  (completed height accounts) (started st now pk prev txns root seed) refl seeding;
            drawn = crypto.vrf_verify-prove seed pk sk keys;
            priority = best.own;
            delegated =
                is_delegate_valid-counted crypto st fuel (completed height accounts) prev found n at
                  counted best.counted;
            placed = placed;
            hashed = refl;
            signed =
                ap (λ m. crypto.sign_verify_detached (crypto.sign_detached hash sk) m pk)
                  (take_whole 32 hash (crypto.length-generichash _))
                ∙ crypto.verify-sign hash pk sk keys;
            built = built;
          }

      completed-IsBlockSized :
          (height : ℕ) (accounts : Accounts)
          → now < 2 ^ 64
          → length txns < 2 ^ 32
          → IsBlockSized prev_hash (completed height accounts)
      unfolding enter_sortition
      completed-IsBlockSized height accounts time few =
          let best =
            enter_sortition-IsBest crypto sk n (started st now pk prev txns root seed)
              some_delegate in
          let sized = entered-IsHeaderSized root seed n rooted in
          let word = count_delegates-word prev found n counted in
          record {
            header_sized = record {
              merkle_root_size = sized.merkle_root_size;
              public_key_size = sized.public_key_size;
              sortition_proof_size = sized.sortition_proof_size;
            };
            prev_hash_size = prev_size;
            signature_size = crypto.length-sign_detached _ sk;
            timestamp_word = time;
            delegate_word = omega (arith, best.counted, word);
            count_word = few;
          }

      finish_block-IsProposed :
          (b : Block)
          → now < 2 ^ 64
          → length txns < 2 ^ 32
          → finish_block crypto st fuel self sk entered ≡ ok (some b)
          → IsProposed crypto st fuel self prev_hash b
            × IsBlockSized prev_hash b
            × (b.transactions ≡ txns)
      unfolding enter_sortition
      finish_block-IsProposed b time few run =
          let sized = entered-IsHeaderSized root seed n rooted in
          let (height, accounts, placed, built, whole) =
            finish_block-ok st fuel self sk prev_hash entered there prev_size sized b run in
          subst
            (λ (b : Block).
              IsProposed crypto st fuel self prev_hash b
              × IsBlockSized prev_hash b
              × (b.transactions ≡ txns))
            (sym whole)
            (
              completed-IsProposed height accounts placed built,
              completed-IsBlockSized height accounts time few,
              refl,
            )

    -- A block that `block_create` returns for a key pair is proposed by the rules on its previous
    -- block, its fields have their C sizes, and its transactions are those that were given.
    pub block_create-IsProposed :
        (b : Block)
        → now < 2 ^ 64
        → length txns < 2 ^ 32
        → block_create crypto st fuel self now pk sk prev txns ≡ ok (some b)
        → IsProposed crypto st fuel self prev_hash b
          × IsBlockSized prev_hash b
          × (b.transactions ≡ txns)
    unfolding block_create
    block_create-IsProposed b time few run =
        let (allowed, r0, e0) = >>=-ok (is_staking_allowed st fuel prev pk) _ run in
        let (is_allowed, e1) = passed allowed _ e0 in
        let (s, r1, e2) = >>=-ok (start_block crypto st now pk prev txns) _ e1 in
        let (found, r2, e3) = >>=-ok (block_get_account st fuel prev pk) _ e2 in
        let (n, r3, e4) = >>=-ok (count_delegates prev found) _ e3 in
        let (some_delegate, e5) = failed (n == 0) _ e4 in
        let (root, seed, rooted, same, seeding) = start_block-ok st now pk prev txns s r1 in
        let finishes =
          subst
            (λ x. finish_block crypto st fuel self sk (enter_sortition crypto sk n x) ≡ ok (some b))
            same e5 in
        finish_block-IsProposed found n root seed rooted seeding (positive n some_delegate)
          (r0 ∙ ap ok is_allowed) r2 r3 b time few finishes
