-- ===== src/Block/Read/Drawn.antt =====
-- What the checks of a block that is read have established where they pass: its place, its seed, its
-- delegate, and the Merkle root of its transactions.
use whosecoin_core.Base.{
  ℕ, ◌+◌, ◌%◌, ◌^◌, ◌<◌, ◌≡◌, refl, sym, ap, ◌∙◌, subst, arith, Bool, true, false, Option, none,
  some, List, ◌++◌, replicate, is_zero, ltb, ◌==◌, if◌then◌else◌, Run, ok, ◌>>=◌, >>=-ok,
  ok-injective,
}
use whosecoin_core.Bytes.{memcmp}
use whosecoin_core.Crypto.{
  Crypto, crypto_generichash_bytes, crypto_vrf_public_key_bytes, crypto_vrf_proof_bytes,
}
use whosecoin_core.Tuple.{Tuple, tuple_start, tuple_binary}
use whosecoin_core.Tuple.Readers.{
  View, tuple_size, tuple_get_type, tuple_get_binary, tuple_get_tuple, tuple_get_u64, tuple_get_u32,
}
use whosecoin_core.Transaction.{require_type, copy_view}
use whosecoin_core.Block.{
  null, account, Account, Block, Store, deref, block_get_account, account_get_delegates,
}
use whosecoin_core.Block.Wire.{block_compute_seed}
use whosecoin_core.Block.Read.{
  copy_signature, is_header_valid, are_tuples_valid, merkle_root_from_tuple, is_content_valid,
  block_is_valid, read_header, is_delegate_valid,
}

required :
    (test : Bool) (k : Run Bool)
    → (if test then k else ok false) ≡ ok true
    → (test ≡ true) × (k ≡ ok true)
required true k e = (refl, e)
required false k e = absurd cc

checked :
    (test : Bool) (k : Run Bool)
    → (elim test [ false ↦ ok false | true ↦ k ]) ≡ ok true
    → k ≡ ok true
checked true k e = e
checked false k e = absurd cc

require_type-passed :
    (t : Tuple) (i tag : ℕ) (rest : Run Bool) → require_type t i tag rest ≡ ok true → rest ≡ ok true
require_type-passed t i tag rest run =
    let (c, there, e) = >>=-ok (tuple_get_type t i) _ run in (required (c == tag) rest e).1

-- The seed is the hash of the seed and the key of the previous block, or of as many zero bytes.
abbrev pub IsSeeded : Crypto → Store → Option ℕ → List ℕ → Type 0
IsSeeded crypto st none seed =
    seed ≡ crypto.generichash (replicate (crypto_generichash_bytes + crypto_vrf_public_key_bytes) 0)
IsSeeded crypto st (some a) seed =
    (prev : Block) × (deref st a ≡ ok prev)
    × (seed ≡ crypto.generichash (prev.sortition_seed ++ prev.public_key))

-- The number is below the delegates of the account that was found, if there is one.
abbrev pub IsBelow : Account → ℕ → Type 0
IsBelow null delegate = Unit
IsBelow (account value older at) delegate =
    (n : ℕ) × (account_get_delegates (account value older at) ≡ ok n) × (delegate < n % 2 ^ 32)

-- The number is below the delegates that the key has on the previous block.
abbrev pub IsDelegate : Store → ℕ → Option ℕ → List ℕ → ℕ → Type 0
IsDelegate st fuel none key delegate = Unit
IsDelegate st fuel (some a) key delegate =
    (found : Account) × (block_get_account st fuel (some a) key ≡ ok found) × IsBelow found delegate

module _ (crypto : Crypto) (st : Store) where
  seed-IsSeeded :
      (b : Block) (prev : Option ℕ) {s : Block}
      → (elim prev [
        | none ↦
            let zeros = replicate (crypto_generichash_bytes + crypto_vrf_public_key_bytes) 0 in
            ok (record b { sortition_seed = crypto.generichash zeros })
        | some a ↦ deref st a >>= λ p.
            ok (record b { sortition_seed = crypto.generichash (p.sortition_seed ++ p.public_key) })
      ])
        ≡ ok s
      → (x : List ℕ) × (s ≡ record b { sortition_seed = x }) × IsSeeded crypto st prev x
  seed-IsSeeded b none run = (_, ok-injective refl (sym run), refl)
  seed-IsSeeded b (some a) run =
      let (p, there, end) = >>=-ok (deref st a) _ run in
      (_, ok-injective refl (sym end), (p, there, refl))

  pub block_compute_seed-IsSeeded :
      (b : Block) {s : Block}
      → block_compute_seed crypto st b ≡ ok s
      → (x : List ℕ) × (s ≡ record b { sortition_seed = x }) × IsSeeded crypto st b.prev_block x
  unfolding block_compute_seed
  block_compute_seed-IsSeeded b run = seed-IsSeeded b b.prev_block run

  delegate-IsBelow :
      (delegate : ℕ) (found : Account)
      → (elim found [
        | null ↦ ok true
        | account value older at ↦
            account_get_delegates (account value older at) >>= λ n. ok (ltb delegate (n % 2 ^ 32))
      ])
        ≡ ok true
      → IsBelow found delegate
  delegate-IsBelow delegate null run = tt
  delegate-IsBelow delegate (account value older at) run =
      let (n, there, end) = >>=-ok (account_get_delegates (account value older at)) _ run in
      let below : ltb delegate (n % 2 ^ 32) ≡ true = ok-injective refl end in
      (n, there, ground arith)

  delegate-IsDelegate :
      (fuel : ℕ) (b : Block) (prev : Option ℕ)
      → b.prev_block ≡ prev
      → is_delegate_valid crypto st fuel b ≡ ok true
      → IsDelegate st fuel prev b.public_key b.delegate
  unfolding is_delegate_valid
  delegate-IsDelegate fuel b none at run = tt
  delegate-IsDelegate fuel b (some a) at run =
      let (found, there, end) =
        >>=-ok (block_get_account st fuel (some a) b.public_key) _ (rw at at run) in
      (found, there, delegate-IsBelow b.delegate found end)

  pub is_delegate_valid-IsDelegate :
      (fuel : ℕ) (b : Block)
      → is_delegate_valid crypto st fuel b ≡ ok true
      → IsDelegate st fuel b.prev_block b.public_key b.delegate
  is_delegate_valid-IsDelegate fuel b run = delegate-IsDelegate fuel b b.prev_block refl run

module _ (crypto : Crypto) where
  -- The hashes of the transactions that were received give the root.
  abbrev pub HasRoot : Tuple → List ℕ → Type 0
  HasRoot txns expected =
      (root : List ℕ) × (merkle_root_from_tuple crypto txns ≡ ok root)
      × (is_zero (memcmp crypto_generichash_bytes root expected) ≡ true)

  is_content_valid-HasRoot :
      (header txns : Tuple)
      → is_content_valid crypto header txns ≡ ok true
      → (v : View) × (expected : List ℕ) × (tuple_get_binary header 2 ≡ ok v)
        × (copy_view v crypto_generichash_bytes ≡ ok expected)
        × HasRoot txns expected
  unfolding is_content_valid
  is_content_valid-HasRoot header txns run =
      let (header_valid, r0, e0) = >>=-ok (is_header_valid header) _ run in
      let e1 = checked header_valid _ e0 in
      let (n, r1, e2) = >>=-ok (tuple_get_u32 header 6) _ e1 in
      let (counted, e3) = required (tuple_size txns == n) _ e2 in
      let (txns_valid, r2, e4) = >>=-ok (are_tuples_valid txns (tuple_size txns) 0) _ e3 in
      let e5 = checked txns_valid _ e4 in
      let (root, r3, e6) = >>=-ok (merkle_root_from_tuple crypto txns) _ e5 in
      let (v, r4, e7) = >>=-ok (tuple_get_binary header 2) _ e6 in
      let (expected, r5, e8) = >>=-ok (copy_view v crypto_generichash_bytes) _ e7 in
      (v, expected, r4, r5, (root, r3, ok-injective refl e8))

  block_is_valid-HasRoot :
      (t : Tuple)
      → block_is_valid crypto t ≡ ok true
      → (header txns : Tuple) × (tuple_get_tuple t 0 ≡ ok header)
        × (tuple_get_tuple t 2 ≡ ok txns)
        × (is_content_valid crypto header txns ≡ ok true)
  unfolding block_is_valid
  block_is_valid-HasRoot t run =
      let (three, e0) = required (tuple_size t == 3) _ run in
      let e1 = require_type-passed t 0 tuple_start _ e0 in
      let e2 = require_type-passed t 1 tuple_binary _ e1 in
      let e3 = require_type-passed t 2 tuple_start _ e2 in
      let (header, r0, e4) = >>=-ok (tuple_get_tuple t 0) _ e3 in
      let (txns, r1, e5) = >>=-ok (tuple_get_tuple t 2) _ e4 in (header, txns, r0, r1, e5)

  read_header-ok :
      (find : View → Option ℕ) (header : Tuple) (signature : View) {b : Block}
      → read_header crypto find header signature ≡ ok b
      → (prev root : View) × (tuple_get_binary header 1 ≡ ok prev)
        × (b.prev_block ≡ find prev)
        × (tuple_get_binary header 2 ≡ ok root)
        × (copy_view root crypto_generichash_bytes ≡ ok b.merkle_root)
        × (b.accounts ≡ λ key. null)
  unfolding read_header
  read_header-ok find header signature run =
      let (timestamp, r0, e0) = >>=-ok (tuple_get_u64 header 0) _ run in
      let (prev, r1, e1) = >>=-ok (tuple_get_binary header 1) _ e0 in
      let (root, r2, e2) = >>=-ok (tuple_get_binary header 2) _ e1 in
      let (key, r3, e3) = >>=-ok (tuple_get_binary header 3) _ e2 in
      let (proof, r4, e4) = >>=-ok (tuple_get_binary header 4) _ e3 in
      let (delegate, r5, e5) = >>=-ok (tuple_get_u32 header 5) _ e4 in
      let (c1, r6, e6) = >>=-ok (copy_view root crypto_generichash_bytes) _ e5 in
      let (c2, r7, e7) = >>=-ok (copy_view key crypto_vrf_public_key_bytes) _ e6 in
      let (c3, r8, e8) = >>=-ok (copy_view proof crypto_vrf_proof_bytes) _ e7 in
      let (c4, r9, e9) = >>=-ok (copy_signature crypto signature) _ e8 in
      let made = ok-injective refl (sym e9) in
      (
        prev,
        root,
        r1,
        ap (λ (b : Block). b.prev_block) made,
        r2,
        r6 ∙ ap ok (sym (ap (λ (b : Block). b.merkle_root) made)),
        ap (λ (b : Block). b.accounts) made,
      )

  -- The header that is read stands in the block's tuple, its previous block is the one that `find`
  -- gives for the field of the header, and its root is that of the received transactions.
  abbrev pub IsFound : (View → Option ℕ) → Tuple → Option ℕ → List ℕ → Type 0
  IsFound find t prev_block merkle_root =
      (header txns : Tuple) × (tuple_get_tuple t 0 ≡ ok header)
      × (tuple_get_tuple t 2 ≡ ok txns)
      × ((prev : View) × (tuple_get_binary header 1 ≡ ok prev) × (prev_block ≡ find prev))
      × HasRoot txns merkle_root

  pub read_header-IsFound :
      (find : View → Option ℕ) (t header : Tuple) (signature : View) {b : Block}
      → block_is_valid crypto t ≡ ok true
      → tuple_get_tuple t 0 ≡ ok header
      → read_header crypto find header signature ≡ ok b
      → IsFound find t b.prev_block b.merkle_root × (b.accounts ≡ λ key. null)
  read_header-IsFound find t header signature {b} valid at run =
      let (header', txns, at', there, content) = block_is_valid-HasRoot t valid in
      let (v, expected, field, copied, rooted) = is_content_valid-HasRoot header' txns content in
      let (prev, root, prev_at, found, root_at, root_copied, fresh) =
        read_header-ok find header signature run in
      let same : expected ≡ b.merkle_root = cc in
      ((header, txns, at, there, (prev, prev_at, found), subst (HasRoot txns) same rooted), fresh)
