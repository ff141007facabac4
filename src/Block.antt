-- ===== src/Block.antt =====
-- block.c: blocks, the accounts that each block records, staking, and the block tree.
-- A `block_t*` is an address in the store; NULL is `none`. The children of a block are a `list_t`
-- of their own, the rest of a block is fixed once it is constructed. `map_t` and `list_t` stand
-- for what they hold, which HashMap and ArrayList show to be what their code implements.
pub mod Json
pub mod Accounts
pub mod Chain
pub mod Ledger
pub mod Merkle
pub mod Wire
pub mod Create
pub mod Read
pub mod RoundTrip
use whosecoin_core.Base.{
  ℕ, zero, suc, ◌+◌, ◌-◌, ◌/◌, ◌%◌, ◌^◌, ◌≤◌, ◌<◌, Bool, true, false, Option, none, some, List, [],
  ◌∷◌, ◌++◌, ◌||◌, ltb, leb, ◌==◌, if◌then◌else◌, is_zero, length, get_elem?, replicate, Run, ok,
  abort, fault, out_of_fuel, ◌>>=◌, or_fault,
}
use whosecoin_core.Bytes.{memcmp}
use whosecoin_core.Crypto.{crypto_generichash_bytes, crypto_vrf_public_key_bytes}
use whosecoin_core.Transaction.{Transaction}

abbrev pub coinbase_transaction : ℕ
coinbase_transaction = 1024

abbrev pub delegate_value : ℕ
delegate_value = 1024

abbrev pub waiting_period : ℕ
waiting_period = 16

-- `account_t*`: NULL, or a value, the previous account of the same key and the block.
pub data Account : Type 0 where
  null : Account
  account : ℕ → Account → ℕ → Account

-- The comparator of the maps that are keyed by public keys and hashes.
unfoldable pub same_key : List ℕ → List ℕ → Bool
same_key a b = is_zero (memcmp crypto_generichash_bytes a b)

-- What the `map_t` of accounts holds under each key, NULL where it has no entry.
abbrev pub Accounts : Type 0
Accounts = List ℕ → Account

unfoldable pub map_set : Accounts → List ℕ → Account → Accounts
map_set accounts k v j = if same_key k j then v else accounts j

-- `struct block`
pub record Block : Type 0 where
  pub timestamp : ℕ
  pub prev_block : Option ℕ
  pub merkle_root : List ℕ
  pub public_key : List ℕ
  pub sortition_proof : List ℕ
  pub signature : List ℕ
  pub delegate : ℕ
  pub transactions : List Transaction
  pub hash : List ℕ
  pub sortition_seed : List ℕ
  pub sortition_hash : List ℕ
  pub sortition_priority : List ℕ
  pub height : ℕ
  pub accounts : Accounts

-- The blocks by address, a freed one being `none`, and their lists of children.
pub record Store : Type 0 where
  pub blocks : List (Option Block)
  pub children : ℕ → List ℕ

-- `*block`
unfoldable pub deref : Store → ℕ → Run Block
deref st a = or_fault (get_elem? st.blocks a) >>= or_fault

unfoldable pub block_get_prev : Store → Option ℕ → Run (Option ℕ)
unfolding deref
block_get_prev st none = fault
block_get_prev st (some a) = deref st a >>= λ b. ok b.prev_block

unfoldable pub block_get_height : Store → Option ℕ → Run ℕ
unfolding deref
block_get_height st none = ok 0
block_get_height st (some a) = deref st a >>= λ b. ok b.height

-- The hash of a block, and 32 zero bytes for NULL.
unfoldable pub block_get_hash : Store → Option ℕ → Run (List ℕ)
unfolding deref
block_get_hash st none = ok (replicate crypto_generichash_bytes 0)
block_get_hash st (some a) = deref st a >>= λ b. ok b.hash

abbrev pub same_block : Option ℕ → Option ℕ → Bool
same_block none none = true
same_block (some a) (some b) = a == b
same_block _ _ = false

unfoldable pub block_add_child : Store → ℕ → ℕ → Store
block_add_child st block child = record st {
  children = λ a. if a == block then st.children a ++ child ∷ [] else st.children a;
}

-- Search the branch from the block to the root. The fuel counts the blocks that are visited.
unfoldable pub block_get_account : Store → ℕ → Option ℕ → List ℕ → Run Account
unfolding deref
block_get_account st zero block public_key = out_of_fuel
block_get_account st (suc fuel) none public_key = ok null
block_get_account st (suc fuel) (some a) public_key = deref st a >>= λ b.
    elim (b.accounts public_key) [
      | null ↦ block_get_account st fuel b.prev_block public_key
      | account value prev block ↦ ok (account value prev block)
    ]

-- The assertion stops NULL.
unfoldable pub account_get_value : Account → Run ℕ
account_get_value null = abort
account_get_value (account value prev block) = ok value

-- `account->value`, a null dereference on NULL
unfoldable pub account_get_delegates : Account → Run ℕ
account_get_delegates null = fault
account_get_delegates (account value prev block) = ok (value / delegate_value)

-- `while (account->prev != NULL) account = account->prev`, and the block of the last
unfoldable pub first_block : ℕ → Account → ℕ
first_block block null = block
first_block block (account value prev at) = first_block at prev

unfoldable pub is_staking_allowed : Store → ℕ → Option ℕ → List ℕ → Run Bool
unfolding block_get_account block_get_height account_get_delegates first_block
is_staking_allowed st fuel none public_key = ok true
is_staking_allowed st fuel (some a) public_key = do
  found ← block_get_account st fuel (some a) public_key
  elim found [
    | null ↦ ok false
    | account value prev block ↦ (do
      delegates ← account_get_delegates (account value prev block)
      let word = delegates % 2 ^ 32
      height ← block_get_height st (some a)
      opened ← block_get_height st (some (first_block block prev))
      ok (
          if word == 0
          then false
          else (leb height waiting_period || leb ((opened + waiting_period) % 2 ^ 32) height)))
  ]

-- block == ancestor, or NULL, or an ancestor of NULL, or else by the previous block
unfoldable pub block_has_ancestor : Store → ℕ → Option ℕ → Option ℕ → Run Bool
unfolding block_get_prev
block_has_ancestor st zero block ancestor = out_of_fuel
block_has_ancestor st (suc fuel) block ancestor = elim (same_block block ancestor) [
  | true ↦ ok true
  | false ↦ elim block [
    | none ↦ ok false
    | some a ↦ elim ancestor [
      | none ↦ ok true
      | some c ↦ block_get_prev st (some a) >>= λ prev. block_has_ancestor st fuel prev (some c)
    ]
  ]
]

-- The first child with the public key.
child_with_key : Store → List ℕ → List ℕ → Run (Option ℕ)
unfolding deref
child_with_key st pk [] = ok none
child_with_key st pk (c ∷ cs) =
    let rest = child_with_key st pk cs in
    deref st c >>= λ b. if same_key b.public_key pk then ok (some c) else rest

unfoldable pub block_get_child_with_public_key : Store → ℕ → List ℕ → Run (Option ℕ)
unfolding child_with_key
block_get_child_with_public_key st block pk = child_with_key st pk (st.children block)
