-- ===== src/Blockchain.antt =====
-- blockchain.c: the block tree, its indices by hash, and the choice of the principal chain.
-- The maps stand for what they hold. The callback `on_extended` is a value of the result: the two
-- blocks that it is called with. The two heights that `blockchain_add_block` reads and does not
-- use are left out, and so is the code under `#elif`, which PROOF_OF_STAKE turns off.
pub mod ForkChoice
pub mod Tree
pub mod Records
pub mod Runs
use whosecoin_core.Base.{
  ℕ, zero, suc, Bool, true, false, Option, none, some, List, [], ◌∷◌, is_negative, if◌then◌else◌,
  Run, ok, fault, out_of_fuel, ◌>>=◌, set,
}
use whosecoin_core.Bytes.{memcmp}
use whosecoin_core.Crypto.{crypto_generichash_bytes}
use whosecoin_core.Transaction.{Transaction}
use whosecoin_core.Block.{
  same_key, Block, Store, deref, block_get_prev, block_get_hash, block_get_height, same_block,
  block_add_child,
}

-- A map that is keyed by hashes.
abbrev pub HashIndex : Type 0 → Type 0
HashIndex V = List ℕ → Option V

unfoldable pub index_set : {V : Type 0} → HashIndex V → List ℕ → V → HashIndex V
index_set m k v j = if same_key k j then some v else m j

pub record Blockchain : Type 0 where
  pub blocks : HashIndex ℕ
  pub txns : HashIndex Transaction
  pub principal : Option ℕ

unfoldable pub blockchain_create : Blockchain
blockchain_create = record { blocks = λ h. none; txns = λ h. none; principal = none }

unfoldable pub block_get_priority : Store → Option ℕ → Run (List ℕ)
unfolding deref
block_get_priority st none = fault
block_get_priority st (some a) = deref st a >>= λ b. ok b.sortition_priority

-- memcmp(block_get_priority(a), block_get_priority(b), crypto_generichash_BYTES) < 0
unfoldable pub has_lower_priority : Store → Option ℕ → Option ℕ → Run Bool
unfolding block_get_priority
has_lower_priority st a b = do
  p ← block_get_priority st a
  q ← block_get_priority st b
  ok (is_negative (memcmp crypto_generichash_bytes p q))

-- The `while` loop: from `iter` towards the root until `target` or NULL, with the block before.
unfoldable pub fork_walk : Store → ℕ → Option ℕ → Option ℕ → Option ℕ → Run (Option ℕ × Option ℕ)
unfolding block_get_prev
fork_walk st zero target iter prev = out_of_fuel
fork_walk st (suc fuel) target iter prev = elim (same_block target iter) [
  | true ↦ ok (iter, prev)
  | false ↦ elim iter [
    | none ↦ ok (none, prev)
    | some a ↦ block_get_prev st (some a) >>= λ next. fork_walk st fuel target next (some a)
  ]
]

-- Whether the block becomes the principal, and the callback is called.
unfoldable pub extends_principal : Store → ℕ → Option ℕ → ℕ → Run Bool
unfolding fork_walk has_lower_priority
extends_principal st fuel principal block = block_get_prev st (some block) >>= λ target.
    elim (same_block target principal) [
      | true ↦ ok true
      | false ↦ block_get_prev st principal >>= (λ base. elim (same_block target base) [
        | true ↦ has_lower_priority st (some block) principal
        | false ↦ fork_walk st fuel target principal none >>= (λ walked.
            elim (same_block target walked.0) [
              | true ↦ has_lower_priority st (some block) walked.1
              | false ↦ ok false
            ])
      ])
    ]

unfoldable pub index_transactions : HashIndex Transaction → List Transaction → HashIndex Transaction
unfolding index_set
index_transactions m [] = m
index_transactions m (txn ∷ txns) = index_transactions (index_set m txn.hash txn) txns

-- `block_destroy`: the block is freed.
unfoldable pub block_destroy : Store → ℕ → Store
block_destroy st a = record st { blocks = set st.blocks a none }

-- What `blockchain_add_block` leaves behind: the store, the chain, its result, and the arguments
-- of the callback if it was called.
pub record Added : Type 0 where
  pub store : Store
  pub chain : Blockchain
  pub result : Bool
  pub extended : Option (Option ℕ × ℕ)

abbrev pub child_of : Store → Option ℕ → ℕ → Store
child_of st none block = st
child_of st (some prev) block = block_add_child st prev block

unfoldable pub blockchain_add_block : Store → ℕ → Blockchain → ℕ → Run Added
unfolding extends_principal index_transactions block_destroy
blockchain_add_block st fuel bc block = do
  hash ← block_get_hash st (some block)
  elim (bc.blocks hash) [
    | some old ↦
        ok (record { store = block_destroy st block; chain = bc; result = false; extended = none })
    | none ↦ (do
      b ← deref st block
      let st' = child_of st b.prev_block block
      extends ← extends_principal st' fuel bc.principal block
      ok (record {
        store = st';
        chain = record {
          blocks = index_set bc.blocks hash block;
          txns = index_transactions bc.txns b.transactions;
          principal = if extends then some block else bc.principal;
        };
        result = true;
        extended = if extends then some (bc.principal, block) else none;
      }))
  ]

unfoldable pub blockchain_get_block : Blockchain → List ℕ → Option ℕ
blockchain_get_block bc hash = bc.blocks hash

unfoldable pub blockchain_get_transaction : Blockchain → List ℕ → Option Transaction
blockchain_get_transaction bc hash = bc.txns hash

unfoldable pub blockchain_height : Store → Blockchain → Run ℕ
unfolding block_get_height
blockchain_height st bc = block_get_height st bc.principal
