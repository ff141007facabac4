-- ===== src/Blockchain/Records.antt =====
-- What `blockchain_get_block` and `blockchain_get_transaction` find after `blockchain_add_block`.
use whosecoin_core.Base.{
  ℕ, ◌<◌, ◌≡◌, refl, ap, arith, true, false, Option, none, some, List, [], ◌∷◌, ◌++◌, if◌then◌else◌,
  length, ok, ◌==◌, Bool-cases, Option-cases, inl, inr, ◌⊎◌,
}
use whosecoin_core.Transaction.{Transaction}
use whosecoin_core.Block.{same_key, Block, Store, deref, block_add_child}
use whosecoin_core.Block.Chain.{Link, Chain}
use whosecoin_core.Blockchain.{
  HashIndex, index_set, Blockchain, index_transactions, Added, child_of, block_destroy,
  blockchain_add_block, blockchain_get_block, blockchain_get_transaction,
}
use whosecoin_core.Blockchain.ForkChoice.{overtakes}
use whosecoin_core.Blockchain.Tree.{added, blockchain_add_block-added, blockchain_add_block-known}

-- A transaction of the list, by its place.
abbrev pub IsIn : Transaction → List Transaction → Type 0
IsIn u txns = (front back : List Transaction) × (txns ≡ front ++ u ∷ back)

-- No transaction of the list has the hash.
abbrev pub HasNone : List ℕ → List Transaction → Type 0
HasNone h [] = Unit
HasNone h (txn ∷ txns) = (same_key txn.hash h ≡ false) × HasNone h txns

-- What is found under the hash: a transaction of the list that has it, or, if none has, what was
-- found before.
abbrev pub Finds : List ℕ → List Transaction → Option Transaction → Option Transaction → Type 0
Finds h txns before after =
    ((u : Transaction) × (after ≡ some u) × IsIn u txns × (same_key u.hash h ≡ true))
    ⊎ (HasNone h txns × (after ≡ before))

Finds-first :
    (h : List ℕ) (txn : Transaction) (txns : List Transaction) (before after : Option Transaction)
    → Finds h txns (if same_key txn.hash h then some txn else before) after
    → Finds h (txn ∷ txns) before after
Finds-first h txn txns before after (inl (u, found, (front, back, at), same)) =
    inl (u, found, (txn ∷ front, back, ap (txn ∷◌) at), same)
Finds-first h txn txns before after (inr (others, stays)) =
    elim (Bool-cases (same_key txn.hash h)) [
      | inl same ↦ inl (txn, rw same at stays, ([], txns, refl), same)
      | inr other ↦ inr ((other, others), rw other at stays)
    ]

index_transactions-Finds :
    (m : HashIndex Transaction) (txns : List Transaction) (h : List ℕ)
    → Finds h txns (m h) (index_transactions m txns h)
unfolding index_transactions index_set
index_transactions-Finds m [] h = inr (tt, refl)
index_transactions-Finds m (txn ∷ txns) h =
    Finds-first h txn txns (m h) _ (index_transactions-Finds (index_set m txn.hash txn) txns h)

-- The block is the latest child of its previous block, and no other block has a new child.
abbrev pub IsChildOf : Store → Option ℕ → ℕ → Store → Type 0
IsChildOf st none block after = after ≡ st
IsChildOf st (some p) block after =
    (after.blocks ≡ st.blocks)
    × (after.children p ≡ st.children p ++ block ∷ [])
    × ((a : ℕ) → after.children a ≡ (if a == p then st.children p ++ block ∷ [] else st.children a))

-- What the run has made of the store and the chain, by what was indexed under the hash before.
abbrev pub Records : Store → List Link → Blockchain → ℕ → Block → List ℕ → Option ℕ → Added → Type 0
Records st links bc block b h (some old) r =
    (r.store ≡ block_destroy st block) × (r.chain ≡ bc) × (r.result ≡ false) × (r.extended ≡ none)
Records st links bc block b h none r =
    IsChildOf st b.prev_block block r.store
    × (blockchain_get_block r.chain h
        ≡ (if same_key b.hash h then some block else blockchain_get_block bc h))
    × Finds h b.transactions (blockchain_get_transaction bc h)
        (blockchain_get_transaction r.chain h)
    × (r.chain.principal ≡ (if overtakes links bc.principal b then some block else bc.principal))
    × (r.extended ≡ (if overtakes links bc.principal b then some (bc.principal, block) else none))
    × (r.result ≡ true)

child_of-IsChildOf :
    (st : Store) (prev : Option ℕ) (block : ℕ) → IsChildOf st prev block (child_of st prev block)
unfolding block_add_child
child_of-IsChildOf st none block = refl
child_of-IsChildOf st (some p) block =
    let self : (p == p) ≡ true = ground arith in (refl, rw self, λ a. children_at a)
  where
    children_at :
        (a : ℕ)
        → (if a == p then st.children a ++ block ∷ [] else st.children a)
          ≡ (if a == p then st.children p ++ block ∷ [] else st.children a)
    children_at a = elim (Bool-cases (a == p)) [
      | inl same ↦ let e : a ≡ p = ground arith in rw same (ap (λ k. st.children k ++ block ∷ []) e)
      | inr other ↦ rw other
    ]

-- Adding a block returns. If a block is indexed under its hash, the new one is destroyed and nothing
-- else changes. Otherwise the block becomes the latest child of its previous block; it is found
-- under its hash; under any hash that its transactions have one of them is found, and under any
-- other what was found before; and by the rule of the fork choice it becomes the principal, of
-- which the callback is told with the old one, or the principal stays and the callback is not
-- called. This holds on a principal chain that ends at NULL, with more rounds than it has blocks,
-- where the principal is NULL only if the block has no previous block.
pub blockchain_add_block-Records :
    (st : Store) (fuel : ℕ) (bc : Blockchain) (links : List Link) (block : ℕ) (b : Block)
    (h : List ℕ)
    → Chain st bc.principal links
    → length links < fuel
    → deref st block ≡ ok b
    → (bc.principal ≡ none → b.prev_block ≡ none)
    → (r : Added) × (blockchain_add_block st fuel bc block ≡ ok r)
      × Records st links bc block b h (bc.blocks b.hash) r
unfolding blockchain_get_block blockchain_get_transaction index_set
blockchain_add_block-Records st fuel bc links block b h c enough e origin =
    elim (Option-cases (bc.blocks b.hash)) [
      | inl new ↦ (
        added st links bc block b,
        blockchain_add_block-added st fuel bc links block b c enough e new origin,
        rw new (
          child_of-IsChildOf st b.prev_block block,
          refl,
          index_transactions-Finds bc.txns b.transactions h,
          refl,
          refl,
          refl,
        ),
      )
      | inr (old, known) ↦ (
        record { store = block_destroy st block; chain = bc; result = false; extended = none },
        blockchain_add_block-known st fuel bc block old b e known,
        rw known (refl, refl, refl, refl),
      )
    ]
