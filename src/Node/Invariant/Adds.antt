-- ===== src/Node/Invariant/Adds.antt =====
-- How a block that is added, with the callback of main.c, changes the state of the node.
use whosecoin_core.Base.{
  ℕ, zero, suc, ◌≡◌, refl, sym, ap, subst, Bool, true, false, Option, none, some, List, [], ◌∷◌,
  inl, inr, Run, ok, fault, ◌>>=◌, >>=-ok, ok-injective, if◌then◌else◌,
}
use whosecoin_core.Transaction.{Transaction}
use whosecoin_core.Block.{Block, Store, deref, block_has_ancestor}
use whosecoin_core.Block.Chain.{Link, Chain}
use whosecoin_core.Blockchain.{Blockchain, Added, blockchain_add_block}
use whosecoin_core.Blockchain.ForkChoice.{overtakes}
use whosecoin_core.Blockchain.Tree.{IsTree, added, added-IsTree, child_of-Chain}
use whosecoin_core.Blockchain.Runs.{blockchain_add_block-runs}
use whosecoin_core.Pool.{Pool, pool_add}
use whosecoin_core.Pool.Distinct.{AreDistinct, pool_add-AreDistinct}
use whosecoin_core.Node.{
  Node, return_transactions, abandon, on_extended, next_address, allocate, add_block,
}
use whosecoin_core.Node.Invariant.Growth.{
  Keeps, allocate-Keeps, deref-allocate, block_destroy-Keeps, Chain-Keeps, IsTree-Keeps,
}

-- The blockchain is a tree, and the transactions of the pool are distinct.
abbrev pub IsSound : Node → Type 0
IsSound node = IsTree node.store node.chain × AreDistinct node.pool

-- A place for a block: NULL or the end of a branch, and NULL if the node has no principal.
abbrev pub IsPlace : Store → Blockchain → Option ℕ → Type 0
IsPlace st bc prev =
    ((links : List Link) × Chain st prev links) × (bc.principal ≡ none → prev ≡ none)

return_transactions-AreDistinct :
    (pool : Pool) (txns : List Transaction)
    → AreDistinct pool
    → AreDistinct (return_transactions pool txns)
unfolding return_transactions
return_transactions-AreDistinct pool [] h = h
return_transactions-AreDistinct pool (txn ∷ txns) h =
    return_transactions-AreDistinct (pool_add pool txn) txns (pool_add-AreDistinct pool txn h).0

abandon-AreDistinct :
    (fuel : ℕ) (st : Store) (pool : Pool) (block : ℕ) (prev : Option ℕ) (after : Pool)
    → AreDistinct pool
    → abandon fuel st pool block prev ≡ ok after
    → AreDistinct after
unfolding abandon
abandon-AreDistinct zero st pool block prev after h run = absurd cc
abandon-AreDistinct (suc fuel) st pool block prev after h run =
    let (above, r0, e0) = >>=-ok (block_has_ancestor st (suc fuel) (some block) prev) _ run in
    by_ancestor above prev
      (λ b e1.
        abandon-AreDistinct fuel st (return_transactions pool b.transactions) block b.prev_block
          after (return_transactions-AreDistinct pool b.transactions h) e1)
      e0
  where
    by_ancestor :
        (above : Bool) (prev : Option ℕ)
        → ((b : Block)
            → abandon fuel st (return_transactions pool b.transactions) block b.prev_block
              ≡ ok after
            → AreDistinct after)
        → (elim above [
          | true ↦ ok pool
          | false ↦ elim prev [
            | none ↦ fault
            | some p ↦ deref st p >>= λ b.
                abandon fuel st (return_transactions pool b.transactions) block b.prev_block
          ]
        ])
          ≡ ok after
        → AreDistinct after
    by_ancestor true prev again e = subst AreDistinct (ok-injective refl e) h
    by_ancestor false none again e = absurd cc
    by_ancestor false (some p) again e = let (b, r1, e1) = >>=-ok (deref st p) _ e in again b e1

on_extended-IsSound :
    (fuel : ℕ) (node : Node) (prev : Option ℕ) (block : ℕ) (after : Node)
    → on_extended fuel node prev block ≡ ok after
    → IsSound node
    → IsSound after × (after.store ≡ node.store) × (after.chain ≡ node.chain)
unfolding on_extended
on_extended-IsSound fuel node prev block after run (tree, distinct) =
    let (pool, r0, e0) = >>=-ok (abandon fuel node.store node.pool block prev) _ run in
    let less = abandon-AreDistinct fuel node.store node.pool block prev pool distinct r0 in
    subst (λ (n : Node). IsSound n × (n.store ≡ node.store) × (n.chain ≡ node.chain))
      (ok-injective refl e0) ((tree, less), refl, refl)

-- The node's blockchain after a block was added: a tree on which every place still is one.
abbrev pub Grows : Store → Blockchain → Store → Blockchain → Type 0
Grows st bc st' bc' =
    IsTree st' bc' × ((prev : Option ℕ) → IsPlace st bc prev → IsPlace st' bc' prev)

added-Grows :
    (st st' : Store) (bc : Blockchain) (block : ℕ) (b : Block) (old : IsTree st bc)
    (keeps : Keeps st st')
    → deref st' block ≡ ok b
    → IsPlace st bc b.prev_block
    → (tree : IsTree st' bc)
    → let r = added st' tree.principal_links bc block b in Grows st bc r.store r.chain
added-Grows st st' bc block b old keeps e ((below, branch), origin) tree = (
  added-IsTree st' bc block b tree e below (Chain-Keeps keeps branch) origin,
  λ prev place. (
    (place.0.0, child_of-Chain st' b.prev_block block (Chain-Keeps keeps place.0.1)),
    λ gone. place.1 (still (overtakes tree.principal_links bc.principal b) gone),
  ),
)
  where
    still :
        (extends : Bool)
        → (if extends then some block else bc.principal) ≡ none
        → bc.principal ≡ none
    still true e = absurd cc
    still false e = e

runs-Grows :
    (st : Store) (bc : Blockchain) (new : Block) (fuel : ℕ) (r : Added)
    → IsTree st bc
    → IsPlace st bc new.prev_block
    → blockchain_add_block (allocate st new) fuel bc (next_address st) ≡ ok r
    → Grows st bc r.store r.chain
runs-Grows st bc new fuel r old place run =
    let keeps = allocate-Keeps st new in
    let tree = IsTree-Keeps keeps old in
    elim (blockchain_add_block-runs (allocate st new) fuel bc (next_address st) new r tree
      (deref-allocate st new) place.1 run) [
        | inl known ↦
            subst (λ (r : Added). Grows st bc r.store r.chain) (sym known)
              (
                IsTree-Keeps (block_destroy-Keeps st new) old,
                λ prev p. ((p.0.0, Chain-Keeps (block_destroy-Keeps st new) p.0.1), p.1),
              )
        | inr (fresh, extended) ↦
            subst (λ (r : Added). Grows st bc r.store r.chain) (sym extended)
              (added-Grows st (allocate st new) bc (next_address st) new old keeps
                (deref-allocate st new) place tree)
      ]

-- The node that results is sound, and has every place that the first has.
abbrev pub Follows : Node → Node → Type 0
Follows node after =
    IsSound after
    × ((prev : Option ℕ)
        → IsPlace node.store node.chain prev
        → IsPlace after.store after.chain prev)

-- A block whose previous block is a place can be added.
pub add_block-Follows :
    (fuel : ℕ) (node : Node) (b : Block) (result : Bool) (after : Node)
    → IsSound node
    → IsPlace node.store node.chain b.prev_block
    → add_block fuel node b ≡ ok (result, after)
    → Follows node after
unfolding add_block
add_block-Follows fuel node b result after (tree, distinct) place run =
    let (r, r0, e0) =
      >>=-ok
        (blockchain_add_block (allocate node.store b) fuel node.chain (next_address node.store)) _
        run in
    let grown = runs-Grows node.store node.chain b fuel r tree place r0 in
    called r.extended (record node { store = r.store; chain = r.chain })
      ((grown.0, distinct), grown.1) r.result e0
  where
    called :
        (extended : Option (Option ℕ × ℕ)) (added : Node)
        → Follows node added
        → (known : Bool)
        → ◌≡◌ {A = Run (Bool × Node)}
            (elim extended [
              | none ↦ ok (known, added)
              | some e ↦ on_extended fuel added e.0 e.1 >>= λ extended. ok (known, extended)
            ])
            (ok (result, after))
        → Follows node after
    called none added follows known e =
        subst (Follows node) (ap (λ (p : Bool × Node). p.1) (ok-injective refl e)) follows
    called (some x) added follows known e =
        let (next, r1, e1) = >>=-ok (on_extended fuel added x.0 x.1) _ e in
        let (sound, same_store, same_chain) =
          on_extended-IsSound fuel added x.0 x.1 next r1 follows.0 in
        subst (Follows node) (ap (λ (p : Bool × Node). p.1) (ok-injective refl e1)) (
          sound,
          λ prev p.
              subst (λ (st : Store). IsPlace st next.chain prev) (sym same_store)
                (subst (λ (bc : Blockchain). IsPlace added.store bc prev) (sym same_chain)
                  (follows.1 prev p)),
        )
