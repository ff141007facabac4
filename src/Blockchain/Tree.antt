-- ===== src/Blockchain/Tree.antt =====
-- `blockchain_add_block` as a whole, and the invariant that it keeps.
use whosecoin_core.Base.{
  ℕ, ◌<◌, ◌≡◌, refl, sym, ap, ◌∙◌, Bool, true, false, Option, none, some, List, [], ◌∷◌,
  if◌then◌else◌, length, ok, ◌>>=◌, Bool-cases, inl, inr,
}
use mathlib.Core.Bool.{false≢true}
use mathlib.Core.Option.{some-injective}
use whosecoin_core.Block.{same_key, Block, Store, deref, block_get_hash, block_add_child}
use whosecoin_core.Block.Chain.{Link, Chain, root, link, block_add_child-Chain}
use whosecoin_core.Blockchain.{
  index_set, Blockchain, index_transactions, Added, child_of, block_destroy, blockchain_add_block,
}
use whosecoin_core.Blockchain.ForkChoice.{overtakes, extends_principal-overtakes}

-- A block that is already known, by its hash, is freed, and nothing else changes.
pub blockchain_add_block-known :
    (st : Store) (fuel : ℕ) (bc : Blockchain) (block old : ℕ) (b : Block)
    → deref st block ≡ ok b
    → bc.blocks b.hash ≡ some old
    → blockchain_add_block st fuel bc block
      ≡ ok (record { store = block_destroy st block; chain = bc; result = false; extended = none })
unfolding blockchain_add_block block_get_hash
blockchain_add_block-known st fuel bc block old b e known = rw (e, ◌>>=◌, known)

-- The state after a new block was added.
abbrev pub added : Store → List Link → Blockchain → ℕ → Block → Added
added st links bc block b =
    let extends = overtakes links bc.principal b in
    record {
      store = child_of st b.prev_block block;
      chain = record {
        blocks = index_set bc.blocks b.hash block;
        txns = index_transactions bc.txns b.transactions;
        principal = if extends then some block else bc.principal;
      };
      result = true;
      extended = if extends then some (bc.principal, block) else none;
    }

pub child_of-Chain :
    (st : Store) (prev : Option ℕ) (block : ℕ) {b : Option ℕ} {links : List Link}
    → Chain st b links
    → Chain (child_of st prev block) b links
child_of-Chain st none block c = c
child_of-Chain st (some p) block c = block_add_child-Chain st p block c

pub deref-child_of :
    (st : Store) (prev : Option ℕ) (block a : ℕ) → deref (child_of st prev block) a ≡ deref st a
unfolding deref block_add_child
deref-child_of st none block a = refl
deref-child_of st (some p) block a = refl

-- A new block is recorded as a child of its previous block and in both indices; it becomes the
-- principal, and the callback is called with the old and the new one, by the rule of `overtakes`.
pub blockchain_add_block-added :
    (st : Store) (fuel : ℕ) (bc : Blockchain) (links : List Link) (block : ℕ) (b : Block)
    → Chain st bc.principal links
    → length links < fuel
    → deref st block ≡ ok b
    → bc.blocks b.hash ≡ none
    → (bc.principal ≡ none → b.prev_block ≡ none)
    → blockchain_add_block st fuel bc block ≡ ok (added st links bc block b)
unfolding blockchain_add_block block_get_hash
blockchain_add_block-added st fuel bc links block b c h e new origin =
    let st' = child_of st b.prev_block block in
    let choice =
      extends_principal-overtakes st' bc.principal links fuel block b
        (child_of-Chain st b.prev_block block c) h (deref-child_of st b.prev_block block block ∙ e)
        origin in
    rw (e, ◌>>=◌, new, e, ◌>>=◌, choice)

-- The principal chain ends at NULL, an indexed block is there, under its hash and with a branch
-- that ends at NULL, and the principal is NULL only while no block is indexed.
pub record IsTree (st : Store) (bc : Blockchain) : Type 0 where
  pub principal_links : List Link
  pub principal_chain : Chain st bc.principal principal_links
  pub indexed :
      (h : List ℕ) (a : ℕ)
      → bc.blocks h ≡ some a
      → (b : Block) × (links : List Link) × (deref st a ≡ ok b)
        × (same_key b.hash h ≡ true)
        × Chain st b.prev_block links
  pub rooted : bc.principal ≡ none → (h : List ℕ) → bc.blocks h ≡ none

-- The previous block of a block that is to be added: NULL, or one that the index has.
abbrev pub IsKnown : Blockchain → Option ℕ → Type 0
IsKnown bc none = Unit
IsKnown bc (some p) = (h : List ℕ) × (bc.blocks h ≡ some p)

-- A NULL principal and a known previous block: there is none.
pub origin_of :
    (st : Store) (bc : Blockchain) (prev : Option ℕ)
    → IsTree st bc
    → IsKnown bc prev
    → bc.principal ≡ none
    → prev ≡ none
origin_of st bc none tree known e = refl
origin_of st bc (some p) tree (h, at) e = let empty = tree.rooted e h in cc

-- The branch of a known block.
pub known-Chain :
    (st : Store) (bc : Blockchain) (prev : Option ℕ)
    → IsTree st bc
    → IsKnown bc prev
    → (links : List Link) × Chain st prev links
known-Chain st bc none tree known = ([], root)
known-Chain st bc (some p) tree (h, at) =
    let (b, links, there, key, c) = tree.indexed h p at in
    (record { at = p; block = b } ∷ links, link there c)

module _ (st : Store) (bc : Blockchain) (block : ℕ) (b : Block) (tree : IsTree st bc)
    (e : deref st block ≡ ok b) (below : List Link) (below_chain : Chain st b.prev_block below)
    (origin : bc.principal ≡ none → b.prev_block ≡ none) where
  abbrev after : Added
  after = added st tree.principal_links bc block b

  new_principal-Chain : (links : List Link) × Chain after.store after.chain.principal links
  new_principal-Chain = by_rule (overtakes tree.principal_links bc.principal b)
    where
      by_rule :
          (extends : Bool)
          → (links : List Link) × Chain after.store
              (if extends then some block else bc.principal)
              links
      by_rule true = (
        record { at = block; block = b } ∷ below,
        link (deref-child_of st b.prev_block block block ∙ e)
            (child_of-Chain st b.prev_block block below_chain),
      )
      by_rule false =
          (tree.principal_links, child_of-Chain st b.prev_block block tree.principal_chain)

  new_index :
      (h : List ℕ) (a : ℕ)
      → after.chain.blocks h ≡ some a
      → (c : Block) × (links : List Link) × (deref after.store a ≡ ok c)
        × (same_key c.hash h ≡ true)
        × Chain after.store c.prev_block links
  unfolding index_set
  new_index h a at = elim (Bool-cases (same_key b.hash h)) [
    | inl same ↦
        let hit : block ≡ a = some-injective block a (rw same at at) in
        (
          b,
          below,
          ap (deref after.store) (sym hit) ∙ deref-child_of st b.prev_block block block ∙ e,
          same,
          child_of-Chain st b.prev_block block below_chain,
        )
    | inr other ↦
        let (c, links, there, key, branch) = tree.indexed h a (rw other at at) in
        (
          c,
          links,
          deref-child_of st b.prev_block block a ∙ there,
          key,
          child_of-Chain st b.prev_block block branch,
        )
  ]

  pub overtakes-root : bc.principal ≡ none → overtakes tree.principal_links bc.principal b ≡ true
  overtakes-root old = rw (origin old, old)

  new_rooted : after.chain.principal ≡ none → (h : List ℕ) → after.chain.blocks h ≡ none
  new_rooted gone h = elim (Bool-cases (overtakes tree.principal_links bc.principal b)) [
    | inl extends ↦ absurd (none≢some (rw extends at gone))
    | inr stays ↦ absurd (false≢true (sym stays ∙ overtakes-root (rw stays at gone)))
  ]
    where
      none≢some : some block ≡ none → ⊥
      none≢some q = cc

  -- A new block on a branch that ends at NULL leaves a tree.
  pub added-IsTree : IsTree after.store after.chain
  added-IsTree = record {
    principal_links = new_principal-Chain.0;
    principal_chain = new_principal-Chain.1;
    indexed = new_index;
    rooted = new_rooted;
  }

-- Adding a new block whose previous block is known keeps the invariant.
pub blockchain_add_block-IsTree :
    (st : Store) (bc : Blockchain) (block : ℕ) (b : Block) (tree : IsTree st bc)
    → deref st block ≡ ok b
    → IsKnown bc b.prev_block
    → (fuel : ℕ) → length tree.principal_links < fuel
    → bc.blocks b.hash ≡ none
    → (r : Added) × (blockchain_add_block st fuel bc block ≡ ok r)
      × IsTree r.store r.chain
      × (r.result ≡ true)
blockchain_add_block-IsTree st bc block b tree e known fuel enough new =
    let (below, below_chain) = known-Chain st bc b.prev_block tree known in
    let origin = origin_of st bc b.prev_block tree known in
    (
      added st tree.principal_links bc block b,
      blockchain_add_block-added st fuel bc tree.principal_links block b tree.principal_chain enough
          e new origin,
      added-IsTree st bc block b tree e below below_chain origin,
      refl,
    )
