-- ===== src/Blockchain/Runs.antt =====
-- What a run of `blockchain_add_block` that returns has done, whatever fuel it was given.
use whosecoin_core.Base.{
  ℕ, zero, suc, ◌+◌, ◌≤◌, ◌≡◌, refl, sym, ◌∙◌, Bool, false, Option, none, some, List, arith, length,
  ok, ◌>>=◌, >>=-ok, ok-injective, Bool-cases, Option-cases, inl, inr, ◌⊎◌,
}
use whosecoin_core.Block.{Block, Store, deref, block_get_prev, block_get_hash, same_block}
use whosecoin_core.Block.Chain.{Link, Chain}
use whosecoin_core.Blockchain.{
  Blockchain, Added, fork_walk, extends_principal, blockchain_add_block, block_destroy, child_of,
}
use whosecoin_core.Blockchain.ForkChoice.{overtakes, extends_principal-overtakes}
use whosecoin_core.Blockchain.Tree.{
  added, child_of-Chain, deref-child_of, blockchain_add_block-known, IsTree,
}

-- A walk that returns does the same with more fuel.
fork_walk-more :
    (st : Store) (fuel more : ℕ) (target iter prev : Option ℕ) (w : Option ℕ × Option ℕ)
    → fork_walk st fuel target iter prev ≡ ok w
    → fuel ≤ more
    → fork_walk st more target iter prev ≡ ok w
unfolding fork_walk
fork_walk-more st zero more target iter prev w run h = absurd cc
fork_walk-more st (suc fuel) zero target iter prev w run h = absurd (omega arith)
fork_walk-more st (suc fuel) (suc more) target none prev w run h =
    elim (Bool-cases (same_block target none)) [
      | inl hit ↦ rw (hit, fork_walk) (rw (hit, fork_walk) at run)
      | inr miss ↦ rw (miss, fork_walk) (rw (miss, fork_walk) at run)
    ]
fork_walk-more st (suc fuel) (suc more) target (some a) prev w run h =
    elim (Bool-cases (same_block target (some a))) [
      | inl hit ↦ rw (hit, fork_walk) (rw (hit, fork_walk) at run)
      | inr miss ↦
          let (next, above, rest) =
            >>=-ok (block_get_prev st (some a)) _ (rw (miss, fork_walk) at run) in
          rw (miss, fork_walk)
            (rw above (fork_walk-more st fuel more target next (some a) w rest (omega arith)))
    ]

extends_principal-more :
    (st : Store) (principal : Option ℕ) (fuel more block : ℕ) (choice : Bool)
    → extends_principal st fuel principal block ≡ ok choice
    → fuel ≤ more
    → extends_principal st more principal block ≡ ok choice
unfolding extends_principal
extends_principal-more st principal fuel more block choice run h =
    let (target, above, first) = >>=-ok (block_get_prev st (some block)) _ run in
    elim (Bool-cases (same_block target principal)) [
      | inl child ↦ rw (above, ◌>>=◌, child) (rw child at first)
      | inr other ↦
          let (base, under, second) = >>=-ok (block_get_prev st principal) _ (rw other at first) in
          elim (Bool-cases (same_block target base)) [
            | inl sibling ↦ rw (above, ◌>>=◌, other, under, ◌>>=◌, sibling) (rw sibling at second)
            | inr far ↦
                let (walked, walk, third) =
                  >>=-ok (fork_walk st fuel target principal none) _ (rw far at second) in
                let again = fork_walk-more st fuel more target principal none walked walk h in
                rw (above, ◌>>=◌, other, under, ◌>>=◌, far, again, ◌>>=◌) third
          ]
    ]

-- On a branch that ends at NULL, the choice of a run that returns is the rule's.
extends_principal-runs :
    (st : Store) (principal : Option ℕ) (links : List Link) (fuel block : ℕ) (b : Block)
    (choice : Bool)
    → Chain st principal links
    → deref st block ≡ ok b
    → (principal ≡ none → b.prev_block ≡ none)
    → extends_principal st fuel principal block ≡ ok choice
    → choice ≡ overtakes links principal b
extends_principal-runs st principal links fuel block b choice c e origin run =
    let enough = fuel + length links + 1 in
    ok-injective (extends_principal-more st principal fuel enough block choice run (omega arith))
      (extends_principal-overtakes st principal links enough block b c (omega arith) e origin)

-- A run that returns has freed a block whose hash is known, or has added a new one by the rule.
pub blockchain_add_block-runs :
    (st : Store) (fuel : ℕ) (bc : Blockchain) (block : ℕ) (b : Block) (r : Added)
    (tree : IsTree st bc)
    → deref st block ≡ ok b
    → (bc.principal ≡ none → b.prev_block ≡ none)
    → blockchain_add_block st fuel bc block ≡ ok r
    → (r ≡ record { store = block_destroy st block; chain = bc; result = false; extended = none })
      ⊎ ((bc.blocks b.hash ≡ none) × (r ≡ added st tree.principal_links bc block b))
unfolding blockchain_add_block block_get_hash
blockchain_add_block-runs st fuel bc block b r tree e origin run =
    elim (Option-cases (bc.blocks b.hash)) [
      | inr (old, known) ↦
          inl (ok-injective run (blockchain_add_block-known st fuel bc block old b e known))
      | inl new ↦
          let links = tree.principal_links in
          let st' = child_of st b.prev_block block in
          let (choice, chosen, rest) =
            >>=-ok (extends_principal st' fuel bc.principal block) _
              (rw (e, ◌>>=◌, new, e, ◌>>=◌) at run) in
          let rule =
            extends_principal-runs st' bc.principal links fuel block b choice
              (child_of-Chain st b.prev_block block tree.principal_chain)
              (deref-child_of st b.prev_block block block ∙ e) origin chosen in
          inr (new, ok-injective refl (sym (rw rule at rest)))
    ]
