-- ===== src/Block/Merkle/Width.antt =====
-- The Merkle root has the size of a hash.
use whosecoin_core.Base.{
  ℕ, ◌≡◌, refl, sym, ap, ◌∙◌, subst, List, [], ◌∷◌, map, length, ok, ok-injective,
}
use whosecoin_core.Crypto.{Crypto, crypto_generichash_bytes}
use whosecoin_core.Transaction.{Transaction}
use whosecoin_core.Block.Merkle.{Hashes, merkle_root_from_list}
use whosecoin_core.Block.Merkle.Tree.{
  HashTree, leaf, node, leaves, root_of, merkle_root_from_list-tree,
}
use whosecoin_core.Block.Read.Listed.{AreHashed}

module _ (crypto : Crypto) where
  -- Every hash has its size.
  abbrev AreSizes : Hashes → Type 0
  AreSizes [] = Unit
  AreSizes (h ∷ hs) = (length h ≡ crypto_generichash_bytes) × AreSizes hs

  length-root :
      (tree : HashTree)
      → AreSizes (leaves tree)
      → length (root_of crypto tree) ≡ crypto_generichash_bytes
  length-root (leaf h) sizes = sizes.0
  length-root (node s t) sizes = crypto.length-generichash _

  hashes-AreSizes :
      (txns : List Transaction) → AreHashed crypto txns → AreSizes (map (λ t. t.hash) txns)
  hashes-AreSizes [] h = tt
  hashes-AreSizes (txn ∷ txns) h =
      (ap length h.0.1 ∙ crypto.length-generichash _, hashes-AreSizes txns h.1)

  pub length-merkle_root :
      (txns : List Transaction) (root : List ℕ)
      → AreHashed crypto txns
      → merkle_root_from_list crypto txns ≡ ok root
      → length root ≡ crypto_generichash_bytes
  unfolding merkle_root_from_list
  length-merkle_root [] root h run = ap length (ok-injective run refl)
  length-merkle_root (txn ∷ txns) root h run =
      let (tree, same, below) = merkle_root_from_list-tree crypto txn txns in
      let sizes = subst AreSizes (sym below) (hashes-AreSizes (txn ∷ txns) h) in
      ap length (ok-injective run same) ∙ length-root tree sizes
