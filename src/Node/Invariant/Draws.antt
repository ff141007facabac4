-- ===== src/Node/Invariant/Draws.antt =====
-- What the pool is after it was drained, and where a block stands whose previous block is looked up.
use whosecoin_core.Base.{
  ℕ, zero, suc, ◌≡◌, refl, sym, subst, Bool, true, false, Option, none, some, List, [], ◌∷◌, ◌++◌,
  take, get_elem?, remove_at, or_abort, Run, ok, ◌>>=◌, >>=-ok, ok-injective, ◌==◌,
}
use whosecoin_core.Crypto.{crypto_generichash_bytes}
use whosecoin_core.Tuple.Readers.{View}
use whosecoin_core.Transaction.{Transaction}
use whosecoin_core.Blockchain.{Blockchain, blockchain_get_block}
use whosecoin_core.Blockchain.Tree.{IsKnown, known-Chain, origin_of}
use whosecoin_core.Pool.{Pool, pool_remove, pool_size}
use whosecoin_core.Pool.Distinct.{AreDistinct, pool_remove-AreDistinct}
use whosecoin_core.Node.{Node, lookup_block, drain}
use whosecoin_core.Node.Invariant.Adds.{IsSound, IsPlace}

taken-AreDistinct :
    (pool : Pool) (found : Option Transaction) (r : Transaction × Pool)
    → get_elem? pool 0 ≡ found
    → AreDistinct pool
    → (or_abort found >>= λ txn. ok (txn, remove_at pool 0)) ≡ ok r
    → AreDistinct r.1
taken-AreDistinct pool none r e h run = absurd cc
taken-AreDistinct pool (some txn) r e h run =
    subst (λ (r : Transaction × Pool). AreDistinct r.1) (ok-injective refl run)
      (pool_remove-AreDistinct pool 0 txn h e).1

pub drain-AreDistinct :
    (fuel : ℕ) (txns : List Transaction) (pool : Pool) (r : List Transaction × Pool)
    → AreDistinct pool
    → drain fuel txns pool ≡ ok r
    → AreDistinct r.1
unfolding drain pool_remove
drain-AreDistinct zero txns pool r h run = absurd cc
drain-AreDistinct (suc fuel) txns pool r h run =
    by_size (pool_size pool == 0)
      (λ taken e1.
        drain-AreDistinct fuel (txns ++ taken.0 ∷ []) taken.1 r
          (taken-AreDistinct pool (get_elem? pool 0) taken refl h e1.0) e1.1)
      run
  where
    by_size :
        (is_empty : Bool)
        → ((taken : Transaction × Pool)
            → (pool_remove pool 0 ≡ ok taken) × (drain fuel (txns ++ taken.0 ∷ []) taken.1 ≡ ok r)
            → AreDistinct r.1)
        → ◌≡◌ {A = Run (List Transaction × Pool)}
            (elim is_empty [
              | true ↦ ok (txns, pool)
              | false ↦ pool_remove pool 0 >>= λ taken. drain fuel (txns ++ taken.0 ∷ []) taken.1
            ])
            (ok r)
        → AreDistinct r.1
    by_size true again e =
        subst (λ (r : List Transaction × Pool). AreDistinct r.1) (ok-injective refl e) h
    by_size false again e =
        let (taken, r0, e0) = >>=-ok (pool_remove pool 0) _ e in again taken (r0, e0)

pub lookup_block-IsKnown :
    (bc : Blockchain) (v : View) (prev : Option ℕ) → prev ≡ lookup_block bc v → IsKnown bc prev
unfolding lookup_block blockchain_get_block
lookup_block-IsKnown bc v none e = tt
lookup_block-IsKnown bc v (some p) e = (take crypto_generichash_bytes v.start, sym e)

pub known-IsPlace :
    (node : Node) (prev : Option ℕ)
    → IsSound node
    → IsKnown node.chain prev
    → IsPlace node.store node.chain prev
known-IsPlace node prev (tree, distinct) known = (
  known-Chain node.store node.chain prev tree known,
  origin_of node.store node.chain prev tree known,
)
