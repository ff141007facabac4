-- ===== src/Block/Wire/Seed.antt =====
-- block.c: block_compute_seed depends on the previous block of its argument alone.
use whosecoin_core.Base.{
  ℕ, ◌+◌, ◌≡◌, refl, sym, ap, subst, Option, none, some, List, ◌++◌, replicate, Run, ok, ◌>>=◌,
  >>=-ok, ok-injective,
}
use whosecoin_core.Crypto.{Crypto, crypto_generichash_bytes, crypto_vrf_public_key_bytes}
use whosecoin_core.Block.{Block, Store, deref}
use whosecoin_core.Block.Wire.{block_compute_seed}

module _ (crypto : Crypto) (st : Store) where
  abbrev seed_of : (List ℕ → Block) → Option ℕ → Run Block
  seed_of set none =
      let zeros = replicate (crypto_generichash_bytes + crypto_vrf_public_key_bytes) 0 in
      ok (set (crypto.generichash zeros))
  seed_of set (some a) =
      deref st a >>= λ p. ok (set (crypto.generichash (p.sortition_seed ++ p.public_key)))

  seed_of-same :
      (b c d : Block) (prev : Option ℕ)
      → seed_of (λ s. record b { sortition_seed = s }) prev ≡ ok d
      → seed_of (λ s. record c { sortition_seed = s }) prev
        ≡ ok (record c { sortition_seed = d.sortition_seed })
  seed_of-same b c d none run =
      ap (λ (d : Block). ok (record c { sortition_seed = d.sortition_seed }))
        (ok-injective refl run)
  seed_of-same b c d (some a) run =
      let (p, there, end) = >>=-ok (deref st a) _ run in
      rw there (
        ap (λ (d : Block). ok (record c { sortition_seed = d.sortition_seed }))
          (ok-injective refl end))

  pub block_compute_seed-same :
      (b c d : Block)
      → c.prev_block ≡ b.prev_block
      → block_compute_seed crypto st b ≡ ok d
      → block_compute_seed crypto st c ≡ ok (record c { sortition_seed = d.sortition_seed })
  unfolding block_compute_seed
  block_compute_seed-same b c d same run =
      subst
        (λ p.
          seed_of (λ s. record c { sortition_seed = s }) p
          ≡ ok (record c { sortition_seed = d.sortition_seed }))
        (sym same) (seed_of-same b c d b.prev_block run)
