-- ===== src/Block/Read/Stages.antt =====
-- What the runs that read a block have done: its hash, its seed, its sortition, its transactions.
use whosecoin_core.Base.{
  ℕ, suc, ◌≡◌, refl, sym, ap, ◌∙◌, Option, none, some, List, [], ◌∷◌, map, length, ok, >>=-ok,
  ok-injective, Option-cases, inl, inr,
}
use mathlib.Core.Option.{some-injective}
use whosecoin_core.Buffer.{Buffer, dynamic_buffer_create, contents}
use whosecoin_core.Crypto.{Crypto}
use whosecoin_core.Transaction.{Transaction}
use whosecoin_core.Block.{Block, Store}
use whosecoin_core.Block.Wire.{write_header, compute_hash, block_compute_seed}
use whosecoin_core.Block.Create.{delegate_priority}
use whosecoin_core.Block.Read.{all_present, verify_sortition}
use whosecoin_core.Block.Read.Drawn.{block_compute_seed-IsSeeded}

module _ (crypto : Crypto) where
  pub compute_hash-ok :
      (st : Store) (b : Block) (n : ℕ) {h : Block}
      → compute_hash crypto st b n ≡ ok h
      → (x : List ℕ) × (h ≡ record b { hash = x })
  unfolding compute_hash
  compute_hash-ok st b n run =
      let (buf, written, rest) = >>=-ok (write_header st b n (dynamic_buffer_create 256)) _ run in
      let (bytes, read, end) = >>=-ok (contents buf) _ rest in
      (crypto.generichash bytes, ok-injective refl (sym end))

  pub block_compute_seed-ok :
      (st : Store) (b : Block) {s : Block}
      → block_compute_seed crypto st b ≡ ok s
      → (x : List ℕ) × (s ≡ record b { sortition_seed = x })
  block_compute_seed-ok st b run =
      let (x, eq, seeded) = block_compute_seed-IsSeeded crypto st b run in (x, eq)

  -- The list of transactions that are all there.
  pub all_present-map :
      (found : List (Option Transaction)) (present : List Transaction)
      → all_present crypto found ≡ ok present
      → found ≡ map some present
  unfolding all_present
  all_present-map [] present there = ap (map some) (ok-injective refl there)
  all_present-map (none ∷ rest) present there = absurd cc
  all_present-map (some t ∷ rest) present there =
      let (ts, tail, end) = >>=-ok (all_present crypto rest) _ there in
      ap (some t ∷◌) (all_present-map rest ts tail) ∙ ap (map some) (ok-injective refl end)

  pub length-present : (txns : List Transaction) → length (map some txns) ≡ length txns
  length-present [] = refl
  length-present (txn ∷ txns) = ap suc (length-present txns)

  pub verify_sortition-some :
      (b : Block) {drawn : Block}
      → verify_sortition crypto b ≡ some drawn
      → (output : List ℕ) × (crypto.vrf_verify b.public_key b.sortition_proof b.sortition_seed
          ≡ some output)
        × (drawn ≡ record b {
          sortition_hash = output;
          sortition_priority = delegate_priority crypto output b.delegate;
        })
  unfolding verify_sortition
  verify_sortition-some b e =
      elim (Option-cases (crypto.vrf_verify b.public_key b.sortition_proof b.sortition_seed)) [
        | inl fails ↦ let f = rw (fails, verify_sortition) at e in absurd cc
        | inr (output, verifies) ↦
            (output, verifies, some-injective _ _ (sym (rw (verifies, verify_sortition) at e)))
      ]

  -- The hash is that of the header, with the number of transactions, and nothing else of the block
  -- has been changed.
  pub compute_hash-IsHashed :
      (st : Store) (b : Block) (n : ℕ) {h : Block}
      → compute_hash crypto st b n ≡ ok h
      → (x : List ℕ) × (h ≡ record b { hash = x })
        × ((buf : Buffer) × (bytes : List ℕ) × (write_header st b n (dynamic_buffer_create 256)
              ≡ ok buf)
            × (contents buf ≡ ok bytes)
            × (x ≡ crypto.generichash bytes))
  unfolding compute_hash
  compute_hash-IsHashed st b n run =
      let (buf, written, rest) = >>=-ok (write_header st b n (dynamic_buffer_create 256)) _ run in
      let (bytes, read, end) = >>=-ok (contents buf) _ rest in
      (crypto.generichash bytes, ok-injective refl (sym end), (buf, bytes, written, read, refl))
