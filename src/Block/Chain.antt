-- ===== src/Block/Chain.antt =====
-- The branch from a block to its root, as a relation, and the walks along it.
use whosecoin_core.Base.{
  ℕ, zero, suc, ◌<◌, ◌≡◌, refl, Bool, true, false, Option, none, some, List, [], ◌∷◌, arith, ◌==◌,
  if◌then◌else◌, length, Run, ok, Bool-cases, inl, inr,
}
use whosecoin_core.Block.{
  Account, null, account, Block, Store, deref, block_get_prev, block_get_account,
  block_has_ancestor, block_add_child,
}

-- A block with its address.
pub record Link : Type 0 where
  pub at : ℕ
  pub block : Block

-- `Chain st b links`: following the previous blocks from `b` visits the links, and ends at NULL.
pub data Chain (st : Store) : Option ℕ → List Link → Type 0 where
  root : Chain st none []
  link :
      {a : ℕ} {b : Block} {links : List Link}
      → deref st a ≡ ok b
      → Chain st b.prev_block links
      → Chain st (some a) (record { at = a; block = b } ∷ links)

-- The account of the key in the first block of the branch that records one.
abbrev pub account_in : List Link → List ℕ → Account
account_in [] key = null
account_in (l ∷ links) key = elim (l.block.accounts key) [
  | null ↦ account_in links key
  | account value prev block ↦ account value prev block
]

found_or :
    (m : Account) {x : Run Account} {y : Account}
    → x ≡ ok y
    → ◌≡◌ {A = Run Account}
        (elim m [ null ↦ x | account value prev block ↦ ok (account value prev block) ])
        (ok (elim m [ null ↦ y | account value prev block ↦ account value prev block ]))
found_or null e = e
found_or (account value prev block) e = refl

-- The search finds the account of the latest block that records the key, given a round for
-- each block and one for the end.
pub block_get_account-Chain :
    (st : Store) (b : Option ℕ) (links : List Link) (fuel : ℕ) (key : List ℕ)
    → Chain st b links
    → length links < fuel
    → block_get_account st fuel b key ≡ ok (account_in links key)
unfolding block_get_account
block_get_account-Chain st b links zero key c h = absurd (omega arith)
block_get_account-Chain st b links (suc fuel) key root h = refl
block_get_account-Chain st b links (suc fuel) key (link {b = blk} {links = rest} e c) h =
    let ih = block_get_account-Chain st blk.prev_block rest fuel key c (omega arith) in
    rw e (found_or (blk.accounts key) ih)

-- Whether a block of the branch has the address.
abbrev pub on_chain : ℕ → List Link → Bool
on_chain a [] = false
on_chain a (l ∷ links) = if l.at == a then true else on_chain a links

block_get_prev-link :
    (st : Store) (a : ℕ) (b : Block)
    → deref st a ≡ ok b
    → block_get_prev st (some a) ≡ ok b.prev_block
unfolding block_get_prev
block_get_prev-link st a b e = rw e

-- On a branch that ends at NULL, and with more rounds than it has blocks, a block is an ancestor
-- exactly if it stands on the branch.
pub block_has_ancestor-Chain :
    (st : Store) (b : Option ℕ) (links : List Link) (fuel c : ℕ)
    → Chain st b links
    → length links < fuel
    → block_has_ancestor st fuel b (some c) ≡ ok (on_chain c links)
unfolding block_has_ancestor
block_has_ancestor-Chain st b links zero c ch h = absurd (omega arith)
block_has_ancestor-Chain st b links (suc fuel) c root h = refl
block_has_ancestor-Chain st b links (suc fuel) c (link {a = a} {b = blk} {links = rest} e ch) h =
    let ih = block_has_ancestor-Chain st blk.prev_block rest fuel c ch (omega arith) in
    elim (Bool-cases (a == c)) [
      | inl same ↦ rw (same, block_has_ancestor)
      | inr other ↦ rw (other, block_has_ancestor) (rw (block_get_prev-link st a blk e) ih)
    ]

pub block_has_ancestor-null :
    (st : Store) (b : Option ℕ) (fuel : ℕ) → block_has_ancestor st (suc fuel) b none ≡ ok true
unfolding block_has_ancestor
block_has_ancestor-null st none fuel = refl
block_has_ancestor-null st (some a) fuel = refl

-- Adding a child leaves every branch as it was.
pub block_add_child-Chain :
    (st : Store) (block child : ℕ) {b : Option ℕ} {links : List Link}
    → Chain st b links
    → Chain (block_add_child st block child) b links
unfolding block_add_child deref
block_add_child-Chain st block child root = root
block_add_child-Chain st block child (link e c) = link e (block_add_child-Chain st block child c)
