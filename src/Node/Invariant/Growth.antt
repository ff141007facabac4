-- ===== src/Node/Invariant/Growth.antt =====
-- The store of a node that creates a block, or frees the one that it has just created, keeps the
-- blocks that were there, and with them the branches and the tree.
use whosecoin_core.Base.{
  ℕ, zero, suc, ◌≡◌, ◌≢◌, ap, ◌∙◌, arith, Option, none, some, List, [], ◌∷◌, ◌++◌, length,
  get_elem?, get_elem?-set, get_elem?-append, get_elem?-some→lt, ok, >>=-ok, or_fault,
}
use whosecoin_core.Block.{Block, Store, deref}
use whosecoin_core.Block.Chain.{Link, Chain, root, link}
use whosecoin_core.Blockchain.{Blockchain, block_destroy}
use whosecoin_core.Blockchain.Tree.{IsTree}
use whosecoin_core.Node.{next_address, allocate}

or_fault-ok : {A : Type 0} (found : Option A) {x : A} → or_fault found ≡ ok x → found ≡ some x
or_fault-ok none e = absurd cc
or_fault-ok (some y) e = cc

deref-some :
    (st : Store) (a : ℕ) (b : Block) → deref st a ≡ ok b → get_elem? st.blocks a ≡ some (some b)
unfolding deref
deref-some st a b e =
    let (found, r0, e0) = >>=-ok (or_fault (get_elem? st.blocks a)) _ e in
    or_fault-ok (get_elem? st.blocks a) r0 ∙ ap some (or_fault-ok found e0)

get_elem?-longer :
    {A : Type 0} (xs : List A) (i : ℕ) (y x : A)
    → get_elem? xs i ≡ some x
    → get_elem? (xs ++ y ∷ []) i ≡ some x
get_elem?-longer [] i y x e = absurd cc
get_elem?-longer (z ∷ xs) zero y x e = e
get_elem?-longer (z ∷ xs) (suc i) y x e = get_elem?-longer xs i y x e

-- What the first store has at an address, the second has.
abbrev pub Keeps : Store → Store → Type 0
Keeps st st' = (a : ℕ) (b : Block) → deref st a ≡ ok b → deref st' a ≡ ok b

pub allocate-Keeps : (st : Store) (new : Block) → Keeps st (allocate st new)
unfolding allocate deref
allocate-Keeps st new a b e =
    rw (get_elem?-longer st.blocks a (some new) (some b) (deref-some st a b e))

pub deref-allocate : (st : Store) (new : Block) → deref (allocate st new) (next_address st) ≡ ok new
unfolding allocate deref next_address
deref-allocate st new = rw (get_elem?-append st.blocks (some new) [])

-- The block that is freed is the one that was just created.
pub block_destroy-Keeps :
    (st : Store) (new : Block) → Keeps st (block_destroy (allocate st new) (next_address st))
unfolding allocate deref next_address block_destroy
block_destroy-Keeps st new a b e =
    let there = deref-some st a b e in
    let below = get_elem?-some→lt st.blocks a (some b) there in
    let apart : length st.blocks ≢ a = λ same. absurd (omega arith) in
    rw (
      get_elem?-set (st.blocks ++ some new ∷ []) (length st.blocks) a none apart,
      get_elem?-longer st.blocks a (some new) (some b) there,
    )

pub Chain-Keeps :
    {st st' : Store} {at : Option ℕ} {links : List Link}
    → Keeps st st'
    → Chain st at links
    → Chain st' at links
Chain-Keeps keeps root = root
Chain-Keeps keeps (link {a} {b} e c) = link (keeps a b e) (Chain-Keeps keeps c)

pub IsTree-Keeps : {st st' : Store} {bc : Blockchain} → Keeps st st' → IsTree st bc → IsTree st' bc
IsTree-Keeps {bc} keeps tree = record {
  principal_links = tree.principal_links;
  principal_chain = Chain-Keeps keeps tree.principal_chain;
  indexed = λ h a at.
      let (b, links, there, key, c) = tree.indexed h a at in
      (b, links, keeps a b there, key, Chain-Keeps keeps c);
  rooted = tree.rooted;
}
