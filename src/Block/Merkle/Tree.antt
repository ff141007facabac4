-- ===== src/Block/Merkle/Tree.antt =====
-- The Merkle root is the root of a hash tree over the hashes in their order.
use whosecoin_core.Base.{
  ℕ, zero, suc, ◌+◌, ◌*◌, ◌≤◌, ◌<◌, ◌≡◌, refl, sym, subst, ap, ◌∙◌, true, false, some, List, [],
  ◌∷◌, ◌++◌, map, append_assoc, append-nil, arith, ltb, leb, ◌==◌, length, get_elem?, set,
  length-append, ok, ◌>>=◌, Returns, get_elem?-append,
}
use whosecoin_core.Crypto.{Crypto}
use whosecoin_core.Transaction.{Transaction}
use whosecoin_core.Block.Merkle.{
  Hashes, join_at, merkle_level, compute_merkle_root, first_hash, merkle_root_from_list,
}

-- A binary tree with hashes at its leaves, and its hash.
pub data HashTree : Type 0 where
  leaf : List ℕ → HashTree
  node : HashTree → HashTree → HashTree

abbrev pub leaves : HashTree → Hashes
leaves (leaf h) = h ∷ []
leaves (node s t) = leaves s ++ leaves t

abbrev pub root_of : Crypto → HashTree → List ℕ
root_of crypto (leaf h) = h
root_of crypto (node s t) = crypto.generichash (root_of crypto s ++ root_of crypto t)

-- One level of the tree: neighbours are joined, and a last odd one goes up as it is.
abbrev pub pair_up : List HashTree → List HashTree
pair_up [] = []
pair_up (t ∷ []) = t ∷ []
pair_up (s ∷ t ∷ ts) = node s t ∷ pair_up ts

abbrev pub all_leaves : List HashTree → Hashes
all_leaves [] = []
all_leaves (t ∷ ts) = leaves t ++ all_leaves ts

all_leaves-pair_up : (ts : List HashTree) → all_leaves (pair_up ts) ≡ all_leaves ts
all_leaves-pair_up [] = refl
all_leaves-pair_up (t ∷ []) = refl
all_leaves-pair_up (s ∷ t ∷ ts) =
    append_assoc (leaves s) (leaves t) (all_leaves (pair_up ts))
    ∙ ap (λ r. leaves s ++ (leaves t ++ r)) (all_leaves-pair_up ts)

-- A level has at most half as many trees, rounded up.
pair_up-halves : (ts : List HashTree) → length (pair_up ts) * 2 ≤ length ts + 1
pair_up-halves [] = omega arith
pair_up-halves (t ∷ []) = omega arith
pair_up-halves (s ∷ t ∷ ts) = omega (arith, pair_up-halves ts)

set-next :
    (done : Hashes) (old new : List ℕ) (rest : Hashes)
    → set (done ++ old ∷ rest) (length done) new ≡ (done ++ new ∷ []) ++ rest
set-next [] old new rest = refl
set-next (d ∷ done) old new rest = ap (d ∷◌) (set-next done old new rest)

-- The cells between the write and the next read after a round.
abbrev shift : Hashes → List ℕ → List ℕ → Hashes
shift [] x y = y ∷ []
shift (d ∷ ds) x y = ds ++ x ∷ y ∷ []

set-shift :
    (done junk : Hashes) (x y new : List ℕ) (rest : Hashes)
    → set (done ++ (junk ++ x ∷ y ∷ rest)) (length done) new
      ≡ (done ++ new ∷ []) ++ (shift junk x y ++ rest)
set-shift done [] x y new rest = set-next done x new (y ∷ rest)
set-shift done (d ∷ ds) x y new rest =
    set-next done d new (ds ++ x ∷ y ∷ rest)
    ∙ ap (λ r. (done ++ new ∷ []) ++ r) (sym (append_assoc ds (x ∷ y ∷ []) rest))

length-shift : (junk : Hashes) (x y : List ℕ) → length (shift junk x y) ≡ length junk + 1
length-shift [] x y = refl
length-shift (d ∷ ds) x y = omega (arith, length-append ds (x ∷ y ∷ []))

set-last :
    (done junk : Hashes) (x new : List ℕ) (tail : Hashes)
    → (spare : Hashes) × (set (done ++ (junk ++ x ∷ tail)) (length done) new
        ≡ (done ++ new ∷ []) ++ spare)
set-last done [] x new tail = (tail, set-next done x new tail)
set-last done (d ∷ ds) x new tail = (ds ++ x ∷ tail, set-next done d new (ds ++ x ∷ tail))

read-first :
    (done junk : Hashes) (x : List ℕ) (rest : Hashes)
    → get_elem? (done ++ (junk ++ x ∷ rest)) (length done + length junk) ≡ some x
read-first done junk x rest =
    rw (sym (append_assoc done junk (x ∷ rest)), sym (length-append done junk))
      (get_elem?-append (done ++ junk) x rest)

read-second :
    (done junk : Hashes) (x y : List ℕ) (rest : Hashes)
    → get_elem? (done ++ (junk ++ x ∷ y ∷ rest)) (length done + length junk + 1) ≡ some y
read-second done junk x y rest =
    let e : length done + length junk + 1 ≡ length done + length (junk ++ x ∷ []) =
      omega (arith, length-append junk (x ∷ [])) in
    rw (e, sym (append_assoc junk (x ∷ []) (y ∷ rest))) (read-first done (junk ++ x ∷ []) y rest)

module _ (crypto : Crypto) where
  join_at-last :
      (n i j : ℕ) (done junk : Hashes) (x : List ℕ) (tail : Hashes)
      → i ≡ length done
      → j ≡ i + length junk
      → n ≡ j + 1
      → join_at crypto n (done ++ (junk ++ x ∷ tail)) j ≡ ok x
  unfolding join_at
  join_at-last n i j done junk x tail ei ej en =
      let read = read-first done junk x tail in
      let at : j ≡ length done + length junk = omega arith in
      let last : (j + 1 == n) ≡ true = ground arith in rw last (rw (at, read))

  join_at-pair :
      (n i j : ℕ) (done junk : Hashes) (x y : List ℕ) (rest : Hashes)
      → i ≡ length done
      → j ≡ i + length junk
      → j + 1 < n
      → join_at crypto n (done ++ (junk ++ x ∷ y ∷ rest)) j ≡ ok (crypto.generichash (x ++ y))
  unfolding join_at
  join_at-pair n i j done junk x y rest ei ej en =
      let read = read-first done junk x (y ∷ rest) in
      let next = read-second done junk x y rest in
      let at : j ≡ length done + length junk = omega arith in
      let more : (j + 1 == n) ≡ false = ground arith in rw more (rw (at, read, ◌>>=◌, next))

  -- What one level leaves in the array: the hashes of the next level, then cells that are not
  -- read again.
  abbrev LevelDone : Hashes → List HashTree → Hashes × ℕ → Type 0
  LevelDone done rest r =
      ((spare : Hashes) × (r.0 ≡ done ++ (map (root_of crypto) (pair_up rest) ++ spare)))
      × (r.1 ≡ length done + length (pair_up rest))

  merkle_level-stop :
      (fuel n i j : ℕ) (hashes : Hashes)
      → 0 < fuel
      → n ≤ j
      → merkle_level fuel crypto n i j hashes ≡ ok (hashes, i)
  unfolding merkle_level
  merkle_level-stop zero n i j hashes h past = absurd (omega arith)
  merkle_level-stop (suc fuel) n i j hashes h past =
      let stop : ltb j n ≡ false = ground arith in rw (stop, merkle_level)

  merkle_level-step :
      (fuel n i j : ℕ) (hashes : Hashes) (v : List ℕ)
      → j < n
      → join_at crypto n hashes j ≡ ok v
      → merkle_level (suc fuel) crypto n i j hashes
        ≡ merkle_level fuel crypto n (i + 1) (j + 2) (set hashes i v)
  unfolding merkle_level
  merkle_level-step fuel n i j hashes v h e =
      let go : ltb j n ≡ true = ground arith in rw (go, merkle_level) (rw e)

  merkle_level-pairs :
      (fuel n i j : ℕ) (done junk : Hashes) (rest : List HashTree) (tail : Hashes)
      → i ≡ length done
      → j ≡ i + length junk
      → n ≡ j + length rest
      → length rest < fuel
      → Returns
          (merkle_level fuel crypto n i j (done ++ (junk ++ (map (root_of crypto) rest ++ tail))))
          (LevelDone done rest)
  unfolding merkle_level
  merkle_level-pairs zero n i j done junk rest tail ei ej en h = absurd (omega arith)
  merkle_level-pairs (suc fuel) n i j done junk [] tail ei ej en h =
      let stop =
        merkle_level-stop (suc fuel) n i j (done ++ (junk ++ tail)) (omega arith) (omega arith) in
      (_, stop, ((junk ++ tail, refl), omega arith))
  merkle_level-pairs (suc fuel) n i j done junk (t ∷ []) tail ei ej en h =
      let x = root_of crypto t in
      let cells = done ++ (junk ++ x ∷ tail) in
      let (spare, last) = set-last done junk x x tail in
      let step =
        merkle_level-step fuel n i j cells x (omega arith)
          (join_at-last n i j done junk x tail ei ej en) in
      let stop =
        merkle_level-stop fuel n (i + 1) (j + 2) (set cells i x) (omega arith) (omega arith) in
      let left = ap (λ k. set cells k x) ei ∙ last ∙ append_assoc done (x ∷ []) spare in
      (_, step ∙ stop, ((spare, left), omega arith))
  merkle_level-pairs (suc fuel) n i j done junk (s ∷ t ∷ ts) tail ei ej en h =
      let x = root_of crypto s in
      let y = root_of crypto t in
      let v = crypto.generichash (x ++ y) in
      let rest = map (root_of crypto) ts ++ tail in
      let cells = done ++ (junk ++ x ∷ y ∷ rest) in
      let grown = length-append done (v ∷ []) in
      let (r, run, ((spare, left), count)) =
        merkle_level-pairs fuel n (i + 1) (j + 2) (done ++ v ∷ []) (shift junk x y) ts tail
          (omega (arith, grown)) (omega (arith, length-shift junk x y)) (omega arith)
          (omega arith) in
      let step =
        merkle_level-step fuel n i j cells v (omega arith)
          (join_at-pair n i j done junk x y rest ei ej (omega arith)) in
      let moved = ap (λ k. set cells k v) ei ∙ set-shift done junk x y v rest in
      (
        r,
        step ∙ ap (merkle_level fuel crypto n (i + 1) (j + 2)) moved ∙ run,
        ((spare, left ∙ append_assoc done (v ∷ []) _), omega (arith, grown, count)),
      )

  compute_merkle_root-step :
      (fuel n : ℕ) (hashes : Hashes) (r : Hashes × ℕ)
      → 1 < n
      → merkle_level (n + 1) crypto n 0 0 hashes ≡ ok r
      → compute_merkle_root (suc fuel) crypto hashes n ≡ compute_merkle_root fuel crypto r.0 r.1
  unfolding compute_merkle_root
  compute_merkle_root-step fuel n hashes r h run =
      let more : leb n 1 ≡ false = ground arith in rw (more, compute_merkle_root) (rw run)

  -- Every hash of a block stands in one tree, in order; the rounds that remain are more than
  -- the number of trees.
  compute_merkle_root-tree :
      (fuel : ℕ) (t : HashTree) (ts : List HashTree) (spare : Hashes)
      → suc (length ts) < fuel
      → Returns
          (compute_merkle_root fuel crypto
            (map (root_of crypto) (t ∷ ts) ++ spare)
            (suc (length ts)))
          λ hashes.
            (tree : HashTree) × (leaves tree ≡ all_leaves (t ∷ ts))
            × (get_elem? hashes 0 ≡ some (root_of crypto tree))
  unfolding compute_merkle_root
  compute_merkle_root-tree zero t ts spare h = absurd (omega arith)
  compute_merkle_root-tree (suc fuel) t [] spare h =
      (_, refl, (t, sym (append-nil (leaves t)), refl))
  compute_merkle_root-tree (suc fuel) s (t ∷ ts) spare h =
      let all = s ∷ t ∷ ts in
      let next = pair_up ts in
      let (r, run, ((left, cells), count)) =
        merkle_level-pairs (length all + 1) (length all) 0 0 [] [] all spare refl refl (omega arith)
          (omega arith) in
      let halves = pair_up-halves ts in
      let (hashes, run', (tree, same, top)) =
        compute_merkle_root-tree fuel (node s t) next left (omega arith) in
      let step =
        compute_merkle_root-step fuel (length all) (map (root_of crypto) all ++ spare) r
          (omega arith) run in
      let counted : r.1 ≡ suc (length next) = omega (arith, count) in
      (
        hashes,
        step
            ∙ ap (compute_merkle_root fuel crypto r.0) counted
            ∙ ap (λ c. compute_merkle_root fuel crypto c (suc (length next))) cells
            ∙ run',
        (tree, same ∙ all_leaves-pair_up all, top),
      )

all_leaves-leaf : (hs : Hashes) → all_leaves (map leaf hs) ≡ hs
all_leaves-leaf [] = refl
all_leaves-leaf (h ∷ hs) = ap (h ∷◌) (all_leaves-leaf hs)

root_of-leaf : (crypto : Crypto) (hs : Hashes) → map (root_of crypto) (map leaf hs) ++ [] ≡ hs
root_of-leaf crypto [] = refl
root_of-leaf crypto (h ∷ hs) = ap (h ∷◌) (root_of-leaf crypto hs)

length-leaf : (hs : Hashes) → length (map leaf hs) ≡ length hs
length-leaf [] = refl
length-leaf (h ∷ hs) = ap suc (length-leaf hs)

length-hashes : (txns : List Transaction) → length (map (λ t. t.hash) txns) ≡ length txns
length-hashes [] = refl
length-hashes (t ∷ ts) = ap suc (length-hashes ts)

-- The Merkle root of a list of one or more transactions is the hash of a tree whose leaves are the
-- hashes of these transactions in their order.
pub merkle_root_from_list-tree :
    (crypto : Crypto) (txn : Transaction) (txns : List Transaction)
    → (tree : HashTree) × (merkle_root_from_list crypto (txn ∷ txns) ≡ ok (root_of crypto tree))
      × (leaves tree ≡ map (λ t. t.hash) (txn ∷ txns))
unfolding merkle_root_from_list first_hash
merkle_root_from_list-tree crypto txn txns =
    let hs = map (λ t. t.hash) txns in
    let counted = length-leaf hs ∙ length-hashes txns in
    let (hashes, run, (tree, same, top)) =
      compute_merkle_root-tree crypto (suc (length txns) + 1) (leaf txn.hash) (map leaf hs) []
        (omega (arith, counted)) in
    let run' : compute_merkle_root (suc (length txns) + 1) crypto (txn.hash ∷ hs)
          (suc (length txns))
        ≡ ok hashes =
      subst
        (λ c.
          compute_merkle_root (suc (length txns) + 1) crypto (txn.hash ∷ c) (suc (length txns))
          ≡ ok hashes)
        (root_of-leaf crypto hs)
        (subst
          (λ n.
            compute_merkle_root (suc (length txns) + 1) crypto
              (txn.hash ∷ (map (root_of crypto) (map leaf hs) ++ [])) (suc n)
            ≡ ok hashes)
          counted run) in
    let some_hash : ltb 0 (suc (length txns)) ≡ true = ground arith in
    (tree, rw (run', ◌>>=◌, some_hash) (rw top), same ∙ ap (txn.hash ∷◌) (all_leaves-leaf hs))
