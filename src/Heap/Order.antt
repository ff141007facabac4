-- ===== src/Heap/Order.antt =====
-- The order of the heap.
use mathlib.Core.List.{Perm}
use mathlib.Core.List.Perm
use whosecoin_core.Base.{ℕ, zero, suc, ◌≤◌, ◌<◌, ◌≡◌, List, arith, length, get_elem?-lt}
use whosecoin_core.Heap.{Heap, parent}
use whosecoin_core.Heap.Swap.{swap, length-swap, swap-Perm, key}
use whosecoin_core.Heap.Layout.{Holds}

pub size_of_swap :
    {A : Type 0} (xs : List A) (i j : ℕ)
    → i < length xs
    → j < length xs
    → length (swap xs i j) ≡ length xs
size_of_swap xs i j hi hj =
    let (x, at_i) = get_elem?-lt xs i hi in
    let (y, at_j) = get_elem?-lt xs j hj in length-swap xs i j x y at_i at_j

module _ {A : Type 0} (rank : A → ℕ) where
  -- No element has a lower rank than its parent.
  abbrev pub IsHeap : List A → Type 0
  IsHeap xs = (c : ℕ) → 0 < c → c < length xs → key rank xs (parent c) ≤ key rank xs c

  -- The ranks are in order from the parent of `i` to the children of `i`.
  abbrev pub IsBridged : List A → ℕ → Type 0
  IsBridged xs i =
      (c : ℕ)
      → 0 < c
      → c < length xs
      → parent c ≡ i
      → 0 < i
      → key rank xs (parent i) ≤ key rank xs c

  root_below :
      (k : ℕ) (xs : List A) (i : ℕ)
      → IsHeap xs
      → i < k
      → i < length xs
      → key rank xs 0 ≤ key rank xs i
  root_below zero xs i h f p = absurd (omega arith)
  root_below (suc k) xs i h f p = ground (arith, h i, root_below k xs (parent i) h)

  -- The first element has the least rank.
  pub root_least : (xs : List A) (i : ℕ) → IsHeap xs → i < length xs → key rank xs 0 ≤ key rank xs i
  root_least xs i h p = root_below (suc i) xs i h (omega arith) p

  -- The heap ends in order, with the elements of `xs`.
  abbrev pub Restored : List A → Heap A → Type 0
  Restored xs g = (ys : List A) × Holds g ys × IsHeap ys × Perm ys xs

  pub Restored-swap :
      (xs : List A) (i j : ℕ) (g : Heap A)
      → i < length xs
      → j < length xs
      → Restored (swap xs i j) g
      → Restored xs g
  Restored-swap xs i j g hi hj (ys, held, ordered, same) =
      let (x, at_i) = get_elem?-lt xs i hi in
      let (y, at_j) = get_elem?-lt xs j hj in
      (ys, held, ordered, Perm.trans same (swap-Perm xs i j x y at_i at_j))
