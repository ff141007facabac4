-- ===== src/Heap/Layout.antt =====
-- The heap's block of cells holds a list, and what its accesses do to the list.
use whosecoin_core.Base.{
  ℕ, zero, suc, ◌+◌, ◌<◌, ◌≡◌, refl, sym, ap, ◌∙◌, true, Option, some, List, [], ◌∷◌, ◌++◌, map,
  arith, ltb, ℤ, is_negative, length, get_elem?, set, length-set, get_elem?-lt, get_elem?-some→lt,
  ok, ◌>>=◌, Returns, or_abort,
}
use whosecoin_core.ArrayList.{read_cell, write_cell}
use whosecoin_core.ArrayList.Refines.{read_cell-layout, length-layout}
use whosecoin_core.Heap.{Heap, heap_get, swap_element, compare}
use whosecoin_core.Heap.Swap.{swap, swap-eq, length-swap, key, key-at}

module _ {A : Type 0} where
  -- The heap holds the list `xs`: its cells are those of `xs`, then spare ones, and the capacity
  -- counts them all.
  pub record Holds (h : Heap A) (xs : List A) : Type 0 where
    pub spare : List (Option A)
    pub layout : h.data_cells ≡ map some xs ++ spare
    pub counted : h.size ≡ length xs
    pub allocated : h.capacity ≡ length xs + length spare
    pub positive : 0 < h.capacity

  pub read_cell-at :
      (xs : List A) (spare : List (Option A)) (i : ℕ) (x : A)
      → get_elem? xs i ≡ some x
      → read_cell (map some xs ++ spare) i ≡ ok x
  read_cell-at xs spare i x at =
      read_cell-layout xs spare i (get_elem?-some→lt xs i x at) ∙ ap or_abort at

  set-layout :
      (xs : List A) (spare : List (Option A)) (i : ℕ) (x : A)
      → i < length xs
      → set (map some xs ++ spare) i (some x) ≡ map some (set xs i x) ++ spare
  set-layout [] spare i x h = absurd (omega arith)
  set-layout (y ∷ xs) spare zero x h = refl
  set-layout (y ∷ xs) spare (suc i) x h =
      ap (λ zs. some y ∷ zs) (set-layout xs spare i x (omega arith))

  pub write_cell-within :
      (xs : List A) (spare : List (Option A)) (i : ℕ) (x : A)
      → i < length xs
      → write_cell (map some xs ++ spare) i x ≡ ok (map some (set xs i x) ++ spare)
  unfolding write_cell
  write_cell-within xs spare i x h =
      let there : ltb i (length (map some xs ++ spare)) ≡ true =
        ground (arith, length-layout xs spare) in
      rw there (ap ok (set-layout xs spare i x h))

  module _ (h : Heap A) (xs : List A) (held : Holds h xs) where
    pub heap_get-Holds : (i : ℕ) (x : A) → get_elem? xs i ≡ some x → heap_get h i ≡ ok x
    unfolding heap_get
    heap_get-Holds i x at =
        let inside = get_elem?-some→lt xs i x at in
        let there : ltb i h.size ≡ true = ground (arith, held.counted) in
        rw (there, held.layout) (read_cell-at xs held.spare i x at)

    pub swap_element-Holds :
        (i j : ℕ)
        → i < length xs
        → j < length xs
        → Returns (swap_element h i j) λ g. Holds g (swap xs i j)
    unfolding swap_element
    swap_element-Holds i j hi hj =
        let (x, at_i) = get_elem?-lt xs i hi in
        let (y, at_j) = get_elem?-lt xs j hj in
        let same = length-swap xs i j x y at_i at_j in
        (
          record h { data_cells = map some (set (set xs i y) j x) ++ held.spare },
          rw (
            held.layout,
            read_cell-at xs held.spare i x at_i,
            ◌>>=◌,
            read_cell-at xs held.spare j y at_j,
            ◌>>=◌,
            write_cell-within xs held.spare i y hi,
            ◌>>=◌,
            write_cell-within (set xs i y) held.spare j x (omega (arith, length-set xs i y)),
          ),
          record {
            spare = held.spare;
            layout = ap (λ zs. map some zs ++ held.spare) (sym (swap-eq xs i j x y at_i at_j));
            counted = held.counted ∙ sym same;
            allocated = held.allocated ∙ ap (λ n. n + length held.spare) (sym same);
            positive = held.positive;
          },
        )

  -- The comparator orders the elements by a rank.
  abbrev pub IsRanked : (A → A → ℤ) → (A → ℕ) → Type 0
  IsRanked e_compare rank = (x y : A) → is_negative (e_compare x y) ≡ ltb (rank x) (rank y)

  pub compare-Holds :
      (e_compare : A → A → ℤ) (rank : A → ℕ) (h : Heap A) (xs : List A)
      → IsRanked e_compare rank
      → Holds h xs
      → (i j : ℕ) → i < length xs
      → j < length xs
      → Returns
          (compare e_compare h i j)
          λ order. is_negative order ≡ ltb (key rank xs i) (key rank xs j)
  unfolding compare
  compare-Holds e_compare rank h xs ranked held i j hi hj =
      let (x, at_i) = get_elem?-lt xs i hi in
      let (y, at_j) = get_elem?-lt xs j hj in
      (
        e_compare x y,
        rw (heap_get-Holds h xs held i x at_i, ◌>>=◌, heap_get-Holds h xs held j y at_j),
        rw (key-at rank xs i x at_i, key-at rank xs j y at_j) (ranked x y),
      )
