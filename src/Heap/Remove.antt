-- ===== src/Heap/Remove.antt =====
-- util/heap.c: heap_remove takes the element at an index.
use mathlib.Core.Option.{some-injective}
use mathlib.Core.List.{Perm}
use mathlib.Core.List.Perm
use whosecoin_core.Base.{
  ℕ, zero, suc, ◌+◌, ◌<◌, ◌≡◌, refl, ap, true, some, List, [], ◌∷◌, subst, arith, ltb, ℤ, length,
  get_elem?, get_elem?-lt, get_elem?-some→lt, Returns, Returns-bind, Returns-map, Returns-if,
}
use whosecoin_core.Heap.{Heap, parent, move_to_top, heap_remove}
use whosecoin_core.Heap.Swap.{swap, get_elem?-swap, swap-Perm, key-swap}
use whosecoin_core.Heap.Layout.{Holds, IsRanked, swap_element-Holds}
use whosecoin_core.Heap.Order.{IsHeap, size_of_swap}
use whosecoin_core.Heap.Pop.{HoleInv, Taken, heap_pop-Taken, IsHeap-HoleInv}

starts_with :
    {A : Type 0} (xs : List A) (x : A) → get_elem? xs 0 ≡ some x → (zs : List A) × (xs ≡ x ∷ zs)
starts_with [] x at = absurd cc
starts_with (y ∷ zs) x at = (zs, ap (λ u. u ∷ zs) (some-injective _ _ at))

module _ {A : Type 0} (e_compare : A → A → ℤ) (rank : A → ℕ)
    (ranked : IsRanked e_compare rank) where
  swap-HoleInv :
      (xs : List A) (i : ℕ)
      → HoleInv e_compare rank ranked xs i
      → 0 < i
      → HoleInv e_compare rank ranked (swap xs (parent i) i) (parent i)
  swap-HoleInv xs i v pos =
      let above : parent i < length xs = omega (arith, v.inside) in
      let size = size_of_swap xs (parent i) i above v.inside in
      let at = key-swap rank xs (parent i) i above v.inside in
      record {
        inside = omega arith;
        edges = λ c p q t u. ground (arith, at c, at (parent c), v.edges c, v.bridged c);
        bridged = λ c p q r t.
            ground
              (arith, at c, at (parent (parent i)), v.edges c, v.edges (parent i), v.bridged c);
      }

  -- `move_to_top` brings the element to the top, and the rest is in order but for the top.
  move_to_top-HoleInv :
      (fuel : ℕ) (h : Heap A) (xs : List A) (i : ℕ) (x : A)
      → i < fuel
      → Holds h xs
      → HoleInv e_compare rank ranked xs i
      → get_elem? xs i ≡ some x
      → Returns (move_to_top fuel h i) λ g.
        (zs : List A) × Holds g (x ∷ zs)
        × HoleInv e_compare rank ranked (x ∷ zs) 0
        × Perm (x ∷ zs) xs
  unfolding move_to_top
  move_to_top-HoleInv zero h xs i x f held v at = absurd (omega arith)
  move_to_top-HoleInv (suc fuel) h xs i x f held v at =
      Returns-if (ltb 0 i)
        (λ pos.
          let above : parent i < length xs = omega (arith, v.inside) in
          let (y, at_p) = get_elem?-lt xs (parent i) above in
          Returns-bind (swap_element-Holds h xs held (parent i) i above v.inside) λ g swapped.
            Returns-map
              (move_to_top-HoleInv fuel g (swap xs (parent i) i) (parent i) x (ground arith) swapped
                (swap-HoleInv xs i v (ground arith))
                (get_elem?-swap xs (parent i) i y x at_p at (λ e. ground arith)))
              (λ k (zs, kept, hole, same).
                (zs, kept, hole, Perm.trans same (swap-Perm xs (parent i) i y x at_p at))))
        (λ root.
          let top : i ≡ 0 = ground arith in
          let (zs, e) = starts_with xs x (subst (λ j. get_elem? xs j ≡ some x) top at) in
          let hole =
            subst (λ ys. HoleInv e_compare rank ranked ys 0) e
              (subst (HoleInv e_compare rank ranked xs) top v) in
          (h, refl, (zs, subst (Holds h) e held, hole, subst (λ ys. Perm ys xs) e Perm.rfl)))

  -- Removing at an index of a heap in order gives the element there, and leaves a heap in order
  -- with the other elements, if the comparator orders the elements by a rank.
  pub heap_remove-Restored :
      (h : Heap A) (xs : List A) (i : ℕ) (x : A)
      → Holds h xs
      → IsHeap rank xs
      → get_elem? xs i ≡ some x
      → Returns (heap_remove e_compare h i) (Taken e_compare rank ranked x xs)
  unfolding heap_remove
  heap_remove-Restored h xs i x held ordered at =
      let inside = get_elem?-some→lt xs i x at in
      let there : ltb i h.size ≡ true = ground (arith, held.counted) in
      rw there (
        Returns-bind
          (move_to_top-HoleInv (i + 1) h xs i x (omega arith) held
            (IsHeap-HoleInv e_compare rank ranked xs i inside ordered) at)
          λ g (zs, kept, hole, same).
            Returns-map (heap_pop-Taken e_compare rank ranked g x zs kept hole)
              λ r (taken, (ys, shown, sorted, rest)).
                (taken, (ys, shown, sorted, Perm.trans rest same)))
