-- ===== src/Heap/Pop.antt =====
-- util/heap.c: heap_pop takes the least element.
use mathlib.Core.List.{Perm}
use mathlib.Core.List.Perm
use whosecoin_core.Base.{
  ℕ, zero, suc, ◌-◌, ◌≤◌, ◌<◌, ◌≡◌, ◌≢◌, refl, sym, ap, ◌∙◌, false, Option, some, List, [], ◌∷◌,
  ◌++◌, ◌⊎◌, inl, inr, subst, map, arith, ◌==◌, ℤ, length, length-append, get_elem?,
  get_elem?-append, ◌>>=◌, Returns, Returns-bind,
}
use whosecoin_core.Heap.{
  Heap, parent, swap_element, move_to_top, least_child, shift_down, heap_size, heap_pop,
  heap_remove,
}
use whosecoin_core.Heap.Swap.{key, key-append}
use whosecoin_core.Heap.Layout.{Holds, IsRanked, read_cell-at, write_cell-within}
use whosecoin_core.Heap.Add.{append_last-Perm}
use whosecoin_core.Heap.Order.{IsHeap, IsBridged, root_least}
use whosecoin_core.Heap.Down.{DownInv, shift_down-Restored}

-- A list is empty or ends with an element.
end_of :
    {A : Type 0} (xs : List A)
    → (xs ≡ []) ⊎ ((init : List A) × (last : A) × (xs ≡ init ++ last ∷ []))
end_of [] = inl refl
end_of (x ∷ xs) = elim (end_of xs) [
  | inl e ↦ inr ([], x, ap (λ zs. x ∷ zs) e)
  | inr (init, last, e) ↦ inr (x ∷ init, last, ap (λ zs. x ∷ zs) e)
]

module _ {A : Type 0} (e_compare : A → A → ℤ) (rank : A → ℕ)
    (ranked : IsRanked e_compare rank) where
  -- Only edges at `i` may be out of order, and its neighbours are in order.
  pub record HoleInv (xs : List A) (i : ℕ) : Type 0 where
    pub inside : i < length xs
    pub edges :
        (c : ℕ)
        → 0 < c
        → c < length xs
        → c ≢ i
        → parent c ≢ i
        → key rank xs (parent c) ≤ key rank xs c
    pub bridged : IsBridged rank xs i

  -- The element is taken out, the rest is in order, and nothing else is lost or added.
  abbrev pub Taken : A → List A → Option A × Heap A → Type 0
  Taken x xs r = (r.0 ≡ some x) × ((ys : List A) × Holds r.1 ys × IsHeap rank ys × Perm (x ∷ ys) xs)

  layout-last :
      (mid : List A) (last : A) (spare : List (Option A))
      → map some (mid ++ last ∷ []) ++ spare ≡ map some mid ++ some last ∷ spare
  layout-last [] last spare = refl
  layout-last (x ∷ mid) last spare = ap (λ cells. some x ∷ cells) (layout-last mid last spare)

  key-dropped :
      (x last : A) (mid : List A) (c : ℕ)
      → 0 < c
      → c < length (last ∷ mid)
      → key rank (last ∷ mid) c ≡ key rank (x ∷ (mid ++ last ∷ [])) c
  key-dropped x last mid zero p q = absurd (omega arith)
  key-dropped x last mid (suc c) p q = sym (key-append rank mid (last ∷ []) c (omega arith))

  dropped-DownInv :
      (x last : A) (mid : List A)
      → HoleInv (x ∷ (mid ++ last ∷ [])) 0
      → DownInv e_compare rank ranked (last ∷ mid) 0
  dropped-DownInv x last mid h =
      let size = length-append mid (last ∷ []) in
      record {
        inside = omega arith;
        edges = λ c p q t.
            ground (arith, h.edges c, key-dropped x last mid c, key-dropped x last mid (parent c));
        bridged = λ c p q r t. absurd (omega arith);
      }

  dropped-Perm : (x last : A) (mid : List A) → Perm (x ∷ (last ∷ mid)) (x ∷ (mid ++ last ∷ []))
  dropped-Perm x last mid = Perm.cons x (Perm.symm (append_last-Perm mid last))

  pop_one-Taken :
      (h : Heap A) (x : A) → Holds h (x ∷ []) → Returns (heap_pop e_compare h) (Taken x (x ∷ []))
  unfolding heap_pop shift_down whosecoin_core.Heap.heap_size least_child
  pop_one-Taken h x held = (
    (some x, record h { data_cells = some x ∷ held.spare; size = 0 }),
    rw
        (
          held.counted,
          held.layout,
          read_cell-at (x ∷ []) held.spare 0 x refl,
          ◌>>=◌,
          write_cell-within (x ∷ []) held.spare 0 x (omega arith),
        )
        refl,
    (
      refl,
      (
        [],
        record {
          spare = some x ∷ held.spare;
          layout = refl;
          counted = refl;
          allocated = omega (arith, held.allocated);
          positive = held.positive;
        },
        (λ c p q. absurd (omega arith)),
        Perm.rfl,
      ),
    ),
  )

  pop_more-Taken :
      (h : Heap A) (x last : A) (mid : List A)
      → Holds h (x ∷ (mid ++ last ∷ []))
      → HoleInv (x ∷ (mid ++ last ∷ [])) 0
      → Returns (heap_pop e_compare h) (Taken x (x ∷ (mid ++ last ∷ [])))
  unfolding heap_pop whosecoin_core.Heap.heap_size
  pop_more-Taken h x last mid held hole =
      let xs = x ∷ (mid ++ last ∷ []) in
      let n = length-append mid (last ∷ []) in
      let some_left : (h.size == 0) ≡ false = ground (arith, held.counted) in
      let at : h.size - 1 ≡ length (x ∷ mid) = omega (arith, held.counted) in
      let g : Heap A = record {
        data_cells = map some (last ∷ mid) ++ some last ∷ held.spare;
        capacity = h.capacity;
        size = h.size - 1;
      } in
      let kept : Holds g (last ∷ mid) = record {
        spare = some last ∷ held.spare;
        layout = refl;
        counted = at;
        allocated = omega (arith, held.allocated);
        positive = held.positive;
      } in
      let at_last : get_elem? xs (h.size - 1) ≡ some last =
        ap (get_elem? xs) at ∙ get_elem?-append (x ∷ mid) last [] in
      let shifted =
        shift_down-Restored e_compare rank ranked h.size g (last ∷ mid) 0 (omega arith) kept
          (dropped-DownInv x last mid hole) in
      rw
        (
          some_left,
          heap_pop,
          held.layout,
          read_cell-at xs held.spare 0 x refl,
          ◌>>=◌,
          read_cell-at xs held.spare (h.size - 1) last at_last,
          ◌>>=◌,
          write_cell-within xs held.spare 0 last (omega arith),
          ◌>>=◌,
          layout-last mid last held.spare,
        )
        (Returns-bind shifted λ k (ys, shown, ordered, same). (
          (some x, k),
          refl,
          (refl, (ys, shown, ordered, Perm.trans (Perm.cons x same) (dropped-Perm x last mid))),
        ))

  pub heap_pop-Taken :
      (h : Heap A) (x : A) (xs : List A)
      → Holds h (x ∷ xs)
      → HoleInv (x ∷ xs) 0
      → Returns (heap_pop e_compare h) (Taken x (x ∷ xs))
  heap_pop-Taken h x xs held hole = elim (end_of xs) [
    | inl e ↦
        subst (λ zs. Returns (heap_pop e_compare h) (Taken x (x ∷ zs))) (sym e)
          (pop_one-Taken h x (subst (λ zs. Holds h (x ∷ zs)) e held))
    | inr (mid, last, e) ↦
        subst (λ zs. Returns (heap_pop e_compare h) (Taken x (x ∷ zs))) (sym e)
          (pop_more-Taken h x last mid (subst (λ zs. Holds h (x ∷ zs)) e held)
            (subst (λ zs. HoleInv (x ∷ zs) 0) e hole))
  ]

  pub IsHeap-HoleInv : (xs : List A) (i : ℕ) → i < length xs → IsHeap rank xs → HoleInv xs i
  IsHeap-HoleInv xs i h ordered = record {
    inside = h;
    edges = λ c p q t u. ordered c p q;
    bridged = λ c p q r t. ground (arith, ordered c, ordered (parent c));
  }

  -- Popping a heap in order that is not empty gives its first element, than which no element of
  -- the heap has a lower rank, and leaves a heap in order with the other elements, if the
  -- comparator orders the elements by a rank.
  pub heap_pop-Restored :
      (h : Heap A) (x : A) (xs : List A)
      → Holds h (x ∷ xs)
      → IsHeap rank (x ∷ xs)
      → Returns (heap_pop e_compare h) (Taken x (x ∷ xs))
        × ((i : ℕ) → i < length (x ∷ xs) → rank x ≤ key rank (x ∷ xs) i)
  heap_pop-Restored h x xs held ordered = (
    heap_pop-Taken h x xs held (IsHeap-HoleInv (x ∷ xs) 0 (omega arith) ordered),
    λ i p. root_least rank (x ∷ xs) i ordered p,
  )
