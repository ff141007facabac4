-- ===== src/Heap/Add.antt =====
-- util/heap.c: heap_create gives an empty heap, and heap_add keeps the order.
use mathlib.Core.List.{Perm, perm_middle}
use mathlib.Core.List.Perm
use whosecoin_core.Base.{
  ℕ, ◌+◌, ◌*◌, ◌<◌, ◌≡◌, refl, sym, inl, inr, Option, none, some, List, [], ◌∷◌, ◌++◌, map, arith,
  ◌==◌, ℤ, length, length-append, append-nil, ◌>>=◌, Returns, Returns-bind, Returns-map, Bool-cases,
  replicate,
}
use whosecoin_core.ArrayList.{write_cell}
use whosecoin_core.ArrayList.Refines.{write_cell-end, realloc-layout}
use whosecoin_core.Heap.{Heap, parent, heap_create, shift_up, heap_add}
use whosecoin_core.Heap.Swap.{key-append}
use whosecoin_core.Heap.Layout.{Holds, IsRanked}
use whosecoin_core.Heap.Order.{IsHeap, Restored}
use whosecoin_core.Heap.Up.{UpInv, shift_up-Restored}

pub heap_create-Holds : {A : Type 0} → Holds (heap_create {A = A}) []
unfolding heap_create
heap_create-Holds = record {
  spare = replicate 4 none;
  layout = refl;
  counted = refl;
  allocated = refl;
  positive = omega arith;
}

pub append_last-Perm : {A : Type 0} (xs : List A) (e : A) → Perm (xs ++ e ∷ []) (e ∷ xs)
append_last-Perm xs e = rw (append-nil xs) at (perm_middle {a = e} xs [])

module _ {A : Type 0} (e_compare : A → A → ℤ) (rank : A → ℕ)
    (ranked : IsRanked e_compare rank) where
  append-UpInv :
      (xs : List A) (e : A)
      → IsHeap rank xs
      → UpInv e_compare rank ranked (xs ++ e ∷ []) (length xs)
  append-UpInv xs e ordered =
      let size = length-append xs (e ∷ []) in
      record {
        inside = omega arith;
        edges = λ c p q t. ground (
          arith,
          ordered c,
          key-append rank xs (e ∷ []) c,
          key-append rank xs (e ∷ []) (parent c),
        );
        bridged = λ c p q r t. absurd (omega arith);
      }

  -- From the write on, into a block with a spare cell.
  write_up-Restored :
      (xs : List A) (spare : List (Option A)) (capacity : ℕ) (e : A)
      → capacity ≡ length xs + length spare
      → 0 < length spare
      → IsHeap rank xs
      → Returns
          (write_cell (map some xs ++ spare) (length xs) e >>= λ written.
            shift_up e_compare
              (length xs + 1)
              (record { data_cells = written; capacity = capacity; size = length xs + 1 })
              (length xs))
          (Restored rank (xs ++ e ∷ []))
  write_up-Restored xs spare capacity e allocated room ordered =
      Returns-bind (write_cell-end xs spare e room) λ cells (rest, layout, less).
        shift_up-Restored e_compare rank ranked (length xs + 1) _ (xs ++ e ∷ []) (length xs)
          (omega arith)
          (record {
            spare = rest;
            layout = layout;
            counted = sym (length-append xs (e ∷ []));
            allocated = omega (arith, length-append xs (e ∷ []));
            positive = omega arith;
          })
          (append-UpInv xs e ordered)

  -- Adding an element to a heap in order returns a heap in order that has it besides its own,
  -- whether or not the block has to grow, if the comparator orders the elements by a rank.
  pub heap_add-Restored :
      (h : Heap A) (xs : List A) (e : A)
      → Holds h xs
      → IsHeap rank xs
      → Returns
          (heap_add e_compare h e)
          λ g. (ys : List A) × Holds g ys × IsHeap rank ys × Perm ys (e ∷ xs)
  unfolding heap_add
  heap_add-Restored h xs e held ordered =
      Returns-map {P = Restored rank (xs ++ e ∷ [])}
        (elim (Bool-cases (h.size == h.capacity)) [
          | inl full ↦
              let full' : h.size ≡ h.capacity = ground arith in
              let (rest, grown, size) =
                realloc-layout xs held.spare (h.capacity * 2) (omega (arith, held.counted)) in
              rw (full, held.layout, grown, held.counted)
                (write_up-Restored xs rest (h.capacity * 2) e (sym size)
                  (omega (arith, held.counted, held.positive)) ordered)
          | inr room ↦
              let space : 0 < length held.spare = ground (arith, held.counted, held.allocated) in
              rw (room, held.layout, held.counted)
                (write_up-Restored xs held.spare h.capacity e held.allocated space ordered)
        ])
        (λ g (ys, kept, sorted, same). (ys, kept, sorted, Perm.trans same (append_last-Perm xs e)))
