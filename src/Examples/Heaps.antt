-- ===== src/Examples/Heaps.antt =====
-- The heap of numbers at concrete inputs.
use mathlib.Core.List.{Perm}
use whosecoin_core.Base.{ℕ, zero, suc, ◌≤◌, ◌<◌, refl, arith, some, List, [], ◌∷◌, sub_ℕ, Returns}
use whosecoin_core.Heap.{Heap, heap_add, heap_pop, heap_remove}
use whosecoin_core.Heap.Swap.{key}
use whosecoin_core.Heap.Layout.{Holds, IsRanked}
use whosecoin_core.Heap.Order.{IsHeap}
use whosecoin_core.Heap.Add.{heap_add-Restored}
use whosecoin_core.Heap.Pop.{Taken, heap_pop-Restored}
use whosecoin_core.Heap.Remove.{heap_remove-Restored}

-- The comparator by the difference, and the number as its rank.
abbrev own : ℕ → ℕ
own n = n

sub_ℕ-IsRanked : IsRanked sub_ℕ own
sub_ℕ-IsRanked x y = ground arith

-- 1 at the top, 3 and 2 below it, in a block of three cells that is full.
abbrev three : Heap ℕ
three = record { data_cells = some 1 ∷ some 3 ∷ some 2 ∷ []; capacity = 3; size = 3 }

three-Holds : Holds three (1 ∷ 3 ∷ 2 ∷ [])
three-Holds = record {
  spare = [];
  layout = refl;
  counted = refl;
  allocated = refl;
  positive = omega arith;
}

three-IsHeap : IsHeap own (1 ∷ 3 ∷ 2 ∷ [])
three-IsHeap zero p q = absurd (omega arith)
three-IsHeap (suc zero) p q = omega arith
three-IsHeap (suc (suc zero)) p q = omega arith
three-IsHeap (suc (suc (suc c))) p q = absurd (omega arith)

heap_add-Restored_example :
    Returns
      (heap_add sub_ℕ three 0)
      λ g. (ys : List ℕ) × Holds g ys × IsHeap own ys × Perm ys (0 ∷ 1 ∷ 3 ∷ 2 ∷ [])
heap_add-Restored_example =
    heap_add-Restored sub_ℕ own sub_ℕ-IsRanked three (1 ∷ 3 ∷ 2 ∷ []) 0 three-Holds three-IsHeap

heap_pop-Restored_example :
    Returns (heap_pop sub_ℕ three) (Taken sub_ℕ own sub_ℕ-IsRanked 1 (1 ∷ 3 ∷ 2 ∷ []))
    × ((i : ℕ) → i < 3 → 1 ≤ key own (1 ∷ 3 ∷ 2 ∷ []) i)
heap_pop-Restored_example =
    heap_pop-Restored sub_ℕ own sub_ℕ-IsRanked three 1 (3 ∷ 2 ∷ []) three-Holds three-IsHeap

heap_remove-Restored_example :
    Returns (heap_remove sub_ℕ three 1) (Taken sub_ℕ own sub_ℕ-IsRanked 3 (1 ∷ 3 ∷ 2 ∷ []))
heap_remove-Restored_example =
    heap_remove-Restored sub_ℕ own sub_ℕ-IsRanked three (1 ∷ 3 ∷ 2 ∷ []) 1 3 three-Holds
      three-IsHeap refl
