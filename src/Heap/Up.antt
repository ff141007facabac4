-- ===== src/Heap/Up.antt =====
-- util/heap.c: shift_up puts a new last element in its place.
use mathlib.Core.List.Perm
use whosecoin_core.Base.{
  ℕ, zero, suc, ◌≤◌, ◌<◌, ◌≢◌, refl, List, arith, ltb, ℤ, is_negative, length, Returns,
  Returns-bind, Returns-map, Returns-if,
}
use whosecoin_core.Heap.{Heap, parent, shift_up}
use whosecoin_core.Heap.Swap.{swap, key, key-swap}
use whosecoin_core.Heap.Layout.{Holds, IsRanked, swap_element-Holds, compare-Holds}
use whosecoin_core.Heap.Order.{IsBridged, Restored, Restored-swap, size_of_swap}

module _ {A : Type 0} (e_compare : A → A → ℤ) (rank : A → ℕ)
    (ranked : IsRanked e_compare rank) where
  -- Only the element at `i` may be too far down.
  pub record UpInv (xs : List A) (i : ℕ) : Type 0 where
    pub inside : i < length xs
    pub edges : (c : ℕ) → 0 < c → c < length xs → c ≢ i → key rank xs (parent c) ≤ key rank xs c
    pub bridged : IsBridged rank xs i

  swap-UpInv :
      (xs : List A) (i : ℕ)
      → UpInv xs i
      → 0 < i
      → key rank xs i < key rank xs (parent i)
      → UpInv (swap xs (parent i) i) (parent i)
  swap-UpInv xs i v pos below =
      let above : parent i < length xs = omega (arith, v.inside) in
      let size = size_of_swap xs (parent i) i above v.inside in
      let at = key-swap rank xs (parent i) i above v.inside in
      record {
        inside = omega arith;
        edges = λ c p q t.
            ground (arith, at c, at (parent c), v.edges c, v.edges (parent i), v.bridged c);
        bridged = λ c p q r t.
            ground (arith, at c, at (parent (parent i)), v.edges c, v.edges (parent i));
      }

  pub shift_up-Restored :
      (fuel : ℕ) (h : Heap A) (xs : List A) (i : ℕ)
      → i < fuel
      → Holds h xs
      → UpInv xs i
      → Returns (shift_up e_compare fuel h i) (Restored rank xs)
  unfolding shift_up
  shift_up-Restored zero h xs i f held v = absurd (omega arith)
  shift_up-Restored (suc fuel) h xs i f held v =
      Returns-if (ltb 0 i)
        (λ pos.
          let above : parent i < length xs = omega (arith, v.inside) in
          Returns-bind (compare-Holds e_compare rank h xs ranked held i (parent i) v.inside above)
            λ order sign.
              Returns-if (is_negative order)
                (λ lower.
                  Returns-bind (swap_element-Holds h xs held (parent i) i above v.inside)
                    λ g swapped.
                      Returns-map
                        (shift_up-Restored fuel g (swap xs (parent i) i) (parent i) (ground arith)
                          swapped (swap-UpInv xs i v (ground arith) (ground arith)))
                        (λ k r. Restored-swap rank xs (parent i) i k above v.inside r))
                (λ settled. (h, refl, (xs, held, λ c p q. ground (arith, v.edges c), Perm.rfl))))
        (λ root. (h, refl, (xs, held, λ c p q. v.edges c p q (ground arith), Perm.rfl)))
