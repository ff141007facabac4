-- ===== src/Heap/Down.antt =====
-- util/heap.c: shift_down puts a new first element in its place.
use mathlib.Core.List.Perm
use whosecoin_core.Base.{
  ℕ, zero, suc, ◌-◌, ◌≤◌, ◌<◌, ◌≡◌, ◌≢◌, ◌⊎◌, refl, sym, ◌∙◌, inl, inr, Bool, true, false, List,
  arith, ltb, ◌==◌, if◌then◌else◌, ℤ, is_negative, length, Returns, Returns-bind, Returns-map,
  Returns-if,
}
use whosecoin_core.Heap.{Heap, parent, left_child, right_child, least_child, shift_down}
use whosecoin_core.Heap.Swap.{swap, key, key-swap}
use whosecoin_core.Heap.Layout.{Holds, IsRanked, swap_element-Holds, compare-Holds}
use whosecoin_core.Heap.Order.{IsBridged, Restored, Restored-swap, size_of_swap}

module _ {A : Type 0} (e_compare : A → A → ℤ) (rank : A → ℕ)
    (ranked : IsRanked e_compare rank) where
  -- Only the element at `i` may be too far up.
  pub record DownInv (xs : List A) (i : ℕ) : Type 0 where
    pub inside : i < length xs
    pub edges :
        (c : ℕ) → 0 < c → c < length xs → parent c ≢ i → key rank xs (parent c) ≤ key rank xs c
    pub bridged : IsBridged rank xs i

  -- The lesser of the element at `m` and that at `child`, if there is one.
  record IsLesser (xs : List A) (child m l : ℕ) : Type 0 where
    chosen : ((l ≡ m) ⊎ (l ≡ child))
    within : l < length xs
    of_old : key rank xs l ≤ key rank xs m
    of_child : child < length xs → key rank xs l ≤ key rank xs child
    changed : l ≢ m → key rank xs l < key rank xs m

  least_child-IsLesser :
      (h : Heap A) (xs : List A) (child m : ℕ)
      → Holds h xs
      → m < length xs
      → Returns (least_child e_compare h child m) (IsLesser xs child m)
  unfolding least_child
  least_child-IsLesser h xs child m held hm =
      Returns-if (ltb child h.size)
        (λ there.
          let hc : child < length xs = ground (arith, held.counted) in
          Returns-bind (compare-Holds e_compare rank h xs ranked held child m hc hm)
            λ order sign. (_, refl, lesser hc (is_negative order) sign))
        (λ past. (
          m,
          refl,
          record {
            chosen = inl refl;
            within = hm;
            of_old = omega arith;
            of_child = λ hc. absurd (ground (arith, held.counted));
            changed = λ ne. absurd (ne refl);
          },
        ))
    where
      lesser :
          child < length xs
          → (lower : Bool) → lower ≡ ltb (key rank xs child) (key rank xs m)
          → IsLesser xs child m (if lower then child else m)
      lesser hc true sign = record {
        chosen = inr refl;
        within = hc;
        of_old = ground arith;
        of_child = λ h. omega arith;
        changed = λ ne. ground arith;
      }
      lesser hc false sign = record {
        chosen = inl refl;
        within = hm;
        of_old = omega arith;
        of_child = λ h. ground arith;
        changed = λ ne. absurd (ne refl);
      }

  -- `m` is a child of `i` that is less than `i` and not above the other child.
  record IsLeast (xs : List A) (i m : ℕ) : Type 0 where
    child : (m ≡ left_child i) ⊎ (m ≡ right_child i)
    within : m < length xs
    below : key rank xs m < key rank xs i
    least : (c : ℕ) → 0 < c → c < length xs → parent c ≡ i → key rank xs m ≤ key rank xs c

  lesser-IsLeast :
      (xs : List A) (i l m : ℕ)
      → IsLesser xs (left_child i) i l
      → IsLesser xs (right_child i) l m
      → i ≢ m
      → IsLeast xs i m
  lesser-IsLeast xs i l m p q ne = record {
    child = elim q.chosen [
      | inr right ↦ inr right
      | inl same ↦ elim p.chosen [
        | inr left ↦ inl (same ∙ left)
        | inl old ↦ absurd (ne (sym (same ∙ old)))
      ]
    ];
    within = q.within;
    below = ground (arith, p.changed, q.changed, p.of_old, q.of_old);
    least = λ c pos hc at. ground (arith, p.of_child, q.of_child, q.of_old);
  }

  swap-DownInv : (xs : List A) (i m : ℕ) → DownInv xs i → IsLeast xs i m → DownInv (swap xs i m) m
  swap-DownInv xs i m v s =
      let size = size_of_swap xs i m v.inside s.within in
      let at = key-swap rank xs i m v.inside s.within in
      record {
        inside = omega (arith, s.within);
        edges = λ c p q t.
            ground
              (arith, at c, at (parent c), v.edges c, v.bridged m, s.least c, s.child, s.below);
        bridged = λ c p q r t. ground (arith, at c, at (parent m), v.edges c, s.child);
      }

  pub shift_down-Restored :
      (fuel : ℕ) (h : Heap A) (xs : List A) (i : ℕ)
      → length xs - i ≤ fuel
      → Holds h xs
      → DownInv xs i
      → Returns (shift_down e_compare fuel h i) (Restored rank xs)
  unfolding shift_down
  shift_down-Restored zero h xs i f held v = absurd (omega (arith, v.inside))
  shift_down-Restored (suc fuel) h xs i f held v =
      Returns-bind (least_child-IsLesser h xs (left_child i) i held v.inside) λ l p.
        Returns-bind (least_child-IsLesser h xs (right_child i) l held p.within) λ m q.
          Returns-if (i == m)
            (λ same. (
              h,
              refl,
              (
                xs,
                held,
                λ c pos hc. ground (arith, v.edges c, p.of_child, q.of_child, q.of_old),
                Perm.rfl,
              ),
            ))
            (λ apart.
              let s = lesser-IsLeast xs i l m p q (λ e. ground arith) in
              Returns-bind (swap_element-Holds h xs held i m v.inside s.within) λ g swapped.
                Returns-map
                  (shift_down-Restored fuel g (swap xs i m) m
                    (omega (arith, size_of_swap xs i m v.inside s.within, s.child, s.within))
                    swapped (swap-DownInv xs i m v s))
                  (λ k r. Restored-swap rank xs i m k v.inside s.within r))
