-- ===== src/Heap.antt =====
-- util/heap.c: the binary heap, an array of cells with the element of least priority first.
pub mod Swap
pub mod Layout
pub mod Order
pub mod Up
pub mod Down
pub mod Add
pub mod Pop
pub mod Remove
use whosecoin_core.Base.{
  ℕ, zero, suc, ◌+◌, ◌-◌, ◌*◌, ◌/◌, true, false, Option, none, some, List, ltb, ◌==◌, if◌then◌else◌,
  ℤ, is_negative, replicate, Run, ok, out_of_fuel, ◌>>=◌, ◌>>◌, assert,
}
use whosecoin_core.ArrayList.{read_cell, write_cell, realloc}

-- `struct heap`, without the functions that it is created with.
pub record Heap (A : Type 0) : Type 0 where
  pub data_cells : List (Option A)
  pub capacity : ℕ
  pub size : ℕ

abbrev pub heap_default_capacity : ℕ
heap_default_capacity = 4

-- `(i - 1) / 2`, asked for only where `i > 0`
abbrev pub parent : ℕ → ℕ
parent i = (i - 1) / 2

abbrev pub left_child : ℕ → ℕ
left_child i = 2 * i + 1

abbrev pub right_child : ℕ → ℕ
right_child i = 2 * i + 2

module _ {A : Type 0} where
  unfoldable pub heap_create : Heap A
  heap_create = record {
    data_cells = replicate heap_default_capacity none;
    capacity = heap_default_capacity;
    size = 0;
  }

  unfoldable pub heap_size : Heap A → ℕ
  heap_size self = self.size

  unfoldable pub heap_get : Heap A → ℕ → Run A
  heap_get self i = do assert (ltb i self.size); read_cell self.data_cells i

  unfoldable pub swap_element : Heap A → ℕ → ℕ → Run (Heap A)
  swap_element self a b = do
    x ← read_cell self.data_cells a
    y ← read_cell self.data_cells b
    cells ← write_cell self.data_cells a y
    swapped ← write_cell cells b x
    ok (record self { data_cells = swapped })

  -- `while (i > 0)`: the fuel counts the rounds, of which `i + 1` are enough.
  unfoldable pub move_to_top : ℕ → Heap A → ℕ → Run (Heap A)
  unfolding swap_element
  move_to_top zero self i = out_of_fuel
  move_to_top (suc fuel) self i = elim (ltb 0 i) [
    | false ↦ ok self
    | true ↦ swap_element self (parent i) i >>= λ swapped. move_to_top fuel swapped (parent i)
  ]

module _ {A : Type 0} (e_compare : A → A → ℤ) where
  unfoldable pub compare : Heap A → ℕ → ℕ → Run ℤ
  unfolding heap_get
  compare self a b = do e1 ← heap_get self a; e2 ← heap_get self b; ok (e_compare e1 e2)

  unfoldable pub shift_up : ℕ → Heap A → ℕ → Run (Heap A)
  unfolding compare swap_element
  shift_up zero self i = out_of_fuel
  shift_up (suc fuel) self i = elim (ltb 0 i) [
    | false ↦ ok self
    | true ↦ compare self i (parent i) >>= λ order. elim (is_negative order) [
      | false ↦ ok self
      | true ↦ swap_element self (parent i) i >>= λ swapped. shift_up fuel swapped (parent i)
    ]
  ]

  -- `if (child < self->size && compare(self, child, max_i) < 0) max_i = child;`
  unfoldable pub least_child : Heap A → ℕ → ℕ → Run ℕ
  unfolding compare
  least_child self child max_i = elim (ltb child self.size) [
    | false ↦ ok max_i
    | true ↦ compare self child max_i >>= λ order. ok (if is_negative order then child else max_i)
  ]

  unfoldable pub shift_down : ℕ → Heap A → ℕ → Run (Heap A)
  unfolding least_child swap_element
  shift_down zero self i = out_of_fuel
  shift_down (suc fuel) self i = least_child self (left_child i) i >>= λ l.
      least_child self (right_child i) l >>= λ max_i. elim (i == max_i) [
        | true ↦ ok self
        | false ↦ swap_element self i max_i >>= λ swapped. shift_down fuel swapped max_i
      ]

  -- The block doubles when it is full.
  unfoldable pub heap_add : Heap A → A → Run (Heap A)
  unfolding shift_up
  heap_add self e =
      let capacity = if self.size == self.capacity then self.capacity * 2 else self.capacity in
      let cells =
        if self.size == self.capacity then realloc self.data_cells capacity else self.data_cells in
      write_cell cells self.size e >>= λ written.
      shift_up (self.size + 1)
        (record { data_cells = written; capacity = capacity; size = self.size + 1 }) self.size

  unfoldable pub heap_top : Heap A → Run (Option A)
  unfolding heap_size heap_get
  heap_top self = elim (heap_size self == 0) [
    | true ↦ ok none
    | false ↦ heap_get self 0 >>= λ e. ok (some e)
  ]

  -- The last element moves to the top, also onto itself.
  unfoldable pub heap_pop : Heap A → Run (Option A × Heap A)
  unfolding heap_size shift_down
  heap_pop self = elim (heap_size self == 0) [
    | true ↦ ok (none, self)
    | false ↦ (do
      res ← read_cell self.data_cells 0
      last ← read_cell self.data_cells (self.size - 1)
      cells ← write_cell self.data_cells 0 last
      shifted ← shift_down self.size (record self { data_cells = cells; size = self.size - 1 }) 0
      ok (some res, shifted))
  ]

  unfoldable pub heap_remove : Heap A → ℕ → Run (Option A × Heap A)
  unfolding move_to_top heap_pop
  heap_remove self i = do
    assert (ltb i self.size)
    moved ← move_to_top (i + 1) self i
    heap_pop moved
