-- ===== src/ArrayList.antt =====
-- util/list.c: the generic array list `list_t`.
-- `data` is the allocated block, a cell that was never written being `none`; an element is a
-- value of the type `A`, which stands for `void*`. An access outside the block is a fault.
pub mod Refines
use whosecoin_core.Base.{
  ℕ, zero, suc, ◌+◌, ◌-◌, ◌*◌, ◌≤◌, ◌<◌, ◌≡◌, Bool, true, false, Option, none, some, List, [], ◌∷◌,
  ◌++◌, ltb, leb, ◌==◌, if◌then◌else◌, ℤ, is_zero, length, get_elem?, set, take, drop, replicate,
  Run, ok, abort, fault, out_of_fuel, ◌>>=◌, ◌>>◌, assert, or_fault,
}

pub record ArrayList {ℓ} (A : Type ℓ) : Type ℓ where
  pub data_cells : List (Option A)
  pub size : ℕ
  pub capacity : ℕ

module _ {ℓ} {A : Type ℓ} where
  -- `data[i]`
  unfoldable pub read_cell : List (Option A) → ℕ → Run A
  read_cell cells i = or_fault (get_elem? cells i) >>= or_fault

  -- `data[i] = e`
  unfoldable pub write_cell : List (Option A) → ℕ → A → Run (List (Option A))
  write_cell cells i e = if ltb i (length cells) then ok (set cells i (some e)) else fault

  -- `realloc`: the cells that fit are kept, and what is new is uninitialised
  unfoldable pub realloc : List (Option A) → ℕ → List (Option A)
  realloc cells n = take n cells ++ replicate (n - length cells) none

  -- `memmove(&data[dst], &data[src], n cells)`
  memmove : List (Option A) → ℕ → ℕ → ℕ → Run (List (Option A))
  memmove cells dst src n =
      if leb (src + n) (length cells)
      then (if leb (dst + n) (length cells)
          then ok (take dst cells ++ (take n (drop src cells) ++ drop (dst + n) cells))
          else fault)
      else fault

  unfoldable pub list_create : ℕ → ArrayList A
  list_create initial_capacity = record {
    data_cells = replicate initial_capacity none;
    size = 0;
    capacity = if ltb initial_capacity 1 then 1 else initial_capacity;
  }

  unfoldable pub list_size : ArrayList A → ℕ
  list_size list = list.size

  unfoldable pub list_add : ArrayList A → A → Run (ArrayList A)
  unfolding write_cell realloc
  list_add list e =
      if ltb list.size list.capacity
      then (do
        cells ← write_cell list.data_cells list.size e
        ok (record list { data_cells = cells; size = list.size + 1 }))
      else (do
        cells ← write_cell (realloc list.data_cells (list.capacity * 2)) list.size e
        ok (record { data_cells = cells; size = list.size + 1; capacity = list.capacity * 2 }))

  unfoldable pub list_get : ArrayList A → ℕ → Run A
  unfolding read_cell
  list_get list i = do assert (ltb i list.size); read_cell list.data_cells i

  unfoldable pub list_remove : ArrayList A → ℕ → Run (A × ArrayList A)
  unfolding read_cell memmove
  list_remove list i = do
    assert (ltb i list.size)
    result ← read_cell list.data_cells i
    cells ← memmove list.data_cells i (i + 1) (list.size - 1 - i)
    ok (result, record list { data_cells = cells; size = list.size - 1 })

  -- The loop of `list_find` over `n` more cells from `i`; `same` is the test of its body.
  find_from : (A → Bool) → List (Option A) → ℕ → ℕ → ℕ → Run ℕ
  unfolding read_cell
  find_from same cells size i zero = ok size
  find_from same cells size i (suc n) =
      let rest = find_from same cells size (i + 1) n in
      read_cell cells i >>= λ x. if same x then ok i else rest

  -- The test of the loop's body: pointer equality if `cmp` is NULL.
  unfoldable pub find_test : (A → A → Bool) → A → Option (A → A → ℤ) → A → Bool
  find_test ptr_eq e none x = ptr_eq x e
  find_test ptr_eq e (some cmp) x = is_zero (cmp x e)

  unfoldable pub list_find : (A → A → Bool) → ArrayList A → A → Option (A → A → ℤ) → Run ℕ
  unfolding find_from find_test
  list_find ptr_eq list e cmp =
      find_from (find_test ptr_eq e cmp) list.data_cells list.size 0 list.size
