-- ===== src/Examples/Containers.antt =====
-- util/list.c and util/buffer.c at concrete inputs.
use whosecoin_core.Base.{ℕ, ◌≡◌, refl, some, [], ◌∷◌, arith, ok, fault, out_of_fuel, Returns, ◌>>=◌}
use whosecoin_core.ArrayList.{ArrayList, list_create, list_add, list_remove}
use whosecoin_core.ArrayList.Refines.{
  Holds as ListHolds, list_create-Holds, list_add-Holds, list_remove-Holds,
}
use whosecoin_core.Buffer.{u32, Buffer, dynamic_buffer_create, grow, dynamic_buffer_write}
use whosecoin_core.Buffer.Refines.{
  Holds as BufferHolds, dynamic_buffer_create-Holds, grow_diverges, dynamic_buffer_write-Holds,
}

abbrev empty : ArrayList ℕ
empty = list_create 1

empty-Holds : ListHolds empty []
empty-Holds = list_create-Holds 1 (omega arith)

list_add-Holds_example : Returns (list_add empty 7) λ l. ListHolds l (7 ∷ [])
list_add-Holds_example = list_add-Holds empty [] 7 empty-Holds

-- The list with the elements 7 and 8, for which the block has grown once.
abbrev two : ArrayList ℕ
two = record { data_cells = some 7 ∷ some 8 ∷ []; size = 2; capacity = 2 }

two-Holds : ListHolds two (7 ∷ 8 ∷ [])
two-Holds = record {
  spare = [];
  layout = refl;
  counted = refl;
  fits = omega arith;
  allocated = omega arith;
  positive = omega arith;
}

list_remove-Holds_example :
    (l : ArrayList ℕ) × (list_remove two 0 ≡ ok (7, l)) × ListHolds l (8 ∷ [])
list_remove-Holds_example = list_remove-Holds two (7 ∷ 8 ∷ []) 0 7 two-Holds refl

two_adds : (list_add (list_create 1) 7 >>= λ l. list_add l 8) ≡ ok two
unfolding list_create list_add
two_adds = refl

-- A list that is created with no capacity is recorded as having one cell, and has none.
add_to_none : list_add (list_create {A = ℕ} 0) 7 ≡ fault
unfolding list_create list_add
add_to_none = refl

abbrev fresh : Buffer
fresh = dynamic_buffer_create 1

fresh-Holds : BufferHolds fresh []
fresh-Holds = dynamic_buffer_create-Holds 1 (omega arith) (omega arith)

dynamic_buffer_write-Holds_example :
    Returns (dynamic_buffer_write (1 ∷ 2 ∷ 3 ∷ []) fresh) λ b. BufferHolds b (1 ∷ 2 ∷ 3 ∷ [])
dynamic_buffer_write-Holds_example =
    dynamic_buffer_write-Holds (1 ∷ 2 ∷ 3 ∷ []) fresh [] fresh-Holds (omega arith)

grow_diverges_example : grow 5 u32 1 ≡ out_of_fuel
grow_diverges_example = grow_diverges 5 u32 1 (omega arith) (omega arith)
