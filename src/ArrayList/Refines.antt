-- ===== src/ArrayList/Refines.antt =====
-- The array list implements a sequence.
use whosecoin_core.Base.{
  ℕ, zero, suc, ◌+◌, ◌-◌, ◌*◌, ◌≤◌, ◌<◌, ◌≡◌, refl, sym, ap, ◌∙◌, Bool, true, false, Option, none,
  some, List, [], ◌∷◌, ◌++◌, map, append_assoc, arith, ltb, if◌then◌else◌, ℤ, length, get_elem?,
  set, take, drop, replicate, remove_at, length-append, length-take, length-replicate, ok, abort,
  Returns, or_abort, get_elem?-append, get_elem?-ge, get_elem?-some→lt, length-remove_at,
  length-drop, Bool-cases, inl, inr,
}
use whosecoin_core.ArrayList.{
  ArrayList, read_cell, write_cell, realloc, memmove, list_create, list_add, list_get, list_remove,
  find_from, find_test, list_find,
}

-- The list holds the sequence `xs`: its cells are those of `xs`, then spare ones, and the
-- capacity is that of a block which is at least as large.
pub record Holds {ℓ} {A : Type ℓ} (list : ArrayList A) (xs : List A) : Type ℓ where
  pub spare : List (Option A)
  pub layout : list.data_cells ≡ map some xs ++ spare
  pub counted : list.size ≡ length xs
  pub fits : list.size ≤ list.capacity
  pub allocated : list.capacity ≤ length xs + length spare
  pub positive : 0 < list.capacity

module _ {ℓ} {A : Type ℓ} where
  length-map-some : (xs : List A) → length (map some xs) ≡ length xs
  length-map-some [] = refl
  length-map-some (x ∷ xs) = ap suc (length-map-some xs)

  pub read_cell-layout :
      (xs : List A) (spare : List (Option A)) (i : ℕ)
      → i < length xs
      → read_cell (map some xs ++ spare) i ≡ or_abort (get_elem? xs i)
  unfolding read_cell
  read_cell-layout [] spare i h = elim h [ ]
  read_cell-layout (x ∷ xs) spare zero h = refl
  read_cell-layout (x ∷ xs) spare (suc i) h = read_cell-layout xs spare i (omega arith)

  set-append_some :
      (xs : List A) (c : Option A) (spare : List (Option A)) (e : A)
      → set (map some xs ++ c ∷ spare) (length xs) (some e) ≡ map some (xs ++ e ∷ []) ++ spare
  set-append_some [] c spare e = refl
  set-append_some (x ∷ xs) c spare e = rw (set-append_some xs c spare e)

  -- A new list of positive capacity holds nothing.
  pub list_create-Holds : (n : ℕ) → 0 < n → Holds (list_create {A = A} n) []
  unfolding list_create
  list_create-Holds n h = record {
    spare = replicate n none;
    layout = refl;
    counted = refl;
    fits = omega arith;
    allocated = ground (arith, length-replicate {A = Option A} n none);
    positive = ground arith;
  }

  pub length-layout :
      (xs : List A) (spare : List (Option A))
      → length (map some xs ++ spare) ≡ length xs + length spare
  length-layout xs spare =
      length-append (map some xs) spare ∙ ap (λ n. n + length spare) (length-map-some xs)

  pub write_cell-end :
      (xs : List A) (spare : List (Option A)) (e : A)
      → 0 < length spare
      → Returns (write_cell (map some xs ++ spare) (length xs) e) λ cells.
        (rest : List (Option A)) × (cells ≡ map some (xs ++ e ∷ []) ++ rest)
        × (suc (length rest) ≡ length spare)
  unfolding write_cell
  write_cell-end xs [] e h = absurd (omega arith)
  write_cell-end xs (c ∷ spare) e h = (
    set (map some xs ++ c ∷ spare) (length xs) (some e),
    ground (arith, length-layout xs (c ∷ spare)),
    (spare, set-append_some xs c spare e, refl),
  )

  take-layout :
      (xs : List A) (spare : List (Option A)) (n : ℕ)
      → length xs ≤ n
      → take n (map some xs ++ spare) ≡ map some xs ++ take (n - length xs) spare
  take-layout [] spare n h = ap (λ m. take m spare) (omega arith)
  take-layout (x ∷ xs) spare zero h = absurd (omega arith)
  take-layout (x ∷ xs) spare (suc n) h =
      rw (take-layout xs spare n (omega arith))
        (ap (λ m. some x ∷ (map some xs ++ take m spare)) (omega arith))

  -- Reallocation to at least the size keeps the elements.
  pub realloc-layout :
      (xs : List A) (spare : List (Option A)) (n : ℕ)
      → length xs ≤ n
      → (rest : List (Option A)) × (realloc (map some xs ++ spare) n ≡ map some xs ++ rest)
        × (length xs + length rest ≡ n)
  unfolding realloc
  realloc-layout xs spare n h = (
    take (n - length xs) spare ++ replicate (n - length (map some xs ++ spare)) none,
    rw (take-layout xs spare n h) (append_assoc (map some xs) _ _),
    omega (
      arith,
      length-layout xs spare,
      length-append (take (n - length xs) spare)
          (replicate (n - length (map some xs ++ spare)) none),
      length-take (n - length xs) spare,
      length-replicate {A = Option A} (n - length (map some xs ++ spare)) none,
    ),
  )

  -- Adding an element to a list appends it, whether or not the block has to grow.
  pub list_add-Holds :
      (list : ArrayList A) (xs : List A) (e : A)
      → Holds list xs
      → Returns (list_add list e) λ l. Holds l (xs ++ e ∷ [])
  unfolding list_add
  list_add-Holds list xs e h = elim (Bool-cases (ltb list.size list.capacity)) [
    | inl room ↦
        let (cells, run, (rest, at, size)) =
          write_cell-end xs h.spare e (ground (arith, h.counted)) in
        (
          record list { data_cells = cells; size = list.size + 1 },
          rw (room, h.layout, h.counted, run),
          record {
            spare = rest;
            layout = at;
            counted = omega (arith, length-append xs (e ∷ []), h.counted);
            fits = ground arith;
            allocated = omega (arith, length-append xs (e ∷ []), h.allocated);
            positive = h.positive;
          },
        )
    | inr full ↦
        let (spare, grown, total) =
          realloc-layout xs h.spare (list.capacity * 2) (omega (arith, h.counted, h.fits)) in
        let (cells, run, (rest, at, size)) =
          write_cell-end xs spare e (omega (arith, h.counted, h.fits, h.positive)) in
        (
          record { data_cells = cells; size = list.size + 1; capacity = list.capacity * 2 },
          rw (full, h.layout, grown, h.counted, run),
          record {
            spare = rest;
            layout = at;
            counted = omega (arith, length-append xs (e ∷ []), h.counted);
            fits = omega (arith, h.fits, h.positive);
            allocated = omega (arith, length-append xs (e ∷ []));
            positive = omega (arith, h.positive);
          },
        )
  ]

  -- Reading gives the element at the index, and the assertion stops an index out of range.
  pub list_get-Holds :
      (list : ArrayList A) (xs : List A) (i : ℕ)
      → Holds list xs
      → list_get list i ≡ or_abort (get_elem? xs i)
  unfolding list_get
  list_get-Holds list xs i h = elim (Bool-cases (ltb i list.size)) [
    | inl inside ↦ rw (inside, h.layout) (read_cell-layout xs h.spare i (ground (arith, h.counted)))
    | inr outside ↦ rw (outside, get_elem?-ge xs i (ground (arith, h.counted)))
  ]

  take-map-some :
      (xs : List A) (spare : List (Option A))
      → take (length xs) (map some xs ++ spare) ≡ map some xs
  take-map-some [] spare = refl
  take-map-some (x ∷ xs) spare = rw (take-map-some xs spare)

  shift_down :
      (xs : List A) (spare : List (Option A)) (i : ℕ)
      → i < length xs
      → take i (map some xs ++ spare)
          ++ take (length xs - 1 - i) (drop (suc i) (map some xs ++ spare))
        ≡ map some (remove_at xs i)
  shift_down [] spare i h = elim h [ ]
  shift_down (x ∷ xs) spare zero h =
      ap (λ n. take n (map some xs ++ spare)) (omega arith) ∙ take-map-some xs spare
  shift_down (x ∷ xs) spare (suc i) h =
      let same : length (x ∷ xs) - 1 - suc i ≡ length xs - 1 - i = omega arith in
      rw same (ap (λ t. some x ∷ t) (shift_down xs spare i (omega arith)))

  memmove-layout :
      (xs : List A) (spare : List (Option A)) (i : ℕ)
      → i < length xs
      → Returns (memmove (map some xs ++ spare) i (i + 1) (length xs - 1 - i)) λ cells.
        (rest : List (Option A)) × (cells ≡ map some (remove_at xs i) ++ rest)
        × (length rest ≡ suc (length spare))
  unfolding memmove
  memmove-layout xs spare i h =
      let cells = map some xs ++ spare in
      let k = length xs - 1 - i in
      let total = length-layout xs spare in
      let one : i + 1 ≡ suc i = omega arith in
      (
        take i cells ++ (take k (drop (i + 1) cells) ++ drop (i + k) cells),
        ground (arith, total),
        (
          drop (i + k) cells,
          sym (append_assoc (take i cells) _ _)
              ∙ ap (λ t. t ++ drop (i + k) cells) (rw one (shift_down xs spare i h)),
          omega (arith, total, length-drop (i + k) cells),
        ),
      )

  -- Removing takes out the element at the index and moves the later ones down by one; an index
  -- out of range stops at the assertion.
  pub list_remove-Holds :
      (list : ArrayList A) (xs : List A) (i : ℕ) (x : A)
      → Holds list xs
      → get_elem? xs i ≡ some x
      → (l : ArrayList A) × (list_remove list i ≡ ok (x, l)) × Holds l (remove_at xs i)
  unfolding list_remove
  list_remove-Holds list xs i x h at =
      let inside : i < length xs = get_elem?-some→lt xs i x at in
      let test : ltb i (length xs) ≡ true = ground arith in
      let read = read_cell-layout xs h.spare i inside in
      let (cells, run, (rest, moved, size)) = memmove-layout xs h.spare i inside in
      let less = length-remove_at xs i inside in
      (
        record list { data_cells = cells; size = list.size - 1 },
        rw (h.counted, h.layout, test, read, at, run),
        record {
          spare = rest;
          layout = moved;
          counted = omega (arith, less, h.counted);
          fits = omega (arith, h.fits);
          allocated = omega (arith, h.allocated, less);
          positive = h.positive;
        },
      )

  pub list_remove-abort :
      (list : ArrayList A) (xs : List A) (i : ℕ)
      → Holds list xs
      → length xs ≤ i
      → list_remove list i ≡ abort
  unfolding list_remove
  list_remove-abort list xs i h out =
      let past : ltb i list.size ≡ false = ground (arith, h.counted) in rw past

  -- The first position from `i` on at which the test holds, and otherwise the end.
  abbrev pub position : (A → Bool) → List A → ℕ → ℕ
  position same [] i = i
  position same (x ∷ xs) i = if same x then i else position same xs (suc i)

  find_from-layout :
      (same : A → Bool) (before xs : List A) (spare : List (Option A)) (size : ℕ)
      → size ≡ length before + length xs
      → find_from same (map some (before ++ xs) ++ spare) size (length before) (length xs)
        ≡ ok (position same xs (length before))
  unfolding find_from
  find_from-layout same before [] spare size e = ap ok (omega arith)
  find_from-layout same before (x ∷ xs) spare size e =
      let one : length (before ++ x ∷ []) ≡ suc (length before) =
        omega (arith, length-append before (x ∷ [])) in
      let rest =
        rw (append_assoc before (x ∷ []) xs, one) at
          (find_from-layout same (before ++ x ∷ []) xs spare size (omega (arith, e))) in
      let next : length before + 1 ≡ suc (length before) = omega arith in
      let inside : length before < length (before ++ x ∷ xs) =
        omega (arith, length-append before (x ∷ xs)) in
      let here = read_cell-layout (before ++ x ∷ xs) spare (length before) inside in
      rw (here, get_elem?-append before x xs, next, rest) (ground arith)

  -- The search returns the position of the first element that compares equal, or the size.
  pub list_find-Holds :
      (ptr_eq : A → A → Bool) (list : ArrayList A) (xs : List A) (e : A) (cmp : Option (A → A → ℤ))
      → Holds list xs
      → list_find ptr_eq list e cmp ≡ ok (position (find_test ptr_eq e cmp) xs 0)
  unfolding list_find
  list_find-Holds ptr_eq list xs e cmp h =
      rw (h.layout, h.counted)
        (find_from-layout (find_test ptr_eq e cmp) [] xs h.spare (length xs) (omega arith))
