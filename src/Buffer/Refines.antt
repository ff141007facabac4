-- ===== src/Buffer/Refines.antt =====
-- The growing buffer implements a byte string.
use native.Mathlib.Nat.{pow-suc}
use whosecoin_core.Base.{
  ℕ, zero, suc, ◌+◌, ◌-◌, ◌*◌, ◌%◌, ◌^◌, ◌≤◌, ◌<◌, ◌≡◌, refl, sym, ap, ◌∙◌, true, false, Option,
  none, some, List, [], ◌∷◌, ◌++◌, map, append_assoc, arith, leb, length, set, take, drop,
  replicate, length-append, length-take, length-replicate, length-drop, ok, out_of_fuel, Returns,
  Returns-bind, Bool-cases, inl, inr,
}
use whosecoin_core.Buffer.{
  u32, Buffer, realloc, memcpy, dynamic_buffer_create, grow, dynamic_buffer_write, write_byte,
  dynamic_buffer_putc, initialised, contents,
}

-- The buffer holds the bytes `bs`: they stand first, and there is room for at least one more.
pub record Holds (buffer : Buffer) (bs : List ℕ) : Type 0 where
  pub spare : List (Option ℕ)
  pub layout : buffer.bytes ≡ map some bs ++ spare
  pub counted : buffer.length_field ≡ length bs
  pub roomy : length bs < buffer.capacity
  pub allocated : buffer.capacity ≤ length bs + length spare
  pub word : buffer.capacity < u32

pub length-map-some : (xs : List ℕ) → length (map {B = Option ℕ} some xs) ≡ length xs
length-map-some [] = refl
length-map-some (x ∷ xs) = ap suc (length-map-some xs)

map-some-append : (xs ys : List ℕ) → map {B = Option ℕ} some (xs ++ ys) ≡ map some xs ++ map some ys
map-some-append [] ys = refl
map-some-append (x ∷ xs) ys = ap (λ t. some x ∷ t) (map-some-append xs ys)

length-layout :
    (xs : List ℕ) (spare : List (Option ℕ))
    → length (map some xs ++ spare) ≡ length xs + length spare
length-layout xs spare =
    length-append (map some xs) spare ∙ ap (λ n. n + length spare) (length-map-some xs)

pub dynamic_buffer_create-Holds : (n : ℕ) → 0 < n → n < u32 → Holds (dynamic_buffer_create n) []
unfolding dynamic_buffer_create
dynamic_buffer_create-Holds n h w = record {
  spare = replicate n (some 0);
  layout = refl;
  counted = refl;
  roomy = ground arith;
  allocated = ground (arith, length-replicate {A = Option ℕ} n (some 0));
  word = ground arith;
}

doubled_enough :
    (k need capacity : ℕ)
    → capacity < 2 ^ 31
    → need < capacity * 2 ^ suc k
    → need < capacity * 2 % u32 * 2 ^ k
doubled_enough k need capacity small h =
    let same : capacity * 2 % u32 ≡ capacity * 2 = omega arith in
    rw same (omega (arith, ap (λ (t : ℕ). capacity * t) (pow-suc 2 k)))

-- The loop that doubles the capacity ends past what is needed, below 2 ^ 31, within `k` rounds.
grow_ends :
    (k need capacity : ℕ)
    → need < 2 ^ 31
    → need < capacity * 2 ^ k
    → capacity < u32
    → Returns (grow (suc k) need capacity) λ c. (need < c) × (c < u32)
unfolding grow
grow_ends zero need capacity small enough word =
    let past : leb capacity need ≡ false = ground arith in (capacity, rw past, (ground arith, word))
grow_ends (suc k) need capacity small enough word = elim (Bool-cases (leb capacity need)) [
  | inr past ↦ (capacity, rw past, (ground arith, word))
  | inl short ↦
      let below : capacity ≤ need = ground arith in
      let (c, run, ends) =
        grow_ends k need (capacity * 2 % u32) small
          (doubled_enough k need capacity (omega arith) enough) (omega arith) in
      (c, rw short run, ends)
]

-- At a size that no 32-bit capacity exceeds, the loop never ends.
pub grow_diverges :
    (fuel need capacity : ℕ) → u32 ≤ need → capacity < u32 → grow fuel need capacity ≡ out_of_fuel
unfolding grow
grow_diverges zero need capacity h word = refl
grow_diverges (suc fuel) need capacity h word =
    let again : leb capacity need ≡ true = ground arith in
    rw again (grow_diverges fuel need (capacity * 2 % u32) h (omega arith))

take-layout :
    (xs : List ℕ) (spare : List (Option ℕ)) (n : ℕ)
    → length xs ≤ n
    → take n (map some xs ++ spare) ≡ map some xs ++ take (n - length xs) spare
take-layout [] spare n h = ap (λ m. take m spare) (omega arith)
take-layout (x ∷ xs) spare zero h = absurd (omega arith)
take-layout (x ∷ xs) spare (suc n) h =
    rw (take-layout xs spare n (omega arith))
      (ap (λ m. some x ∷ (map some xs ++ take m spare)) (omega arith))

realloc-layout :
    (xs : List ℕ) (spare : List (Option ℕ)) (n : ℕ)
    → length xs ≤ n
    → (rest : List (Option ℕ)) × (realloc (map some xs ++ spare) n ≡ map some xs ++ rest)
      × (length xs + length rest ≡ n)
unfolding realloc
realloc-layout xs spare n h =
    let new = n - length (map some xs ++ spare) in
    (
      take (n - length xs) spare ++ replicate new none,
      rw (take-layout xs spare n h) (append_assoc (map some xs) _ _),
      omega (
        arith,
        length-layout xs spare,
        length-append (take (n - length xs) spare) (replicate new none),
        length-take (n - length xs) spare,
        length-replicate {A = Option ℕ} new none,
      ),
    )

take-append_some :
    (xs : List ℕ) (spare : List (Option ℕ)) → take (length xs) (map some xs ++ spare) ≡ map some xs
take-append_some [] spare = refl
take-append_some (x ∷ xs) spare = rw (take-append_some xs spare)

drop-append_some :
    (xs : List ℕ) (spare : List (Option ℕ)) (n : ℕ)
    → drop (length xs + n) (map some xs ++ spare) ≡ drop n spare
drop-append_some [] spare n = ap (λ m. drop m spare) (omega arith)
drop-append_some (x ∷ xs) spare n =
    let e : length (x ∷ xs) + n ≡ suc (length xs + n) = omega arith in
    rw e (drop-append_some xs spare n)

memcpy-layout :
    (bs src : List ℕ) (spare : List (Option ℕ))
    → length src ≤ length spare
    → Returns (memcpy (map some bs ++ spare) (length bs) src) λ cells.
      (rest : List (Option ℕ)) × (cells ≡ map some (bs ++ src) ++ rest)
      × (length rest + length src ≡ length spare)
unfolding memcpy
memcpy-layout bs src spare h =
    let total = length-layout bs spare in
    let fits : leb (length bs + length src) (length (map some bs ++ spare)) ≡ true = ground arith in
    (
      map some bs ++ (map some src ++ drop (length src) spare),
      rw (fits, take-append_some bs spare, drop-append_some bs spare (length src)),
      (
        drop (length src) spare,
        rw (map-some-append bs src) (sym (append_assoc (map some bs) (map some src) _)),
        omega (arith, length-drop (length src) spare),
      ),
    )

memcpy-Holds :
    (bs src : List ℕ) (spare : List (Option ℕ)) (capacity : ℕ)
    → length bs + length src < capacity
    → capacity ≤ length bs + length spare
    → length bs + length src < u32
    → capacity < u32
    → Returns (memcpy (map some bs ++ spare) (length bs) src) λ cells.
      Holds
        (record {
          length_field = (length bs + length src) % u32;
          bytes = cells;
          capacity = capacity;
        })
        (bs ++ src)
memcpy-Holds bs src spare capacity room block fits word =
    let (cells, run, (rest, at, size)) = memcpy-layout bs src spare (omega arith) in
    let total = length-append bs src in
    (
      cells,
      run,
      record {
        spare = rest;
        layout = at;
        counted = omega arith;
        roomy = omega arith;
        allocated = omega arith;
        word = word;
      },
    )

realloc-memcpy-Holds :
    (bs src : List ℕ) (spare : List (Option ℕ)) (capacity : ℕ)
    → length bs + length src < capacity
    → length bs + length src < u32
    → capacity < u32
    → Returns (memcpy (realloc (map some bs ++ spare) capacity) (length bs) src) λ cells.
      Holds
        (record {
          length_field = (length bs + length src) % u32;
          bytes = cells;
          capacity = capacity;
        })
        (bs ++ src)
realloc-memcpy-Holds bs src spare capacity room fits word =
    let (rest, moved, total) = realloc-layout bs spare capacity (omega arith) in
    rw moved (memcpy-Holds bs src rest capacity room (omega arith) fits word)

-- A write appends its bytes if the new length stays below 2 ^ 31, growing the block as needed.
pub dynamic_buffer_write-Holds :
    (src : List ℕ) (b : Buffer) (bs : List ℕ)
    → Holds b bs
    → length bs + length src < 2 ^ 31
    → Returns (dynamic_buffer_write src b) λ c. Holds c (bs ++ src)
unfolding dynamic_buffer_write
dynamic_buffer_write-Holds src b bs h small =
    elim (Bool-cases (leb b.capacity (length bs + length src))) [
      | inr room ↦
          rw (h.counted, room, h.layout)
            (Returns-bind
              (memcpy-Holds bs src h.spare b.capacity (ground arith) h.allocated (omega arith)
                h.word)
              λ cells held. (_, refl, held))
      | inl full ↦
          rw (h.counted, full, h.layout)
            (Returns-bind
              (grow_ends 32 (length bs + length src) b.capacity small (omega (arith, h.roomy))
                h.word)
              λ capacity ends.
                Returns-bind
                  (realloc-memcpy-Holds bs src h.spare capacity ends.0 (omega arith) ends.1)
                  λ cells held. (_, refl, held))
    ]

set-append_some :
    (bs : List ℕ) (x : Option ℕ) (spare : List (Option ℕ)) (c : ℕ)
    → set (map some bs ++ x ∷ spare) (length bs) (some c) ≡ map some (bs ++ c ∷ []) ++ spare
set-append_some [] x spare c = refl
set-append_some (b ∷ bs) x spare c = ap (λ t. some b ∷ t) (set-append_some bs x spare c)

write_byte-Holds :
    (bs : List ℕ) (c : ℕ) (spare : List (Option ℕ)) (capacity : ℕ)
    → length bs + 1 < capacity
    → capacity ≤ length bs + length spare
    → capacity < u32
    → Returns (write_byte (map some bs ++ spare) (length bs) c) λ cells.
      Holds
        (record { length_field = length bs + 1; bytes = cells; capacity = capacity })
        (bs ++ c ∷ [])
unfolding write_byte
write_byte-Holds bs c [] capacity room block word = absurd (omega arith)
write_byte-Holds bs c (x ∷ spare) capacity room block word =
    let total = length-append bs (c ∷ []) in
    (
      set (map some bs ++ x ∷ spare) (length bs) (some c),
      ground (arith, length-layout bs (x ∷ spare)),
      record {
        spare = spare;
        layout = set-append_some bs x spare c;
        counted = omega arith;
        roomy = omega arith;
        allocated = omega arith;
        word = word;
      },
    )

realloc_byte-Holds :
    (bs : List ℕ) (c : ℕ) (spare : List (Option ℕ)) (capacity : ℕ)
    → length bs + 1 < capacity
    → capacity < u32
    → Returns (write_byte (realloc (map some bs ++ spare) capacity) (length bs) c) λ cells.
      Holds
        (record { length_field = length bs + 1; bytes = cells; capacity = capacity })
        (bs ++ c ∷ [])
realloc_byte-Holds bs c spare capacity room word =
    let (rest, moved, total) = realloc-layout bs spare capacity (omega arith) in
    rw moved (write_byte-Holds bs c rest capacity room (omega arith) word)

-- Appending one byte, growing the block as needed.
pub dynamic_buffer_putc-Holds :
    (c : ℕ) (b : Buffer) (bs : List ℕ)
    → Holds b bs
    → length bs + 1 < 2 ^ 31
    → Returns (dynamic_buffer_putc c b) λ d. Holds d (bs ++ c ∷ [])
unfolding dynamic_buffer_putc
dynamic_buffer_putc-Holds c b bs h small =
    let fits : (length bs + 1) % u32 ≡ length bs + 1 = omega arith in
    elim (Bool-cases (leb b.capacity (length bs + 1))) [
      | inr room ↦
          rw (h.counted, fits, room, h.layout)
            (Returns-bind
              (write_byte-Holds bs c h.spare b.capacity (ground arith) h.allocated h.word)
              λ cells held. (_, refl, held))
      | inl full ↦
          rw (h.counted, fits, full, h.layout)
            (Returns-bind
              (realloc_byte-Holds bs c h.spare (b.capacity * 2 % u32) (ground (arith, h.roomy))
                (omega arith))
              λ cells held. (_, refl, held))
    ]

initialised-layout :
    (bs : List ℕ) (spare : List (Option ℕ)) → initialised (length bs) (map some bs ++ spare) ≡ ok bs
unfolding initialised
initialised-layout [] spare = refl
initialised-layout (b ∷ bs) spare = rw (initialised-layout bs spare)

-- What is read back is what the buffer holds.
pub contents-Holds : (b : Buffer) (bs : List ℕ) → Holds b bs → contents b ≡ ok bs
unfolding contents
contents-Holds b bs h = rw (h.layout, h.counted) (initialised-layout bs h.spare)
