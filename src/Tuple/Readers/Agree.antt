-- ===== src/Tuple/Readers/Agree.antt =====
-- On a parsed tuple each reader gives the value that was written.
use whosecoin_core.Base.{
  ℕ, zero, suc, ◌^◌, ◌<◌, ◌≡◌, refl, sym, ap, ◌∙◌, Option, none, some, List, ◌∷◌, ◌++◌, arith,
  length, take, drop, ltb, ◌==◌, ok, abort, ◌>>=◌, append_assoc, length-append, take-append,
  drop-append, Returns, true, false,
}
use whosecoin_core.Bytes.{be_bytes, le_bytes, from_be-be_bytes, length-be_bytes, length-le_bytes}
use whosecoin_core.Tuple.{
  Elements, none_left, at_bytes, sub_tuple, Tuple, tuple_start, tuple_i32, tuple_u32, tuple_u64,
  tuple_binary,
}
use whosecoin_core.Tuple.RoundTrip.{read_u32-le_bytes}
use whosecoin_core.Tuple.Values.{
  Scalar, i32, u32, u64, binary, Values, nil, scalar, tuple, encode_scalar, encode_tuple, Shows,
}
use whosecoin_core.Tuple.Readers.{
  bytes, sub, size_elements, tuple_size, element_at, tagged, read_be, tuple_get_type, tuple_get_i32,
  tuple_get_u32, tuple_get_u64, tuple_get_binary, tuple_get_tuple,
}

pub data Value : Type 0 where
  leaf : Scalar → Value
  branch : Values → Value

abbrev pub value_at : Values → ℕ → Option Value
value_at nil i = none
value_at (scalar s vs) zero = some (leaf s)
value_at (tuple ws vs) zero = some (branch ws)
value_at (scalar s vs) (suc i) = value_at vs i
value_at (tuple ws vs) (suc i) = value_at vs i

abbrev pub count : Values → ℕ
count nil = 0
count (scalar s vs) = suc (count vs)
count (tuple ws vs) = suc (count vs)

size_elements-Shows : (es : Elements) (vs : Values) → Shows es vs → size_elements es ≡ count vs
unfolding size_elements
size_elements-Shows none_left nil h = refl
size_elements-Shows (at_bytes p es) (scalar s vs) h = ap suc (size_elements-Shows es vs h.1)
size_elements-Shows (sub_tuple es p n fs) (tuple ws vs) h = ap suc (size_elements-Shows fs vs h.3)
size_elements-Shows _ _ h = absurd h

-- The size of a parsed tuple is the number of values.
pub tuple_size-Shows : (t : Tuple) (vs : Values) → Shows t.elements vs → tuple_size t ≡ count vs
unfolding tuple_size
tuple_size-Shows t vs h = size_elements-Shows t.elements vs h

element_at-leaf :
    (es : Elements) (vs : Values) (i : ℕ) (s : Scalar)
    → Shows es vs
    → value_at vs i ≡ some (leaf s)
    → (r : List ℕ) × (element_at es i ≡ some (bytes (encode_scalar s ++ r)))
unfolding element_at
element_at-leaf none_left nil i s h e = cc
element_at-leaf (at_bytes p es) (scalar q vs) zero s h e =
    let same : q ≡ s = cc in
    (h.0.0, ap (λ t. some (bytes t)) (h.0.1 ∙ ap (λ z. encode_scalar z ++ h.0.0) same))
element_at-leaf (at_bytes p es) (scalar q vs) (suc i) s h e = element_at-leaf es vs i s h.1 e
element_at-leaf (sub_tuple es p n fs) (tuple ws vs) zero s h e = cc
element_at-leaf (sub_tuple es p n fs) (tuple ws vs) (suc i) s h e = element_at-leaf fs vs i s h.3 e
element_at-leaf _ _ i s h e = absurd h

element_at-branch :
    (es : Elements) (vs : Values) (i : ℕ) (ws : Values)
    → Shows es vs
    → value_at vs i ≡ some (branch ws)
    → (t : Tuple) × (element_at es i ≡ some (sub t))
      × Shows t.elements ws
      × ((r : List ℕ) × (t.start ≡ encode_tuple ws ++ r))
      × (t.length_field ≡ length (encode_tuple ws))
unfolding element_at
element_at-branch none_left nil i s h e = cc
element_at-branch (at_bytes p es) (scalar q vs) zero s h e = cc
element_at-branch (at_bytes p es) (scalar q vs) (suc i) s h e = element_at-branch es vs i s h.1 e
element_at-branch (sub_tuple es p n fs) (tuple ws vs) zero us h e =
    let same : ws ≡ us = cc in rw (← same) (_, refl, h.0, h.1, h.2)
element_at-branch (sub_tuple es p n fs) (tuple ws vs) (suc i) s h e =
    element_at-branch fs vs i s h.3 e
element_at-branch _ _ i s h e = absurd h

element_at-past :
    (es : Elements) (vs : Values) (i : ℕ)
    → Shows es vs
    → value_at vs i ≡ none
    → element_at es i ≡ none
unfolding element_at
element_at-past none_left nil i h e = refl
element_at-past (at_bytes p es) (scalar q vs) zero h e = cc
element_at-past (at_bytes p es) (scalar q vs) (suc i) h e = element_at-past es vs i h.1 e
element_at-past (sub_tuple es p n fs) (tuple ws vs) zero h e = cc
element_at-past (sub_tuple es p n fs) (tuple ws vs) (suc i) h e = element_at-past fs vs i h.3 e
element_at-past _ _ i h e = absurd h

-- A reader that asserts the tag of the scalar gets the bytes behind it.
tagged-Shows :
    (t : Tuple) (vs : Values) (i : ℕ) (s : Scalar) (c : ℕ) (p : List ℕ)
    → Shows t.elements vs
    → value_at vs i ≡ some (leaf s)
    → encode_scalar s ≡ c ∷ p
    → (r : List ℕ) × (tagged c t i ≡ ok (p ++ r))
unfolding tagged
tagged-Shows t vs i s c p h e head =
    let (r, at) = element_at-leaf t.elements vs i s h e in
    let self : (c == c) ≡ true = ground arith in
    (r, rw (at ∙ ap (λ q. some (bytes (q ++ r))) head, self))

read_be-be_bytes : (k v : ℕ) (r : List ℕ) → v < 256 ^ k → read_be k (be_bytes k v ++ r) ≡ ok v
unfolding read_be
read_be-be_bytes k v r h =
    let width = length-be_bytes k v in
    let there : ltb (length (be_bytes k v ++ r)) k ≡ false =
      ground (arith, length-append (be_bytes k v) r, width) in
    let word : take k (be_bytes k v ++ r) ≡ be_bytes k v =
      ap (λ n. take n (be_bytes k v ++ r)) (sym width) ∙ take-append (be_bytes k v) r in
    rw (there, word) (ap ok (from_be-be_bytes k v h))

module _ (t : Tuple) (vs : Values) (i : ℕ) (shows : Shows t.elements vs) where
  -- On a tuple that shows values of which the i-th is a 32-bit word, the reader gives this word.
  pub tuple_get_u32-Shows :
      (v : ℕ) → v < 2 ^ 32 → value_at vs i ≡ some (leaf (u32 v)) → tuple_get_u32 t i ≡ ok v
  unfolding tuple_get_u32
  tuple_get_u32-Shows v fits at =
      let (r, run) =
        tagged-Shows t vs i (u32 v) tuple_u32 (be_bytes 4 v) shows at
          (unfold encode_scalar in refl) in
      rw run (read_be-be_bytes 4 v r fits)

  pub tuple_get_u64-Shows :
      (v : ℕ) → v < 2 ^ 64 → value_at vs i ≡ some (leaf (u64 v)) → tuple_get_u64 t i ≡ ok v
  unfolding tuple_get_u64
  tuple_get_u64-Shows v fits at =
      let (r, run) =
        tagged-Shows t vs i (u64 v) tuple_u64 (be_bytes 8 v) shows at
          (unfold encode_scalar in refl) in
      rw run (read_be-be_bytes 8 v r fits)

  pub tuple_get_i32-Shows :
      (v : ℕ) → v < 2 ^ 32 → value_at vs i ≡ some (leaf (i32 v)) → tuple_get_i32 t i ≡ ok v
  unfolding tuple_get_i32
  tuple_get_i32-Shows v fits at =
      let (r, run) =
        tagged-Shows t vs i (i32 v) tuple_i32 (be_bytes 4 v) shows at
          (unfold encode_scalar in refl) in
      rw run (read_be-be_bytes 4 v r fits)

  -- On a tuple that shows values of which the i-th is a binary shorter than 2 ^ 32 bytes, the view
  -- has its size and starts with its bytes.
  pub tuple_get_binary-Shows :
      (s : List ℕ)
      → length s < 2 ^ 32
      → value_at vs i ≡ some (leaf (binary s))
      → (r : List ℕ) × (tuple_get_binary t i ≡ ok (record { size = length s; start = s ++ r }))
  unfolding tuple_get_binary
  tuple_get_binary-Shows s fits at =
      let word = le_bytes 4 (length s) in
      let (r, run) =
        tagged-Shows t vs i (binary s) tuple_binary (word ++ s) shows at
          (unfold encode_scalar in refl) in
      let run' = run ∙ ap ok (append_assoc word s r) in
      let past : drop 4 (word ++ (s ++ r)) ≡ s ++ r =
        ap (λ n. drop n (word ++ (s ++ r))) (sym (length-le_bytes 4 (length s)))
        ∙ drop-append word (s ++ r) in
      (r, rw (run', read_u32-le_bytes (length s) (s ++ r) fits, ◌>>=◌, past))

  -- A sub-tuple shows the inner values.
  pub tuple_get_tuple-Shows :
      (ws : Values)
      → value_at vs i ≡ some (branch ws)
      → Returns (tuple_get_tuple t i) λ u.
        Shows u.elements ws
        × ((r : List ℕ) × (u.start ≡ encode_tuple ws ++ r))
        × (u.length_field ≡ length (encode_tuple ws))
  unfolding tuple_get_tuple
  tuple_get_tuple-Shows ws at =
      let (u, found, inner, start, size) = element_at-branch t.elements vs i ws shows at in
      (u, rw found, (inner, start, size))

  -- The type of an element is the tag that its value was written with.
  pub tuple_get_type-leaf :
      (s : Scalar) (c : ℕ) (p : List ℕ)
      → value_at vs i ≡ some (leaf s)
      → encode_scalar s ≡ c ∷ p
      → tuple_get_type t i ≡ ok c
  unfolding tuple_get_type
  tuple_get_type-leaf s c p at head =
      let (r, found) = element_at-leaf t.elements vs i s shows at in
      rw (found ∙ ap (λ q. some (bytes (q ++ r))) head)

  pub tuple_get_type-branch :
      (ws : Values) → value_at vs i ≡ some (branch ws) → tuple_get_type t i ≡ ok tuple_start
  unfolding tuple_get_type
  tuple_get_type-branch ws at =
      let (u, found, inner, start, size) = element_at-branch t.elements vs i ws shows at in rw found

  -- Past the last element the assertion in `list_get` fails.
  pub tuple_get_type-past : value_at vs i ≡ none → tuple_get_type t i ≡ abort
  unfolding tuple_get_type
  tuple_get_type-past past = rw (element_at-past t.elements vs i shows past)
