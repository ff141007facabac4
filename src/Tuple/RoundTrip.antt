-- ===== src/Tuple/RoundTrip.antt =====
-- The parser reads back what the writers lay out.
use whosecoin_core.Base.{
  ℕ, zero, suc, ◌+◌, ◌-◌, ◌^◌, ◌≤◌, ◌<◌, ◌≡◌, ◌≢◌, refl, sym, ap, ◌∙◌, some, List, [], ◌∷◌, ◌++◌,
  append_assoc, arith, length, drop, take, length-append, drop-append, take-append, ltb, Run, ok,
  out_of_fuel, ◌>>=◌, Returns, true, false,
}
use whosecoin_core.Bytes.{
  le_bytes, from_le-le_bytes, length-be_bytes, length-le_bytes, strlen-append, NoZero,
}
use whosecoin_core.Tuple.{
  Elements, none_left, at_bytes, sub_tuple, Tuple, tuple_start, tuple_end, tuple_null, tuple_i32,
  tuple_i64, tuple_u32, tuple_u64, tuple_f32, tuple_f64, tuple_bool, tuple_string, tuple_binary,
  element, stay, read_u32, skip_binary, skip_string, switch, Found, prepend, parse_with, parse_loop,
  tuple_parse,
}
use whosecoin_core.Tuple.Values.{
  Scalar, null, i32, i64, u32, u64, f32, f64, bool, string, binary, Values, nil, scalar, tuple,
  encode_scalar, encode, encode_tuple, ScalarFits, Fits, rounds, Shows,
}

drop_bytes : (k : ℕ) (p r : List ℕ) → length p ≡ k → drop k (p ++ r) ≡ r
drop_bytes k p r h = rw (← h) (drop-append p r)

drop_past : (s r : List ℕ) → drop (length s + 1) (s ++ 0 ∷ r) ≡ r
drop_past [] r = refl
drop_past (b ∷ s) r =
    let e : length (b ∷ s) + 1 ≡ suc (length s + 1) = omega arith in rw e (drop_past s r)

skip_string-append : (s r : List ℕ) → NoZero s → skip_string ((s ++ 0 ∷ []) ++ r) ≡ ok (element r)
unfolding skip_string
skip_string-append s r h =
    let split : (s ++ 0 ∷ []) ++ r ≡ s ++ 0 ∷ r = append_assoc s (0 ∷ []) r in
    rw split (rw (strlen-append s r h, skip_string) (ap (λ t. ok (element t)) (drop_past s r)))

pub read_u32-le_bytes : (v : ℕ) (r : List ℕ) → v < 2 ^ 32 → read_u32 (le_bytes 4 v ++ r) ≡ ok v
unfolding read_u32
read_u32-le_bytes v r h =
    let width = length-le_bytes 4 v in
    let there : ltb (length (le_bytes 4 v ++ r)) 4 ≡ false =
      ground (arith, length-append (le_bytes 4 v) r, width) in
    let word : take 4 (le_bytes 4 v ++ r) ≡ le_bytes 4 v =
      rw width at (take-append (le_bytes 4 v) r) in
    rw (there, word) (ap ok (from_le-le_bytes 4 v h))

skip_binary-append :
    (s r : List ℕ)
    → length s < 2 ^ 32
    → 0 < length r
    → skip_binary ((le_bytes 4 (length s) ++ s) ++ r) ≡ ok (element r)
unfolding skip_binary
skip_binary-append s r h more =
    let word = le_bytes 4 (length s) in
    let width = length-le_bytes 4 (length s) in
    let split = append_assoc word s r in
    let read = read_u32-le_bytes (length s) (s ++ r) h in
    let rest = drop_bytes 4 word (s ++ r) width in
    let room : ltb (length s) (length (s ++ r)) ≡ true = ground (arith, length-append s r) in
    rw (split, read, ◌>>=◌, rest, room) (ap (λ t. ok (element t)) (drop-append s r))

-- The head of a scalar's encoding sends the switch past its payload.
switch-scalar :
    (s : Scalar) (r : List ℕ)
    → ScalarFits s
    → 0 < length r
    → (c : ℕ) × (p : List ℕ) × (encode_scalar s ≡ c ∷ p) × (switch c (p ++ r) ≡ ok (element r))
unfolding encode_scalar switch
switch-scalar null r h more = (_, _, refl, refl)
switch-scalar (i32 v) r h more =
    (_, _, refl, ap (λ t. ok (element t)) (drop_bytes 4 _ r (length-be_bytes 4 v)))
switch-scalar (i64 v) r h more =
    (_, _, refl, ap (λ t. ok (element t)) (drop_bytes 8 _ r (length-be_bytes 8 v)))
switch-scalar (u32 v) r h more =
    (_, _, refl, ap (λ t. ok (element t)) (drop_bytes 4 _ r (length-be_bytes 4 v)))
switch-scalar (u64 v) r h more =
    (_, _, refl, ap (λ t. ok (element t)) (drop_bytes 8 _ r (length-be_bytes 8 v)))
switch-scalar (f32 v) r h more =
    (_, _, refl, ap (λ t. ok (element t)) (drop_bytes 4 _ r (length-le_bytes 4 v)))
switch-scalar (f64 v) r h more =
    (_, _, refl, ap (λ t. ok (element t)) (drop_bytes 8 _ r (length-le_bytes 8 v)))
switch-scalar (bool v) r h more =
    (_, _, refl, ap (λ t. ok (element t)) (drop_bytes 1 _ r (length-le_bytes 1 v)))
switch-scalar (string s) r h more = (_, _, refl, skip_string-append s r h)
switch-scalar (binary s) r h more = (_, _, refl, skip_binary-append s r h more)

encode_tuple-append :
    (ws : Values) (r : List ℕ) → encode_tuple ws ++ r ≡ tuple_start ∷ (encode ws ++ tuple_end ∷ r)
unfolding encode_tuple
encode_tuple-append ws r = ap (λ t. tuple_start ∷ t) (append_assoc (encode ws) (tuple_end ∷ []) r)

length-minus : (xs r : List ℕ) → length (xs ++ r) - length r ≡ length xs
length-minus xs r = omega (arith, length-append xs r)

long_enough : (xs r : List ℕ) (c d : ℕ) → ltb (length (c ∷ (xs ++ d ∷ r))) 2 ≡ false
long_enough xs r c d = ground (arith, length-append xs (d ∷ r))

-- The tuple that the parser builds at the head of `encode_tuple ws ++ r`.
abbrev found_tuple : Values → Elements → List ℕ → Tuple
found_tuple ws es r = record {
  elements = es;
  start = encode_tuple ws ++ r;
  length_field = length (encode_tuple ws);
}

parse_with-encode :
    (loop : List ℕ → Run Found) (ws : Values) (r : List ℕ) (es : Elements)
    → loop (encode ws ++ tuple_end ∷ r) ≡ ok (some (es, r))
    → parse_with loop (tuple_start ∷ (encode ws ++ tuple_end ∷ r)) ≡ ok (some (found_tuple ws es r))
unfolding parse_with
parse_with-encode loop ws r es run =
    let whole = encode_tuple-append ws r in
    let size = rw whole at (length-minus (encode_tuple ws) r) in
    rw (long_enough (encode ws) r tuple_start tuple_end, run)
      (λ i. ok (some (record { elements = es; start = sym whole i; length_field = size i })))

prepend-run :
    (add : Elements → Elements) {m : Run Found} {es : Elements} {rest : List ℕ}
    → m ≡ ok (some (es, rest))
    → prepend add m ≡ ok (some (add es, rest))
prepend-run add e = rw e

step_element :
    (fuel c : ℕ) (r rest : List ℕ)
    → switch c r ≡ ok (element rest)
    → parse_loop (suc fuel) (c ∷ r) ≡ prepend (at_bytes (c ∷ r)) (parse_loop fuel rest)
unfolding parse_loop
step_element fuel c r rest e = rw e

step_descend :
    (fuel : ℕ) (r : List ℕ) {t : Tuple}
    → parse_with (parse_loop fuel) (tuple_start ∷ r) ≡ ok (some t)
    → parse_loop (suc fuel) (tuple_start ∷ r)
      ≡ prepend
          (sub_tuple t.elements t.start t.length_field)
          (parse_loop fuel (drop t.length_field (tuple_start ∷ r)))
unfolding parse_loop switch
step_descend fuel r e = rw e

-- The loop over encoded values, with any bytes behind the closing bracket.
parse_loop-encode :
    (vs : Values) (rest : List ℕ) (fuel : ℕ)
    → Fits vs
    → rounds vs ≤ fuel
    → Returns
        (parse_loop fuel (encode vs ++ tuple_end ∷ rest))
        λ found. (es : Elements) × (found ≡ some (es, rest)) × Shows es vs
unfolding parse_loop encode rounds
parse_loop-encode nil rest zero f h = absurd (omega arith)
parse_loop-encode nil rest (suc fuel) f h = unfold switch in (_, refl, (none_left, refl, tt))
parse_loop-encode (scalar s vs) rest zero f h = absurd (omega arith)
parse_loop-encode (scalar s vs) rest (suc fuel) f h =
    let t = encode vs ++ tuple_end ∷ rest in
    let (c, p, head, move) =
      switch-scalar s t f.0 (omega (arith, length-append (encode vs) (tuple_end ∷ rest))) in
    let (found, run, (es, shape, shows)) = parse_loop-encode vs rest fuel f.1 (omega arith) in
    let whole =
      append_assoc (encode_scalar s) (encode vs) (tuple_end ∷ rest) ∙ ap (λ q. q ++ t) head in
    (
      some (at_bytes (c ∷ (p ++ t)) es, rest),
      ap (parse_loop (suc fuel)) whole
          ∙ step_element fuel c (p ++ t) t move
          ∙ prepend-run (at_bytes (c ∷ (p ++ t))) (run ∙ ap ok shape),
      (at_bytes (c ∷ (p ++ t)) es, refl, ((t, ap (λ q. q ++ t) (sym head)), shows)),
    )
parse_loop-encode (tuple ws vs) rest zero f h = absurd (omega arith)
parse_loop-encode (tuple ws vs) rest (suc fuel) f h =
    let t = encode vs ++ tuple_end ∷ rest in
    let (found, run, (es, shape, shows)) = parse_loop-encode ws t fuel f.0 (omega arith) in
    let (found', run', (fs, shape', shows')) = parse_loop-encode vs rest fuel f.1 (omega arith) in
    let sub = found_tuple ws es t in
    let body = encode ws ++ tuple_end ∷ t in
    let whole = append_assoc (tuple_start ∷ encode ws) (tuple_end ∷ encode vs) (tuple_end ∷ rest) in
    let past : drop (length (encode_tuple ws)) (tuple_start ∷ body) ≡ t =
      rw (encode_tuple-append ws t) at (drop-append (encode_tuple ws) t) in
    let inner = parse_with-encode (parse_loop fuel) ws t es (run ∙ ap ok shape) in
    (
      some (sub_tuple es sub.start sub.length_field fs, rest),
      ap (parse_loop (suc fuel)) whole
          ∙ step_descend fuel body {t = sub} inner
          ∙ prepend-run (sub_tuple es sub.start sub.length_field)
              (ap (parse_loop fuel) past ∙ run' ∙ ap ok shape'),
      (sub_tuple es sub.start sub.length_field fs, refl, (shows, (t, refl), refl, shows')),
    )

-- The bytes that the writers lay out for a tuple of values parse to a tuple whose elements are
-- those values, in order, and which ends where its bytes end, whatever follows them.
pub tuple_parse-encode :
    (vs : Values) (rest : List ℕ) (fuel : ℕ)
    → Fits vs
    → rounds vs ≤ fuel
    → Returns (tuple_parse fuel (encode_tuple vs ++ rest)) λ found.
      (t : Tuple) × (found ≡ some t)
      × Shows t.elements vs
      × (t.start ≡ encode_tuple vs ++ rest)
      × (t.length_field ≡ length (encode_tuple vs))
unfolding tuple_parse
tuple_parse-encode vs rest fuel f h =
    let (found, run, (es, shape, shows)) = parse_loop-encode vs rest fuel f h in
    (
      some (found_tuple vs es rest),
      ap (parse_with (parse_loop fuel)) (encode_tuple-append vs rest)
          ∙ parse_with-encode (parse_loop fuel) vs rest es (run ∙ ap ok shape),
      (found_tuple vs es rest, refl, shows, refl, refl),
    )

-- The byte is none of the twelve tags.
abbrev pub NoTag : ℕ → Type 0
NoTag c =
    (c ≢ tuple_null)
    × (c ≢ tuple_i32)
    × (c ≢ tuple_i64)
    × (c ≢ tuple_u32)
    × (c ≢ tuple_u64)
    × (c ≢ tuple_f32)
    × (c ≢ tuple_f64)
    × (c ≢ tuple_bool)
    × (c ≢ tuple_string)
    × (c ≢ tuple_binary)
    × (c ≢ tuple_start)
    × (c ≢ tuple_end)

switch-NoTag : (c : ℕ) (r : List ℕ) → NoTag c → switch c r ≡ ok stay
unfolding switch
switch-NoTag c r h = ground arith

parse_loop-stays : (fuel c : ℕ) (r : List ℕ) → NoTag c → parse_loop fuel (c ∷ r) ≡ out_of_fuel
unfolding parse_loop
parse_loop-stays zero c r h = refl
parse_loop-stays (suc fuel) c r h = rw (switch-NoTag c r h) (parse_loop-stays fuel c r h)

-- A message that opens a tuple and goes on with a byte that is no tag holds the parser for ever:
-- its switch has no default, so no amount of fuel ends the loop.
pub tuple_parse-diverges :
    (fuel c : ℕ) (r : List ℕ) → NoTag c → tuple_parse fuel (tuple_start ∷ c ∷ r) ≡ out_of_fuel
unfolding tuple_parse parse_with
tuple_parse-diverges fuel c r h =
    let long : ltb (length (tuple_start ∷ c ∷ r)) 2 ≡ false = ground arith in
    rw (long, parse_loop-stays fuel c r h)
