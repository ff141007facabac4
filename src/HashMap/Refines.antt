-- ===== src/HashMap/Refines.antt =====
-- The hash map implements a function from keys to values.
use whosecoin_core.Base.{
  ℕ, zero, suc, ◌+◌, ◌%◌, ◌<◌, ◌≡◌, ◌≢◌, refl, sym, ap, ◌∙◌, true, false, Option, none, some, List,
  [], ◌∷◌, ◌++◌, arith, ◌==◌, if◌then◌else◌, ℤ, replicate, length, get_elem?, set, length-set,
  length-replicate, get_elem?-set, get_elem?-set_self, get_elem?-lt, ok, ◌>>=◌, Bool-cases,
  Option-cases, inl, inr, subst, Returns,
}
use whosecoin_core.HashMap.{
  HashMap, entry_same, map_get_bucket, find_entry, bucket_at, map_get_entry, map_get, replace_entry,
  entries, map_set, map_create,
}

-- What a map relies on in the functions that it is created with: the comparison decides an
-- equivalence, and equal keys have the same hash.
pub record IsHashed {K : Type 0} (hash : K → ℕ) (compare : K → K → ℤ) : Type 0 where
  pub same_refl : (k : K) → entry_same compare k k ≡ true
  pub same_sym : (j k : K) → entry_same compare j k ≡ true → entry_same compare k j ≡ true
  pub same_trans :
      (i j k : K)
      → entry_same compare i j ≡ true
      → entry_same compare j k ≡ true
      → entry_same compare i k ≡ true
  pub same_hash : (j k : K) → entry_same compare j k ≡ true → hash j ≡ hash k

get_elem?-replicate : {A : Type 0} (n i : ℕ) (a : A) → i < n → get_elem? (replicate n a) i ≡ some a
get_elem?-replicate zero i a h = absurd (omega arith)
get_elem?-replicate (suc n) zero a h = refl
get_elem?-replicate (suc n) (suc i) a h = get_elem?-replicate n i a (omega arith)

module _ {K : Type 0} {V : Type 0} (hash : K → ℕ) (compare : K → K → ℤ)
    (hashed : IsHashed hash compare) where
  -- The first entry of `es` with the key `j`, after the value `v` was stored under `k`.
  abbrev found_after : List (K × V) → K → V → K → Option (K × V)
  found_after es k v j = if entry_same compare k j then some (k, v) else find_entry compare es j

  find_entry-replace_entry :
      (es : List (K × V)) (k : K) (v : V) (e : K × V) (j : K)
      → find_entry compare es k ≡ some e
      → find_entry compare (replace_entry compare es k v) j ≡ found_after es k v j
  unfolding find_entry replace_entry
  find_entry-replace_entry [] k v e j h = cc
  find_entry-replace_entry (x ∷ es) k v e j h = elim (Bool-cases (entry_same compare x.0 k)) [
    | inl same ↦ elim (Bool-cases (entry_same compare k j)) [
      | inl here ↦ rw (same, here)
      | inr other ↦ elim (Bool-cases (entry_same compare x.0 j)) [
        | inl both ↦
            let q = hashed.same_trans k x.0 j (hashed.same_sym x.0 k same) both in absurd cc
        | inr neither ↦ rw (same, other, neither)
      ]
    ]
    | inr differs ↦
        let ih = find_entry-replace_entry es k v e j (rw differs at h) in
        elim (Bool-cases (entry_same compare x.0 j)) [
          | inl there ↦ elim (Bool-cases (entry_same compare k j)) [
            | inl both ↦
                let q = hashed.same_trans x.0 j k there (hashed.same_sym k j both) in absurd cc
            | inr other ↦ rw (differs, there, other)
          ]
          | inr not_there ↦ rw (differs, not_there, ih)
        ]
  ]

  find_entry-append :
      (es : List (K × V)) (k : K) (v : V) (j : K)
      → find_entry compare es k ≡ none
      → find_entry compare (es ++ (k, v) ∷ []) j ≡ found_after es k v j
  unfolding find_entry
  find_entry-append [] k v j h = refl
  find_entry-append (x ∷ es) k v j h = elim (Bool-cases (entry_same compare x.0 k)) [
    | inl same ↦ let e = rw same at h in absurd cc
    | inr differs ↦
        let ih = find_entry-append es k v j (rw differs at h) in
        elim (Bool-cases (entry_same compare x.0 j)) [
          | inl there ↦ elim (Bool-cases (entry_same compare k j)) [
            | inl both ↦
                let q = hashed.same_trans x.0 j k there (hashed.same_sym k j both) in absurd cc
            | inr other ↦ rw (there, other)
          ]
          | inr not_there ↦ rw (not_there, ih)
        ]
  ]

  -- The map is well formed, and looking up any key gives what the function says.
  pub record Represents (map : HashMap K V) (f : K → Option V) : Type 0 where
    pub positive : 0 < map.n_buckets
    pub sized : length map.buckets ≡ map.n_buckets
    pub looked_up : (k : K) → map_get hash compare map k ≡ ok (f k)

  abbrev pub update : (K → Option V) → K → V → K → Option V
  update f k v j = if entry_same compare k j then some v else f j

  abbrev value_of : Option (K × V) → Option V
  value_of none = none
  value_of (some e) = some e.1

  -- Looking up a key is looking it up in its bucket.
  bucket_at-eq :
      (map : HashMap K V) (k : K) (b : Option (List (K × V)))
      → 0 < map.n_buckets
      → get_elem? map.buckets (hash k % map.n_buckets) ≡ some b
      → bucket_at hash compare map k ≡ ok (hash k % map.n_buckets, b)
  unfolding bucket_at map_get_bucket
  bucket_at-eq map k b h e =
      let some_bucket : (map.n_buckets == 0) ≡ false = ground arith in rw (some_bucket, ◌>>=◌, e)

  map_get_entry-eq :
      (map : HashMap K V) (k : K) (b : Option (List (K × V)))
      → 0 < map.n_buckets
      → get_elem? map.buckets (hash k % map.n_buckets) ≡ some b
      → map_get_entry hash compare map k ≡ ok (find_entry compare (entries b) k)
  unfolding map_get_entry find_entry
  map_get_entry-eq map k none h e = rw (bucket_at-eq map k none h e)
  map_get_entry-eq map k (some es) h e = rw (bucket_at-eq map k (some es) h e)

  map_get-eq :
      (map : HashMap K V) (k : K) (b : Option (List (K × V)))
      → 0 < map.n_buckets
      → get_elem? map.buckets (hash k % map.n_buckets) ≡ some b
      → map_get hash compare map k ≡ ok (value_of (find_entry compare (entries b) k))
  unfolding map_get
  map_get-eq map k b h e =
      rw (map_get_entry-eq map k b h e) (found (find_entry compare (entries b) k))
    where
      found :
          (o : Option (K × V))
          → (elim o [ none ↦ ok none | some x ↦ ok (some x.1) ]) ≡ ok (value_of o)
      found none = refl
      found (some x) = refl

  -- What a map that represents `f` has in the bucket of a key.
  in_bucket :
      (map : HashMap K V) (f : K → Option V) (j : K) (b : Option (List (K × V)))
      → Represents map f
      → get_elem? map.buckets (hash j % map.n_buckets) ≡ some b
      → f j ≡ value_of (find_entry compare (entries b) j)
  in_bucket map f j b h at =
      let same : ok (f j) ≡ ok (value_of (find_entry compare (entries b) j)) =
        sym (h.looked_up j) ∙ map_get-eq map j b h.positive at in
      cc

  bucket_of :
      (map : HashMap K V) (f : K → Option V) (j : K)
      → Represents map f
      → (b : Option (List (K × V))) × (get_elem? map.buckets (hash j % map.n_buckets) ≡ some b)
  bucket_of map f j h =
      get_elem?-lt map.buckets (hash j % map.n_buckets) (omega (arith, h.sized, h.positive))

  -- The map with the entries `es` in the bucket of `k`.
  abbrev with_bucket : HashMap K V → ℕ → K → List (K × V) → HashMap K V
  with_bucket map size k es = record map {
    buckets = set map.buckets (hash k % map.n_buckets) (some es);
    size = size;
  }

  value_of-found_after :
      (f : K → Option V) (es : List (K × V)) (k : K) (v : V) (j : K)
      → f j ≡ value_of (find_entry compare es j)
      → value_of (found_after es k v j) ≡ update f k v j
  value_of-found_after f es k v j e = elim (Bool-cases (entry_same compare k j)) [
    | inl here ↦ rw here
    | inr other ↦ rw other (sym e)
  ]

  -- Looking up a key in a map in whose bucket of `k` the value `v` was stored under `k`.
  map_get-with_bucket :
      (map : HashMap K V) (size : ℕ) (f : K → Option V) (k : K) (v : V) (b : Option (List (K × V)))
      (es : List (K × V))
      → Represents map f
      → get_elem? map.buckets (hash k % map.n_buckets) ≡ some b
      → ((j : K) → find_entry compare es j ≡ found_after (entries b) k v j)
      → (j : K) → map_get hash compare (with_bucket map size k es) j ≡ ok (update f k v j)
  map_get-with_bucket map size f k v b es h at found j =
      let i = hash k % map.n_buckets in
      let after = with_bucket map size k es in
      elim (Bool-cases (i == hash j % map.n_buckets)) [
        | inl same ↦
            let e : i ≡ hash j % map.n_buckets = ground arith in
            let here : get_elem? (set map.buckets i (some es)) i ≡ some (some es) =
              get_elem?-set_self map.buckets i (some es) (omega (arith, h.sized, h.positive)) in
            let there =
              subst (λ n. get_elem? (set map.buckets i (some es)) n ≡ some (some es)) e here in
            let before = subst (λ n. get_elem? map.buckets n ≡ some b) e at in
            map_get-eq after j (some es) h.positive there
            ∙ ap ok (
                ap value_of (found j)
                ∙ value_of-found_after f (entries b) k v j (in_bucket map f j b h before))
        | inr other ↦
            let apart : i ≢ hash j % map.n_buckets = λ e. ground arith in
            let differs : entry_same compare k j ≡ false =
              elim (Bool-cases (entry_same compare k j)) [
                | inl equal ↦
                    absurd (apart (ap (λ n. n % map.n_buckets) (hashed.same_hash k j equal)))
                | inr differs ↦ differs
              ] in
            let unchanged : f j ≡ update f k v j = rw differs refl in
            let (bj, before) = bucket_of map f j h in
            let there =
              get_elem?-set map.buckets i (hash j % map.n_buckets) (some es) apart ∙ before in
            map_get-eq after j bj h.positive there
            ∙ ap ok (sym (in_bucket map f j bj h before) ∙ unchanged)
      ]

  set_as :
      (k : K) (v : V) (f : K → Option V) (map : HashMap K V) (size : ℕ) (es : List (K × V))
      → Represents map f
      → ((j : K) → map_get hash compare (with_bucket map size k es) j ≡ ok (update f k v j))
      → Represents (with_bucket map size k es) (update f k v)
  set_as k v f map size es h look = record {
    positive = h.positive;
    sized = length-set map.buckets (hash k % map.n_buckets) (some es) ∙ h.sized;
    looked_up = look;
  }

  -- A new map with a positive number of buckets has no value under any key.
  pub map_create-Represents : (n : ℕ) → 0 < n → Represents (map_create n) (λ k. none)
  unfolding map_create find_entry
  map_create-Represents n h = record {
    positive = h;
    sized = length-replicate n none;
    looked_up = λ k.
        map_get-eq (map_create n) k none h (get_elem?-replicate n (hash k % n) none (omega arith));
  }

  -- Setting a key of a map that represents a function returns the function's value at the key, and
  -- a map that represents the function with the new value at every key that is equal to it.
  pub map_set-Represents :
      (map : HashMap K V) (f : K → Option V) (k : K) (v : V)
      → Represents map f
      → Returns (map_set hash compare map k v) λ r. (r.0 ≡ f k) × Represents r.1 (update f k v)
  unfolding map_set
  map_set-Represents map f k v h =
      let (b, at) = bucket_of map f k h in
      let value = in_bucket map f k b h at in
      elim (Option-cases (find_entry compare (entries b) k)) [
        | inl absent ↦
            rw
              (
                map_get_entry-eq map k b h.positive at,
                bucket_at-eq map k b h.positive at,
                ◌>>=◌,
                absent,
              )
              ((
                _,
                refl,
                (
                  sym (value ∙ ap value_of absent),
                  set_as k v f map (map.size + 1) (entries b ++ (k, v) ∷ []) h (
                      map_get-with_bucket map (map.size + 1) f k v b (entries b ++ (k, v) ∷ []) h at
                        (λ j. find_entry-append (entries b) k v j absent)),
                ),
              ))
        | inr (e, present) ↦
            rw
              (
                map_get_entry-eq map k b h.positive at,
                bucket_at-eq map k b h.positive at,
                ◌>>=◌,
                present,
              )
              ((
                _,
                refl,
                (
                  sym (value ∙ ap value_of present),
                  set_as k v f map map.size (replace_entry compare (entries b) k v) h (
                      map_get-with_bucket map map.size f k v b
                        (replace_entry compare (entries b) k v) h at
                        (λ j. find_entry-replace_entry (entries b) k v e j present)),
                ),
              ))
      ]
