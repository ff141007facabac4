-- ===== src/HashMap.antt =====
-- util/map.c: the hash map, a table of buckets with lists of entries.
-- A bucket's `list_t` stands for the sequence that it holds; the list's position of an entry is
-- that of the first with an equal key. Freed keys and values are not tracked.
pub mod Refines
use whosecoin_core.Base.{
  ℕ, zero, suc, ◌+◌, ◌%◌, Bool, true, false, Option, none, some, List, [], ◌∷◌, ◌++◌, ◌==◌,
  if◌then◌else◌, ℤ, is_zero, replicate, get_elem?, set, Run, ok, fault, ◌>>=◌, or_fault,
}

pub record HashMap (K : Type 0) (V : Type 0) : Type 0 where
  pub n_buckets : ℕ
  pub buckets : List (Option (List (K × V)))
  pub size : ℕ

unfoldable pub map_create : {K : Type 0} {V : Type 0} → ℕ → HashMap K V
map_create n_buckets = record {
  n_buckets = n_buckets;
  buckets = replicate n_buckets none;
  size = 0;
}

-- `entry_compare` in `list_find`, whose first argument is the entry of the list
unfoldable pub entry_same : {K : Type 0} → (K → K → ℤ) → K → K → Bool
entry_same compare old key = is_zero (compare old key)

abbrev pub entries : {K : Type 0} {V : Type 0} → Option (List (K × V)) → List (K × V)
entries none = []
entries (some bucket) = bucket

module _ {K : Type 0} {V : Type 0} (compare : K → K → ℤ) where
  -- The first entry with the key.
  unfoldable pub find_entry : List (K × V) → K → Option (K × V)
  unfolding entry_same
  find_entry [] key = none
  find_entry (e ∷ es) key =
      let later = find_entry es key in if entry_same compare e.0 key then some e else later

  -- The key and the value of the first entry with the key are replaced.
  unfoldable pub replace_entry : List (K × V) → K → V → List (K × V)
  unfolding entry_same
  replace_entry [] key val = []
  replace_entry (e ∷ es) key val =
      let later = replace_entry es key val in
      if entry_same compare e.0 key then (key, val) ∷ es else (e ∷ later)

  -- The bucket without its first entry with the key.
  unfoldable pub drop_entry : List (K × V) → K → List (K × V)
  unfolding entry_same
  drop_entry [] key = []
  drop_entry (e ∷ es) key =
      let later = drop_entry es key in if entry_same compare e.0 key then es else (e ∷ later)

module _ {K : Type 0} {V : Type 0} (hash : K → ℕ) (compare : K → K → ℤ) where
  -- A remainder by 0 is undefined.
  unfoldable pub map_get_bucket : HashMap K V → K → Run ℕ
  map_get_bucket map key = if map.n_buckets == 0 then fault else ok (hash key % map.n_buckets)

  -- The bucket pointer at the index, NULL where nothing was added.
  unfoldable pub bucket_at : HashMap K V → K → Run (ℕ × Option (List (K × V)))
  unfolding map_get_bucket
  bucket_at map key = do
    i ← map_get_bucket map key
    bucket ← or_fault (get_elem? map.buckets i)
    ok (i, bucket)

  unfoldable pub map_get_entry : HashMap K V → K → Run (Option (K × V))
  unfolding bucket_at find_entry
  map_get_entry map key = bucket_at map key >>= λ found. elim found.1 [
    | none ↦ ok none
    | some bucket ↦ ok (find_entry compare bucket key)
  ]

  unfoldable pub map_get : HashMap K V → K → Run (Option V)
  unfolding map_get_entry
  map_get map key =
      map_get_entry map key >>= λ found. elim found [ none ↦ ok none | some e ↦ ok (some e.1) ]

  -- The old value, or NULL, and the map.
  unfoldable pub map_set : HashMap K V → K → V → Run (Option V × HashMap K V)
  unfolding bucket_at map_get_entry replace_entry
  map_set map key val = do
    old ← map_get_entry map key
    (i, bucket) ← bucket_at map key
    elim old [
      | some e ↦ ok (
        some e.1,
        record map {
          buckets = set map.buckets i (some (replace_entry compare (entries bucket) key val));
        },
      )
      | none ↦ ok (
        none,
        record map {
          buckets = set map.buckets i (some (entries bucket ++ (key, val) ∷ []));
          size = map.size + 1;
        },
      )
    ]

  -- The size is not decreased.
  unfoldable pub map_remove : HashMap K V → K → Run (Option V × HashMap K V)
  unfolding bucket_at map_get_entry drop_entry
  map_remove map key = do
    old ← map_get_entry map key
    (i, bucket) ← bucket_at map key
    elim old [
      | none ↦ ok (none, map)
      | some e ↦ ok (
        some e.1,
        record map { buckets = set map.buckets i (some (drop_entry compare (entries bucket) key)) },
      )
    ]
