-- ===== src/Block/Merkle.antt =====
-- block.c: compute_merkle_root, which hashes an array of hashes together in place.
pub mod Tree
pub mod Width
use whosecoin_core.Base.{
  ℕ, zero, suc, ◌+◌, Bool, true, false, Option, none, some, List, [], ◌∷◌, ◌++◌, ltb, leb, ◌==◌,
  if◌then◌else◌, length, get_elem?, set, take, replicate, map, Run, ok, fault, out_of_fuel, ◌>>=◌,
  or_fault,
}
use whosecoin_core.Crypto.{Crypto, crypto_generichash_bytes}
use whosecoin_core.Transaction.{Transaction}

-- The cells of the array, and its length.
abbrev pub Hashes : Type 0
Hashes = List (List ℕ)

-- The hash that one round of the loop writes at `i`: the last of an odd number as it is, or two
-- adjacent ones together.
unfoldable pub join_at : Crypto → ℕ → Hashes → ℕ → Run (List ℕ)
join_at crypto n hashes j = or_fault (get_elem? hashes j) >>= λ x.
    if j + 1 == n
    then ok x
    else or_fault (get_elem? hashes (j + 1)) >>= λ y. ok (crypto.generichash (x ++ y))

-- `for (size_t j = 0; j < n; j += 2)`, with the array and `i` after the loop.
unfoldable pub merkle_level : ℕ → Crypto → ℕ → ℕ → ℕ → Hashes → Run (Hashes × ℕ)
unfolding join_at
merkle_level zero crypto n i j hashes = out_of_fuel
merkle_level (suc fuel) crypto n i j hashes = elim (ltb j n) [
  | false ↦ ok (hashes, i)
  | true ↦
      join_at crypto n hashes j >>= λ h. merkle_level fuel crypto n (i + 1) (j + 2) (set hashes i h)
]

unfoldable pub compute_merkle_root : ℕ → Crypto → Hashes → ℕ → Run Hashes
unfolding merkle_level
compute_merkle_root zero crypto hashes n = out_of_fuel
compute_merkle_root (suc fuel) crypto hashes n = elim (leb n 1) [
  | true ↦ ok hashes
  | false ↦
      merkle_level (n + 1) crypto n 0 0 hashes >>= λ r. compute_merkle_root fuel crypto r.0 r.1
]

-- `if (n > 0) memcpy(result, hashes[0], …) else memset(result, 0, …)`
unfoldable pub first_hash : Hashes → ℕ → Run (List ℕ)
first_hash hashes n =
    if ltb 0 n then or_fault (get_elem? hashes 0) else ok (replicate crypto_generichash_bytes 0)

-- The hashes of the transactions, hashed together. A round of `compute_merkle_root` at least
-- halves the number, so one for each hash is enough.
unfoldable pub merkle_root_from_list : Crypto → List Transaction → Run (List ℕ)
unfolding compute_merkle_root first_hash
merkle_root_from_list crypto txns =
    let n = length txns in
    compute_merkle_root (n + 1) crypto (map (λ txn. txn.hash) txns) n >>= λ hashes.
    first_hash hashes n
