-- ===== src/Pool/Distinct.antt =====
-- No transaction is twice in the pool.
use whosecoin_core.Base.{
  ℕ, zero, suc, ◌+◌, ◌≡◌, refl, ◌∙◌, false, some, List, [], ◌∷◌, ◌++◌, arith, ◌==◌, length,
  get_elem?, remove_at, ok, ◌⊎◌, Bool-cases, inl, inr,
}
use whosecoin_core.ArrayList.Refines.{position}
use whosecoin_core.Transaction.{Transaction}
use whosecoin_core.Pool.{Pool, same_transaction, pool_add, pool_remove}

-- No transaction of the list compares equal to `txn`, as the second argument of the comparison.
abbrev pub Fresh : Transaction → List Transaction → Type 0
Fresh txn [] = Unit
Fresh txn (old ∷ rest) = (same_transaction old txn ≡ false) × Fresh txn rest

-- No two transactions of the list compare equal.
abbrev Apart : Transaction → List Transaction → Type 0
Apart old [] = Unit
Apart old (txn ∷ rest) = (same_transaction old txn ≡ false) × Apart old rest

abbrev pub AreDistinct : List Transaction → Type 0
AreDistinct [] = Unit
AreDistinct (old ∷ rest) = Apart old rest × AreDistinct rest

Apart-append :
    (old : Transaction) (xs : List Transaction) (txn : Transaction)
    → Apart old xs
    → same_transaction old txn ≡ false
    → Apart old (xs ++ txn ∷ [])
Apart-append old [] txn h e = (e, tt)
Apart-append old (x ∷ xs) txn (d, h) e = (d, Apart-append old xs txn h e)

AreDistinct-append :
    (xs : List Transaction) (txn : Transaction)
    → AreDistinct xs
    → Fresh txn xs
    → AreDistinct (xs ++ txn ∷ [])
AreDistinct-append [] txn h f = (tt, tt)
AreDistinct-append (x ∷ xs) txn (a, h) (e, f) =
    (Apart-append x xs txn a e, AreDistinct-append xs txn h f)

position-Fresh :
    (xs : List Transaction) (txn : Transaction) (i : ℕ)
    → position (λ old. same_transaction old txn) xs i ≡ i + length xs
    → Fresh txn xs
position-Fresh [] txn i e = tt
position-Fresh (x ∷ xs) txn i e = elim (Bool-cases (same_transaction x txn)) [
  | inl same ↦ let f : i ≡ i + suc (length xs) = rw same at e in absurd (omega arith)
  | inr other ↦
      let f : position (λ old. same_transaction old txn) xs (suc i) ≡ i + suc (length xs) =
        rw other at e in
      (other, position-Fresh xs txn (suc i) (f ∙ omega arith))
]

-- Adding a transaction to a pool of distinct transactions keeps them distinct, and appends the
-- transaction or leaves the pool as it is.
pub pool_add-AreDistinct :
    (pool : Pool) (txn : Transaction)
    → AreDistinct pool
    → AreDistinct (pool_add pool txn)
      × ((pool_add pool txn ≡ pool ++ txn ∷ []) ⊎ (pool_add pool txn ≡ pool))
unfolding pool_add
pool_add-AreDistinct pool txn h =
    let i = position (λ old. same_transaction old txn) pool 0 in
    elim (Bool-cases (i == length pool)) [
      | inl new ↦
          rw new
            (AreDistinct-append pool txn h (position-Fresh pool txn 0 (ground arith)), inl refl)
      | inr known ↦ rw known (h, inr refl)
    ]

Apart-remove_at :
    (old : Transaction) (xs : List Transaction) (i : ℕ) → Apart old xs → Apart old (remove_at xs i)
Apart-remove_at old [] i h = tt
Apart-remove_at old (x ∷ xs) zero (d, h) = h
Apart-remove_at old (x ∷ xs) (suc i) (d, h) = (d, Apart-remove_at old xs i h)

AreDistinct-remove_at :
    (xs : List Transaction) (i : ℕ) → AreDistinct xs → AreDistinct (remove_at xs i)
AreDistinct-remove_at [] i h = tt
AreDistinct-remove_at (x ∷ xs) zero (a, h) = h
AreDistinct-remove_at (x ∷ xs) (suc i) (a, h) =
    (Apart-remove_at x xs i a, AreDistinct-remove_at xs i h)

-- Removing at an index of the pool gives the transaction there, and keeps the rest distinct.
pub pool_remove-AreDistinct :
    (pool : Pool) (i : ℕ) (txn : Transaction)
    → AreDistinct pool
    → get_elem? pool i ≡ some txn
    → (pool_remove pool i ≡ ok (txn, remove_at pool i)) × AreDistinct (remove_at pool i)
unfolding pool_remove
pool_remove-AreDistinct pool i txn h e = (rw e, AreDistinct-remove_at pool i h)
