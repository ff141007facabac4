-- ===== src/Heap/Swap.antt =====
-- Exchanging two elements of a list, with the ranks of the elements by index.
use mathlib.Core.Option.{some-injective}
use mathlib.Core.List.{Perm}
use mathlib.Core.List.Perm
use whosecoin_core.Base.{
  ℕ, zero, suc, ◌<◌, ◌≡◌, ◌≢◌, refl, sym, ap, ◌∙◌, Bool-cases, inl, inr, get_elem?-some→lt, arith,
  none, some, List, [], ◌∷◌, ◌++◌, ◌==◌, if◌then◌else◌, length, get_elem?, set, length-set,
  get_elem?-lt, get_elem?-set, get_elem?-set_self,
}

module _ {A : Type 0} where
  -- A write gives one element for another.
  set-Perm :
      (xs : List A) (i : ℕ) (v x : A) → get_elem? xs i ≡ some x → Perm (x ∷ set xs i v) (v ∷ xs)
  set-Perm [] i v x at = absurd cc
  set-Perm (y ∷ xs) zero v x at = let same : y ≡ x = cc in rw same (Perm.swap v x xs)
  set-Perm (y ∷ xs) (suc i) v x at =
      Perm.trans (Perm.swap y x _)
        (Perm.trans (Perm.cons y (set-Perm xs i v x at)) (Perm.swap v y xs))

  -- The elements at two indices of the list, exchanged.
  unfoldable pub swap : List A → ℕ → ℕ → List A
  swap xs i j = elim (get_elem? xs i) [
    | none ↦ xs
    | some x ↦ elim (get_elem? xs j) [ none ↦ xs | some y ↦ set (set xs i y) j x ]
  ]

  module _ (xs : List A) (i j : ℕ) (x y : A) (at_i : get_elem? xs i ≡ some x)
      (at_j : get_elem? xs j ≡ some y) where
    pub swap-eq : swap xs i j ≡ set (set xs i y) j x
    unfolding swap
    swap-eq = rw (at_i, swap, at_j)

    pub length-swap : length (swap xs i j) ≡ length xs
    length-swap = rw swap-eq (simp length-set)

    pub swap-Perm : Perm (swap xs i j) xs
    swap-Perm =
        let kept : get_elem? (set xs i y) j ≡ some y = elim (Bool-cases (i == j)) [
          | inl same ↦
              let e : i ≡ j = ground arith in
              rw (← e) (get_elem?-set_self xs i y (get_elem?-some→lt xs i x at_i))
          | inr apart ↦ get_elem?-set xs i j y (λ e. ground arith) ∙ at_j
        ] in
        rw swap-eq
          (Perm.cons_inv (Perm.trans (set-Perm (set xs i y) j x y kept) (set-Perm xs i y x at_i)))

    pub get_elem?-swap : i ≢ j → get_elem? (swap xs i j) i ≡ some y
    get_elem?-swap apart = rw swap-eq (
        get_elem?-set (set xs i y) j i x (λ e. apart (sym e))
        ∙ get_elem?-set_self xs i y (get_elem?-some→lt xs i x at_i))

module _ {A : Type 0} (rank : A → ℕ) where
  -- The rank of the element at an index, and 0 past the end.
  abbrev pub key : List A → ℕ → ℕ
  key [] i = 0
  key (x ∷ xs) zero = rank x
  key (x ∷ xs) (suc i) = key xs i

  pub key-at : (xs : List A) (i : ℕ) (x : A) → get_elem? xs i ≡ some x → key xs i ≡ rank x
  key-at [] i x at = absurd cc
  key-at (y ∷ xs) zero x at = ap rank (some-injective _ _ at)
  key-at (y ∷ xs) (suc i) x at = key-at xs i x at

  key-set :
      (xs : List A) (i c : ℕ) (v : A)
      → i < length xs
      → key (set xs i v) c ≡ (if i == c then rank v else key xs c)
  key-set [] i c v h = absurd (omega arith)
  key-set (x ∷ xs) zero zero v h = refl
  key-set (x ∷ xs) zero (suc c) v h = ground arith
  key-set (x ∷ xs) (suc i) zero v h = ground arith
  key-set (x ∷ xs) (suc i) (suc c) v h = ground (arith, key-set xs i c v)

  pub key-append : (xs ys : List A) (i : ℕ) → i < length xs → key (xs ++ ys) i ≡ key xs i
  key-append [] ys i h = absurd (omega arith)
  key-append (x ∷ xs) ys zero h = refl
  key-append (x ∷ xs) ys (suc i) h = key-append xs ys i (omega arith)

  pub key-swap :
      (xs : List A) (i j : ℕ)
      → i < length xs
      → j < length xs
      → (c : ℕ)
      → key (swap xs i j) c ≡ (if j == c then key xs i else if i == c then key xs j else key xs c)
  key-swap xs i j hi hj c =
      let (x, at_i) = get_elem?-lt xs i hi in
      let (y, at_j) = get_elem?-lt xs j hj in
      rw (
        swap-eq xs i j x y at_i at_j,
        key-set (set xs i y) j c x (rw length-set hj),
        key-set xs i c y hi,
        key-at xs i x at_i,
        key-at xs j y at_j,
      )
