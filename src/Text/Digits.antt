-- ===== src/Text/Digits.antt =====
-- The digits that are printed stand for the number.
use whosecoin_core.Base.{
  ℕ, zero, suc, ◌+◌, ◌-◌, ◌*◌, ◌/◌, ◌%◌, ◌^◌, ◌<◌, ◌≡◌, refl, ◌∙◌, arith, List, [], ◌∷◌, ◌++◌, ltb,
  Bool-cases, inl, inr,
}
use whosecoin_core.Text.{digits, decimal}
use native.Mathlib.Nat.{pow-suc}

-- The number that decimal digits stand for, after those of `n`.
abbrev pub number : ℕ → List ℕ → ℕ
number n [] = n
number n (c ∷ cs) = number (n * 10 + (c - 48)) cs

number-append :
    (n : ℕ) (cs : List ℕ) (c : ℕ) → number n (cs ++ c ∷ []) ≡ number n cs * 10 + (c - 48)
number-append n [] c = refl
number-append n (d ∷ cs) c = number-append (n * 10 + (d - 48)) cs c

number-digits : (fuel n : ℕ) → n < 10 ^ suc fuel → number 0 (digits fuel n) ≡ n
unfolding digits
number-digits zero n h = omega (arith, pow-suc 10 0)
number-digits (suc fuel) n h = elim (Bool-cases (ltb n 10)) [
  | inl one ↦ rw (one, number) (omega arith)
  | inr more ↦
      let ih = number-digits fuel (n / 10) (omega (arith, pow-suc 10 (suc fuel))) in
      rw (more, number) (number-append 0 (digits fuel (n / 10)) (48 + n % 10) ∙ omega arith)
]

-- A 64-bit number is the number of the digits that are printed for it.
pub number-decimal : (n : ℕ) → n < 2 ^ 64 → number 0 (decimal n) ≡ n
unfolding decimal
number-decimal n h = number-digits 19 n (omega arith)
