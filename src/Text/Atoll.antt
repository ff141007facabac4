-- ===== src/Text/Atoll.antt =====
-- The C library's atoll, by which main.c reads the value to send, and the numbers that are printed.
use whosecoin_core.Base.{
  ℕ, zero, suc, ◌+◌, ◌-◌, ◌*◌, ◌/◌, ◌%◌, ◌^◌, ◌≤◌, ◌<◌, ◌≡◌, refl, ap, ◌∙◌, Bool, true, false, ◌&&◌,
  ◌||◌, List, [], ◌∷◌, ◌++◌, arith, ltb, leb, ◌==◌, if◌then◌else◌, length, length-append, Run, ok,
  fault,
}
use whosecoin_core.Text.{digits, decimal}
use whosecoin_core.Text.Digits.{number, number-decimal}

abbrev is_digit : ℕ → Bool
is_digit c = leb 48 c && leb c 57

-- The number that the digits at the start of the text stand for, after those of `n`.
unfoldable read_digits : ℕ → List ℕ → ℕ
read_digits n [] = n
read_digits n (c ∷ cs) =
    let more = read_digits (n * 10 + (c - 48)) cs in if is_digit c then more else n

-- A `long long` as the word that it is converted to; another number is undefined behaviour.
abbrev positive : ℕ → Run ℕ
positive n = if ltb n (2 ^ 63) then ok n else fault

abbrev negative : ℕ → Run ℕ
negative n = if leb n (2 ^ 63) then ok ((2 ^ 64 - n) % 2 ^ 64) else fault

-- White space, a sign, and digits.
unfoldable pub atoll : List ℕ → Run ℕ
unfolding read_digits
atoll [] = ok 0
atoll (c ∷ cs) =
    let later = atoll cs in
    if (leb 9 c && leb c 13) || (c == b' ')
    then later
    else if c == b'-'
    then negative (read_digits 0 cs)
    else if c == b'+'
    then positive (read_digits 0 cs)
    else positive (read_digits 0 (c ∷ cs))

abbrev pub AreDigits : List ℕ → Type 0
AreDigits [] = Unit
AreDigits (c ∷ cs) = (48 ≤ c) × (c ≤ 57) × AreDigits cs

AreDigits-append : (cs : List ℕ) (c : ℕ) → AreDigits cs → 48 ≤ c → c ≤ 57 → AreDigits (cs ++ c ∷ [])
AreDigits-append [] c h p q = (p, q, tt)
AreDigits-append (d ∷ cs) c h p q = (h.0, h.1, AreDigits-append cs c h.2 p q)

-- Some digits.
abbrev AreSome : List ℕ → Type 0
AreSome cs = (0 < length cs) × AreDigits cs

chosen-AreSome :
    (test : Bool) (xs ys : List ℕ)
    → (test ≡ true → AreSome xs)
    → AreSome ys
    → AreSome (elim test [ true ↦ xs | false ↦ ys ])
chosen-AreSome true xs ys h k = h refl
chosen-AreSome false xs ys h k = k

digits-AreSome : (fuel n : ℕ) → AreSome (digits fuel n)
unfolding digits
digits-AreSome zero n = (omega arith, (omega arith, omega arith, tt))
digits-AreSome (suc fuel) n =
    let size = length-append (digits fuel (n / 10)) ((48 + n % 10) ∷ []) in
    chosen-AreSome (ltb n 10) ((48 + n) ∷ []) (digits fuel (n / 10) ++ (48 + n % 10) ∷ [])
      (λ one. (omega arith, (omega arith, ground arith, tt)))
      (
        omega arith,
        AreDigits-append (digits fuel (n / 10)) (48 + n % 10) (digits-AreSome fuel (n / 10)).1
            (omega arith) (omega arith),
      )

pub decimal-AreSome : (n : ℕ) → AreSome (decimal n)
unfolding decimal
decimal-AreSome n = digits-AreSome 19 n

read_digits-number : (n : ℕ) (cs : List ℕ) → AreDigits cs → read_digits n cs ≡ number n cs
unfolding read_digits
read_digits-number n [] h = refl
read_digits-number n (c ∷ cs) h =
    let digit : is_digit c ≡ true = ground arith in
    rw digit (read_digits-number (n * 10 + (c - 48)) cs h.2)

atoll-number : (cs : List ℕ) → AreDigits cs → atoll cs ≡ positive (number 0 cs)
unfolding atoll
atoll-number [] h = refl
atoll-number (c ∷ cs) h =
    let no_space : ((leb 9 c && leb c 13) || (c == b' ')) ≡ false = ground arith in
    let no_minus : (c == b'-') ≡ false = ground arith in
    let no_plus : (c == b'+') ≡ false = ground arith in
    rw (no_space, no_minus, no_plus) (ap positive (read_digits-number 0 (c ∷ cs) h))

-- The text that is printed for a number below 2 ^ 63 is read as this number.
pub atoll-decimal : (n : ℕ) → n < 2 ^ 63 → atoll (decimal n) ≡ ok n
unfolding decimal
atoll-decimal n h =
    let small : ltb n (2 ^ 63) ≡ true = ground arith in
    atoll-number (digits 19 n) (digits-AreSome 19 n).1
    ∙ ap positive (number-decimal n (omega arith))
    ∙ (rw small)
