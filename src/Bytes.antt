-- ===== src/Bytes.antt =====
-- Machine words as bytes, and what the C library does with bytes: `memcmp`, `strlen`, `htonl`.
-- The host is little-endian, so a word that went through `htonl` is laid out most significant
-- byte first, and one that did not, least significant byte first.
use native.Mathlib.Nat.{pow-suc}
use whosecoin_core.Base.{
  ℕ, zero, suc, ◌+◌, ◌*◌, ◌/◌, ◌%◌, ◌^◌, ◌<◌, ◌≡◌, refl, ap, ◌∙◌, Bool, true, false, Option, none,
  some, List, [], ◌∷◌, ◌++◌, arith, ◌==◌, if◌then◌else◌, replicate, ℤ, pos, sub_ℕ, is_zero,
  is_negative, length, length-append,
}

-- The `k` low bytes of `v`, most significant first.
unfoldable pub be_bytes : ℕ → ℕ → List ℕ
be_bytes zero v = []
be_bytes (suc k) v = be_bytes k (v / 256) ++ (v % 256) ∷ []

-- The same, least significant first.
unfoldable pub le_bytes : ℕ → ℕ → List ℕ
le_bytes zero v = []
le_bytes (suc k) v = v % 256 ∷ le_bytes k (v / 256)

unfoldable pub from_be : ℕ → List ℕ → ℕ
from_be acc [] = acc
from_be acc (b ∷ bs) = from_be (acc * 256 + b) bs

unfoldable pub from_le : List ℕ → ℕ
from_le [] = 0
from_le (b ∷ bs) = b + 256 * from_le bs

-- Every number in the list is a byte.
abbrev pub AreBytes : List ℕ → Type 0
AreBytes [] = Unit
AreBytes (b ∷ bytes) = (b < 256) × AreBytes bytes

pub AreBytes-append : (xs ys : List ℕ) → AreBytes xs → AreBytes ys → AreBytes (xs ++ ys)
AreBytes-append [] ys h k = k
AreBytes-append (x ∷ xs) ys h k = (h.0, AreBytes-append xs ys h.1 k)

pub AreBytes-replicate : (n b : ℕ) → b < 256 → AreBytes (replicate n b)
AreBytes-replicate zero b h = tt
AreBytes-replicate (suc n) b h = (h, AreBytes-replicate n b h)

pub length-be_bytes : (k v : ℕ) → length (be_bytes k v) ≡ k
unfolding be_bytes
length-be_bytes zero v = refl
length-be_bytes (suc k) v =
    omega
      (arith, length-append (be_bytes k (v / 256)) ((v % 256) ∷ []), length-be_bytes k (v / 256))

pub length-le_bytes : (k v : ℕ) → length (le_bytes k v) ≡ k
unfolding le_bytes
length-le_bytes zero v = refl
length-le_bytes (suc k) v = ap suc (length-le_bytes k (v / 256))

from_be-append :
    (acc : ℕ) (xs : List ℕ) (b : ℕ) → from_be acc (xs ++ b ∷ []) ≡ from_be acc xs * 256 + b
unfolding from_be
from_be-append acc [] b = refl
from_be-append acc (x ∷ xs) b = from_be-append (acc * 256 + x) xs b

-- A word that fits in `k` bytes is read back, in either byte order.
pub from_be-be_bytes : (k v : ℕ) → v < 256 ^ k → from_be 0 (be_bytes k v) ≡ v
unfolding be_bytes
from_be-be_bytes zero v h = unfold from_be in omega arith
from_be-be_bytes (suc k) v h =
    let ih = from_be-be_bytes k (v / 256) (omega (arith, pow-suc 256 k)) in
    from_be-append 0 (be_bytes k (v / 256)) (v % 256) ∙ omega arith

pub from_le-le_bytes : (k v : ℕ) → v < 256 ^ k → from_le (le_bytes k v) ≡ v
unfolding le_bytes from_le
from_le-le_bytes zero v h = omega arith
from_le-le_bytes (suc k) v h =
    let ih = from_le-le_bytes k (v / 256) (omega (arith, pow-suc 256 k)) in omega arith

-- `memcmp(a, b, n)` over bytes that are there: the difference of the first two that differ.
unfoldable pub memcmp : ℕ → List ℕ → List ℕ → ℤ
memcmp zero a b = pos 0
memcmp (suc n) (x ∷ a) (y ∷ b) = let rest = memcmp n a b in if x == y then rest else sub_ℕ x y
memcmp (suc n) _ _ = pos 0

pub memcmp_refl : (n : ℕ) (a : List ℕ) → memcmp n a a ≡ pos 0
unfolding memcmp
memcmp_refl zero a = refl
memcmp_refl (suc n) [] = refl
memcmp_refl (suc n) (x ∷ a) = ground (arith, memcmp_refl n a)

-- Two strings of the length that is compared are equal exactly when the result is 0.
pub memcmp-eq :
    (n : ℕ) (a b : List ℕ) → length a ≡ n → length b ≡ n → is_zero (memcmp n a b) ≡ true → a ≡ b
unfolding memcmp
memcmp-eq zero [] [] p q h = refl
memcmp-eq zero [] (y ∷ b) p q h = absurd (omega arith)
memcmp-eq zero (x ∷ a) b p q h = absurd (omega arith)
memcmp-eq (suc n) [] b p q h = absurd (omega arith)
memcmp-eq (suc n) (x ∷ a) [] p q h = absurd (omega arith)
memcmp-eq (suc n) (x ∷ a) (y ∷ b) p q h = ground (arith, memcmp-eq n a b)

-- `strcmp(s, t) == 0`
unfoldable pub same_string : List ℕ → List ℕ → Bool
same_string [] [] = true
same_string (x ∷ s) (y ∷ t) = let rest = same_string s t in if x == y then rest else false
same_string _ _ = false

-- A string compares equal to itself.
pub same_string_refl : (s : List ℕ) → same_string s s ≡ true
unfolding same_string
same_string_refl [] = refl
same_string_refl (x ∷ s) = ground (arith, same_string_refl s)

pub same_string-eq : (s t : List ℕ) → same_string s t ≡ true → s ≡ t
unfolding same_string
same_string-eq [] [] h = refl
same_string-eq (x ∷ s) (y ∷ t) h = ground (arith, same_string-eq s t)
same_string-eq [] (y ∷ t) h = absurd cc
same_string-eq (x ∷ s) [] h = absurd cc

-- `strlen`, where the terminating zero byte is there.
unfoldable pub strlen : List ℕ → Option ℕ
strlen [] = none
strlen (b ∷ bs) =
    if b == 0 then some 0 else elim (strlen bs) [ none ↦ none | some n ↦ some (n + 1) ]

-- The bytes hold no zero byte.
abbrev pub NoZero : List ℕ → Type 0
NoZero [] = Unit
NoZero (b ∷ bs) = (0 < b) × NoZero bs

pub strlen-append : (s rest : List ℕ) → NoZero s → strlen (s ++ 0 ∷ rest) ≡ some (length s)
unfolding strlen
strlen-append [] rest h = refl
strlen-append (b ∷ s) rest h =
    let ih = strlen-append s rest h.1 in
    let more : (b == 0) ≡ false = ground arith in rw (more, ih) (ap some (omega arith))

-- The string `a` is not less than `b`.
abbrev pub AtLeast : ℕ → List ℕ → List ℕ → Type 0
AtLeast n a b = is_negative (memcmp n a b) ≡ false

pub AtLeast-refl : (n : ℕ) (a : List ℕ) → AtLeast n a a
AtLeast-refl n a = rw (memcmp_refl n a)

pub AtLeast-less : (n : ℕ) (a b : List ℕ) → is_negative (memcmp n a b) ≡ true → AtLeast n b a
unfolding memcmp
AtLeast-less zero a b h = refl
AtLeast-less (suc n) [] b h = cc
AtLeast-less (suc n) (x ∷ a) [] h = refl
AtLeast-less (suc n) (x ∷ a) (y ∷ b) h = ground (arith, AtLeast-less n a b)

pub AtLeast-trans :
    (n : ℕ) (a b c : List ℕ)
    → length a ≡ n
    → length b ≡ n
    → length c ≡ n
    → AtLeast n a b
    → AtLeast n b c
    → AtLeast n a c
unfolding memcmp
AtLeast-trans zero a b c p q r h k = refl
AtLeast-trans (suc n) (x ∷ a) (y ∷ b) (z ∷ c) p q r h k = ground (arith, AtLeast-trans n a b c)
AtLeast-trans (suc n) [] b c p q r h k = refl
AtLeast-trans (suc n) (x ∷ a) [] c p q r h k = absurd (omega arith)
AtLeast-trans (suc n) (x ∷ a) (y ∷ b) [] p q r h k = refl
