-- ===== src/Text.antt =====
-- The texts that the C sources write out, as their bytes, and the numbers that `sprintf` prints.
pub mod Digits
pub mod Atoll
use Prim.Native.Char.{code}
use Prim.Native.String.{String}
use whosecoin_core.Base.{
  ℕ, zero, suc, ◌+◌, ◌-◌, ◌/◌, ◌%◌, ◌^◌, Bool, true, false, List, [], ◌∷◌, ◌++◌, ltb, if◌then◌else◌,
}

-- The bytes of a literal, without its zero byte.
abbrev pub codes : String → List ℕ
codes String.[] = []
codes (String.◌∷◌ c s) = code c ∷ codes s

-- The decimal digits of a number of at most `fuel + 1` of them.
unfoldable pub digits : ℕ → ℕ → List ℕ
digits zero n = (48 + n % 10) ∷ []
digits (suc fuel) n = elim (ltb n 10) [
  | true ↦ (48 + n) ∷ []
  | false ↦ digits fuel (n / 10) ++ (48 + n % 10) ∷ []
]

-- `%llu`; a 64-bit number has at most 20 digits.
unfoldable pub decimal : ℕ → List ℕ
unfolding digits
decimal n = digits 19 n

-- `%d` of a 32-bit word
unfoldable pub decimal_int : ℕ → List ℕ
unfolding decimal
decimal_int n = if ltb n (2 ^ 31) then decimal n else b'-' ∷ decimal (2 ^ 32 - n)
