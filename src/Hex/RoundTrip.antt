-- ===== src/Hex/RoundTrip.antt =====
-- Bytes that are written as hexadecimal text are read back, if there are fewer than 256 of them; of
-- more the loop never ends.
use whosecoin_core.Base.{
  ℕ, zero, suc, ◌+◌, ◌*◌, ◌/◌, ◌%◌, ◌≤◌, ◌<◌, ◌≡◌, refl, ap, ◌∙◌, arith, ◌==◌, true, some, List, [],
  ◌∷◌, ltb, length, get_elem?, get_elem?-lt, drop, ok, out_of_fuel, ◌>>=◌, Bool-cases, inl, inr,
}
use whosecoin_core.Bytes.{AreBytes}
use whosecoin_core.Hex.{
  scan_byte, hex_digit, digit_value, hex_loop, buffer_to_hex, unhex_loop, hex_to_binary,
  buffer_from_hex,
}

-- Two digits for each byte.
abbrev pub hex_of : List ℕ → List ℕ
hex_of [] = []
hex_of (b ∷ bytes) = hex_digit (b / 16) ∷ hex_digit (b % 16) ∷ hex_of bytes

pub digit_value-hex_digit : (d : ℕ) → d < 16 → digit_value (hex_digit d) ≡ some d
unfolding digit_value hex_digit
digit_value-hex_digit d h = ground arith

pub length-hex_of : (bytes : List ℕ) → length (hex_of bytes) ≡ 2 * length bytes
length-hex_of [] = refl
length-hex_of (b ∷ bytes) = omega (arith, length-hex_of bytes)

byte-lt : (bytes : List ℕ) (i b : ℕ) → AreBytes bytes → get_elem? bytes i ≡ some b → b < 256
byte-lt [] i b h e = absurd cc
byte-lt (c ∷ bytes) zero b (lt, h) e = let same : c ≡ b = cc in omega arith
byte-lt (c ∷ bytes) (suc i) b (lt, h) e = byte-lt bytes i b h e

drop-next :
    (bytes : List ℕ) (i b : ℕ) → get_elem? bytes i ≡ some b → drop i bytes ≡ b ∷ drop (suc i) bytes
drop-next [] i b e = absurd cc
drop-next (c ∷ bytes) zero b e = cc
drop-next (c ∷ bytes) (suc i) b e = drop-next bytes i b e

drop_all : (bytes : List ℕ) (i : ℕ) → length bytes ≤ i → drop i bytes ≡ []
drop_all [] zero h = refl
drop_all [] (suc i) h = refl
drop_all (c ∷ bytes) zero h = absurd (omega arith)
drop_all (c ∷ bytes) (suc i) h = drop_all bytes i (omega arith)

hex_loop-drop :
    (fuel : ℕ) (bytes : List ℕ) (i : ℕ)
    → length bytes < 256
    → i ≤ length bytes
    → length bytes < fuel + i
    → hex_loop fuel bytes (length bytes) i ≡ ok (hex_of (drop i bytes))
unfolding hex_loop
hex_loop-drop zero bytes i short within enough = absurd (omega arith)
hex_loop-drop (suc fuel) bytes i short within enough = elim (Bool-cases (ltb i (length bytes))) [
  | inl more ↦
      let (b, there) = get_elem?-lt bytes i (ground arith) in
      let next : (i + 1) % 256 ≡ suc i = ground arith in
      let rest = hex_loop-drop fuel bytes (suc i) short (ground arith) (omega arith) in
      rw (more, hex_loop, there, ◌>>=◌, next, rest, drop-next bytes i b there) refl
  | inr end ↦ rw (end, hex_loop, drop_all bytes i (ground arith)) refl
]

-- The text of fewer than 256 bytes has two digits for each.
pub buffer_to_hex-hex_of :
    (bytes : List ℕ) (fuel : ℕ)
    → length bytes < 256
    → length bytes < fuel
    → buffer_to_hex fuel bytes ≡ ok (hex_of bytes)
unfolding buffer_to_hex
buffer_to_hex-hex_of bytes fuel short enough =
    hex_loop-drop fuel bytes 0 short (omega arith) (omega arith)

get_elem?-hex_of :
    (bytes : List ℕ) (i b : ℕ)
    → get_elem? bytes i ≡ some b
    → (get_elem? (hex_of bytes) (2 * i) ≡ some (hex_digit (b / 16)))
      × (get_elem? (hex_of bytes) (2 * i + 1) ≡ some (hex_digit (b % 16)))
get_elem?-hex_of [] i b e = absurd cc
get_elem?-hex_of (c ∷ bytes) zero b e = let same : c ≡ b = cc in (cc, cc)
get_elem?-hex_of (c ∷ bytes) (suc i) b e =
    let even : 2 * suc i ≡ suc (suc (2 * i)) = omega arith in
    let odd : 2 * suc i + 1 ≡ suc (suc (2 * i + 1)) = omega arith in
    let text = hex_of (c ∷ bytes) in
    let (high, low) = get_elem?-hex_of bytes i b e in
    (ap (get_elem? text) even ∙ high, ap (get_elem? text) odd ∙ low)

scan_byte-hex_of :
    (bytes : List ℕ) (i b : ℕ)
    → AreBytes bytes
    → get_elem? bytes i ≡ some b
    → scan_byte (hex_of bytes) i ≡ ok b
unfolding scan_byte
scan_byte-hex_of bytes i b h e =
    let (high, low) = get_elem?-hex_of bytes i b e in
    let lt = byte-lt bytes i b h e in
    rw
      (
        high,
        low,
        digit_value-hex_digit (b / 16) (omega arith),
        digit_value-hex_digit (b % 16) (omega arith),
      )
      (ap ok (omega arith))

unhex_loop-drop :
    (fuel : ℕ) (bytes : List ℕ) (i : ℕ)
    → AreBytes bytes
    → length bytes < 256
    → i ≤ length bytes
    → length bytes < fuel + i
    → unhex_loop fuel (hex_of bytes) (length bytes) i ≡ ok (drop i bytes)
unfolding unhex_loop
unhex_loop-drop zero bytes i h short within enough = absurd (omega arith)
unhex_loop-drop (suc fuel) bytes i h short within enough =
    elim (Bool-cases (ltb i (length bytes))) [
      | inl more ↦
          let (b, there) = get_elem?-lt bytes i (ground arith) in
          let next : (i + 1) % 256 ≡ suc i = ground arith in
          let rest = unhex_loop-drop fuel bytes (suc i) h short (ground arith) (omega arith) in
          rw
            (
              more,
              unhex_loop,
              scan_byte-hex_of bytes i b h there,
              ◌>>=◌,
              next,
              rest,
              drop-next bytes i b there,
            )
            refl
      | inr end ↦ rw (end, unhex_loop, drop_all bytes i (ground arith)) refl
    ]

pub hex_to_binary-hex_of :
    (bytes : List ℕ) (fuel : ℕ)
    → AreBytes bytes
    → length bytes < 256
    → length bytes < fuel
    → hex_to_binary fuel (hex_of bytes) (length bytes) ≡ ok (some bytes)
unfolding hex_to_binary
hex_to_binary-hex_of bytes fuel h short enough =
    let whole : (length (hex_of bytes) == 2 * length bytes) ≡ true =
      ground (arith, length-hex_of bytes) in
    rw (whole, hex_to_binary, unhex_loop-drop fuel bytes 0 h short (omega arith) (omega arith))

-- Fewer than 256 bytes that are written as text, with more rounds than there are bytes, are read
-- back from it.
pub buffer_from_hex-to_hex :
    (bytes : List ℕ) (fuel : ℕ)
    → AreBytes bytes
    → length bytes < 256
    → length bytes < fuel
    → (hex : List ℕ) × (buffer_to_hex fuel bytes ≡ ok hex) × (buffer_from_hex fuel hex ≡ ok bytes)
unfolding buffer_from_hex
buffer_from_hex-to_hex bytes fuel h short enough =
    let half : length (hex_of bytes) / 2 ≡ length bytes = omega (arith, length-hex_of bytes) in
    (
      hex_of bytes,
      buffer_to_hex-hex_of bytes fuel short enough,
      rw half (unhex_loop-drop fuel bytes 0 h short (omega arith) (omega arith)),
    )

hex_loop_diverges :
    (bytes : List ℕ) (fuel i : ℕ)
    → 256 ≤ length bytes
    → i < 256
    → hex_loop fuel bytes (length bytes) i ≡ out_of_fuel
unfolding hex_loop
hex_loop_diverges bytes zero i long within = refl
hex_loop_diverges bytes (suc fuel) i long within =
    let (b, there) = get_elem?-lt bytes i (omega arith) in
    let more : ltb i (length bytes) ≡ true = ground arith in
    let rest = hex_loop_diverges bytes fuel ((i + 1) % 256) long (omega arith) in
    rw (more, hex_loop, there, ◌>>=◌, rest) refl

-- No amount of fuel ends the loop over 256 bytes or more.
pub buffer_to_hex_diverges :
    (bytes : List ℕ) (fuel : ℕ) → 256 ≤ length bytes → buffer_to_hex fuel bytes ≡ out_of_fuel
unfolding buffer_to_hex
buffer_to_hex_diverges bytes fuel long = hex_loop_diverges bytes fuel 0 long (omega arith)
