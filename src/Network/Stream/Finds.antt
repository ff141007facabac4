-- ===== src/Network/Stream/Finds.antt =====
-- What is read from the block of a buffer that holds a byte string, and where a message is found.
use whosecoin_core.Base.{
  ℕ, zero, suc, ◌+◌, ◌-◌, ◌%◌, ◌^◌, ◌≤◌, ◌≡◌, refl, ap, ◌∙◌, subst, arith, true, false, Option,
  none, some, List, [], ◌∷◌, ◌++◌, map, append-nil, leb, ◌==◌, length, length-append, length-drop,
  take, drop, take-append, Returns, ok, ◌>>=◌,
}
use whosecoin_core.Bytes.{be_bytes, length-be_bytes}
use whosecoin_core.Buffer.{Buffer, initialised, splice}
use whosecoin_core.Buffer.Refines.{Holds, length-map-some}
use whosecoin_core.Message.{message_get_magic, load}
use whosecoin_core.Message.Header.{load-at}
use whosecoin_core.Network.{message_magic_number, message_header_size}
use whosecoin_core.Network.Stream.{bytes_at, find_from, find_message_start}

initialised-drop :
    (bs : List ℕ) (spare : List (Option ℕ)) (n i : ℕ)
    → i + n ≤ length bs
    → initialised n (drop i (map some bs ++ spare)) ≡ ok (take n (drop i bs))
unfolding initialised
initialised-drop bs spare zero i h = refl
initialised-drop [] spare (suc n) i h = absurd (omega arith)
initialised-drop (b ∷ bs) spare (suc n) zero h =
    rw (initialised-drop bs spare n 0 (omega arith)) refl
initialised-drop (b ∷ bs) spare (suc n) (suc i) h =
    initialised-drop bs spare (suc n) i (omega arith)

pub bytes_at-Holds :
    (buf : Buffer) (bs : List ℕ) (n i : ℕ)
    → Holds buf bs
    → i + n ≤ length bs
    → bytes_at n i buf ≡ ok (take n (drop i bs))
unfolding bytes_at
bytes_at-Holds buf bs n i h room = rw h.layout (initialised-drop bs h.spare n i room)

take-drop-map :
    (xs ys : List ℕ) (spare : List (Option ℕ))
    → take (length ys) (drop (length xs) (map some (xs ++ ys) ++ spare)) ≡ map some ys
take-drop-map [] ys spare =
    subst (λ n. take n (map {B = Option ℕ} some ys ++ spare) ≡ map some ys) (length-map-some ys)
      (take-append (map some ys) spare)
take-drop-map (x ∷ xs) ys spare = take-drop-map xs ys spare

-- What follows the bytes that are spliced out stays.
pub splice-Holds :
    (n : ℕ) (buf : Buffer) (xs ys : List ℕ)
    → length xs ≡ n
    → Holds buf (xs ++ ys)
    → Returns (splice n buf) λ c. Holds c ys
unfolding splice
splice-Holds n buf xs ys e h =
    let total = length-append xs ys in
    let fits : leb n buf.length_field ≡ true = ground (arith, h.counted, total) in
    let left : buf.length_field - n ≡ length ys = omega (arith, h.counted, total) in
    let front : take (length ys) (drop n buf.bytes) ≡ map some ys = rw h.layout (
      subst
        (λ k.
          take (length ys) (drop k (map {B = Option ℕ} some (xs ++ ys) ++ h.spare)) ≡ map some ys)
        e (take-drop-map xs ys h.spare)) in
    let cells : length buf.bytes ≡ length (xs ++ ys) + length h.spare = rw h.layout (
      length-append (map {B = Option ℕ} some (xs ++ ys)) h.spare
      ∙ ap (λ k. k + length h.spare) (length-map-some (xs ++ ys))) in
    let after : Buffer = record buf {
      length_field = length ys;
      bytes = take (length ys) (drop n buf.bytes) ++ drop (length ys) buf.bytes;
    } in
    let held : Holds after ys = record {
      spare = drop (length ys) buf.bytes;
      layout = ap (λ (cs : List (Option ℕ)). cs ++ drop (length ys) buf.bytes) front;
      counted = refl;
      roomy = omega (arith, h.roomy, total);
      allocated = omega (arith, cells, h.allocated, length-drop (length ys) buf.bytes);
      word = h.word;
    } in
    (after, rw (fits, splice, left) refl, held)

-- The first four bytes are the magic number.
pub find_message_start-first :
    (buf : Buffer) (after : List ℕ)
    → Holds buf (be_bytes 4 message_magic_number ++ after)
    → 22 ≤ length after
    → find_message_start buf ≡ ok (some 0)
unfolding find_message_start message_get_magic
find_message_start-first buf after h long =
    let magic = be_bytes 4 message_magic_number in
    let four = length-be_bytes 4 message_magic_number in
    let total = length-append magic after in
    let rounds : (buf.length_field + 2 ^ 64 - message_header_size + 1) % 2 ^ 64
        ≡ suc (length after - 22) =
      omega (arith, h.counted, h.roomy, h.word, four, total) in
    let front : take 4 (magic ++ after) ≡ magic =
      subst (λ k. take k (magic ++ after) ≡ magic) four (take-append magic after) in
    let read : load 4 0 magic ≡ ok message_magic_number =
      subst (λ w. load 4 0 w ≡ ok message_magic_number) (append-nil magic)
        (load-at 4 0 message_magic_number [] [] refl (omega arith)) in
    let seen = bytes_at-Holds buf (magic ++ after) 4 0 h (omega (arith, four, total)) in
    rw (rounds, find_from, seen, ◌>>=◌, front, read) refl

-- The magic number stands nowhere that it is looked for.
abbrev pub IsQuiet : List ℕ → Type 0
IsQuiet tail =
    (i : ℕ)
    → i + message_header_size ≤ length tail
    → (m : ℕ) × (message_get_magic (take 4 (drop i tail)) ≡ ok m)
      × ((m == message_magic_number) ≡ false)

find_from-quiet :
    (left i : ℕ) (buf : Buffer) (tail : List ℕ)
    → Holds buf tail
    → IsQuiet tail
    → i + left + 25 ≤ length tail
    → find_from left buf i ≡ ok none
unfolding find_from
find_from-quiet zero i buf tail h quiet room = refl
find_from-quiet (suc left) i buf tail h quiet room =
    let (m, read, other) = quiet i (omega arith) in
    let rest = find_from-quiet left (i + 1) buf tail h quiet (omega arith) in
    rw (bytes_at-Holds buf tail 4 i h (omega arith), ◌>>=◌, read, ◌>>=◌, other, find_from) rest

pub find_message_start-quiet :
    (buf : Buffer) (tail : List ℕ)
    → Holds buf tail
    → IsQuiet tail
    → 25 ≤ length tail
    → find_message_start buf ≡ ok none
unfolding find_message_start
find_message_start-quiet buf tail h quiet long =
    let rounds : (buf.length_field + 2 ^ 64 - message_header_size + 1) % 2 ^ 64 ≡ length tail - 25 =
      omega (arith, h.counted, h.roomy, h.word) in
    rw rounds (find_from-quiet (length tail - 25) 0 buf tail h quiet (omega arith))
