-- ===== src/Cli/Words.antt =====
-- cli.c: split, on a line that is put together from words.
use whosecoin_core.Base.{
  ℕ, ◌<◌, ◌≡◌, ◌≢◌, refl, sym, ap, ◌∙◌, false, List, [], ◌∷◌, ◌++◌, arith, ◌==◌, length,
  append_assoc, append-nil,
}
use whosecoin_core.Cli.{until_zero, end_word, split_from, split}

-- The bytes are neither zero nor a space.
abbrev pub AreLetters : List ℕ → Type 0
AreLetters [] = Unit
AreLetters (b ∷ bs) = (0 < b) × (b ≢ b' ') × AreLetters bs

abbrev pub AreWords : List (List ℕ) → Type 0
AreWords [] = Unit
AreWords (w ∷ ws) = (0 < length w) × AreLetters w × AreWords ws

-- The words with a space between any two.
abbrev pub join : List (List ℕ) → List ℕ
join [] = []
join (w ∷ []) = w
join (w ∷ v ∷ ws) = w ++ b' ' ∷ join (v ∷ ws)

abbrev NoZeros : List ℕ → Type 0
NoZeros [] = Unit
NoZeros (b ∷ bs) = (0 < b) × NoZeros bs

until_zero-append : (s rest : List ℕ) → NoZeros s → until_zero (s ++ 0 ∷ rest) ≡ s
unfolding until_zero
until_zero-append [] rest h = refl
until_zero-append (b ∷ s) rest h =
    let more : (b == 0) ≡ false = ground arith in rw (more, until_zero-append s rest h.1)

AreLetters-NoZeros : (w s : List ℕ) → AreLetters w → NoZeros s → NoZeros (w ++ s)
AreLetters-NoZeros [] s h k = k
AreLetters-NoZeros (b ∷ w) s h k = (h.0, AreLetters-NoZeros w s h.2 k)

join-NoZeros : (ws : List (List ℕ)) → AreWords ws → NoZeros (join ws)
join-NoZeros [] h = tt
join-NoZeros (w ∷ []) h = rw (append-nil w) at (AreLetters-NoZeros w [] h.1 tt)
join-NoZeros (w ∷ v ∷ ws) h =
    AreLetters-NoZeros w (b' ' ∷ join (v ∷ ws)) h.1 (omega arith, join-NoZeros (v ∷ ws) h.2)

split_from-space :
    (word w rest : List ℕ)
    → AreLetters w
    → split_from word (w ++ b' ' ∷ rest) ≡ end_word (word ++ w) (split_from [] rest)
unfolding split_from
split_from-space word [] rest h = ap (λ v. end_word v (split_from [] rest)) (sym (append-nil word))
split_from-space word (b ∷ w) rest h =
    let letter : (b == b' ') ≡ false = ground arith in
    rw (letter, split_from-space (word ++ b ∷ []) w rest h.2)
      (ap (λ v. end_word v (split_from [] rest)) (append_assoc word (b ∷ []) w))

split_from-end : (word w : List ℕ) → AreLetters w → split_from word w ≡ end_word (word ++ w) []
unfolding split_from
split_from-end word [] h = ap (λ v. end_word v []) (sym (append-nil word))
split_from-end word (b ∷ w) h =
    let letter : (b == b' ') ≡ false = ground arith in
    rw (letter, split_from-end (word ++ b ∷ []) w h.2)
      (ap (λ v. end_word v []) (append_assoc word (b ∷ []) w))

end_word-word : (w : List ℕ) (ws : List (List ℕ)) → 0 < length w → end_word w ws ≡ w ∷ ws
end_word-word [] ws h = absurd (omega arith)
end_word-word (b ∷ w) ws h = refl

split_from-join : (ws : List (List ℕ)) → AreWords ws → split_from [] (join ws) ≡ ws
split_from-join [] h = unfold split_from in refl
split_from-join (w ∷ []) h = split_from-end [] w h.1 ∙ end_word-word w [] h.0
split_from-join (w ∷ v ∷ ws) h =
    split_from-space [] w (join (v ∷ ws)) h.1
    ∙ ap (end_word w) (split_from-join (v ∷ ws) h.2)
    ∙ end_word-word w (v ∷ ws) h.0

-- Words that are not empty and have neither a zero byte nor a space are split from the line that
-- has a space between any two of them, whatever follows the zero byte that ends the line.
pub split-join :
    (ws : List (List ℕ)) (rest : List ℕ) → AreWords ws → split (join ws ++ 0 ∷ rest) ≡ ws
unfolding split
split-join ws rest h =
    ap (split_from []) (until_zero-append (join ws) rest (join-NoZeros ws h)) ∙ split_from-join ws h
