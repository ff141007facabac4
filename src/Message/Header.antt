-- ===== src/Message/Header.antt =====
-- The header that is written word by word over a block of memory is the one that is read.
use whosecoin_core.Base.{
  ℕ, zero, suc, ◌+◌, ◌*◌, ◌^◌, ◌≤◌, ◌<◌, ◌≡◌, refl, sym, ap, ◌∙◌, subst, false, List, [], ◌∷◌, ◌++◌,
  append_assoc, append-nil, arith, ltb, length, take, drop, length-append, length-drop, take-append,
  drop-append, ok, ◌>>=◌,
}
use whosecoin_core.Bytes.{be_bytes, length-be_bytes, from_be-be_bytes}
use whosecoin_core.Message.{Guid, load, store, load_words, store_words}

drop-past : (xs ys : List ℕ) (k : ℕ) → drop (length xs + k) (xs ++ ys) ≡ drop k ys
drop-past [] ys k = let e : 0 + k ≡ k = omega arith in ap (λ n. drop n ys) e
drop-past (x ∷ xs) ys k =
    let e : suc (length xs) + k ≡ suc (length xs + k) = omega arith in
    ap (λ n. drop n (x ∷ (xs ++ ys))) e ∙ drop-past xs ys k

-- Storing a word right behind the bytes that are known makes them longer by this word.
pub store-next :
    (k offset w : ℕ) (done rest : List ℕ)
    → offset ≡ length done
    → k ≤ length rest
    → store k offset w (done ++ rest) ≡ ok ((done ++ be_bytes k w) ++ drop k rest)
unfolding store
store-next k offset w done rest e h =
    let room : ltb (length (done ++ rest)) (offset + k) ≡ false =
      ground (arith, length-append done rest) in
    rw (room, e, take-append done rest, drop-past done rest k)
      (ap ok (sym (append_assoc done (be_bytes k w) (drop k rest))))

-- A word of the message is read back.
pub load-at :
    (k offset w : ℕ) (before after : List ℕ)
    → offset ≡ length before
    → w < 256 ^ k
    → load k offset (before ++ (be_bytes k w ++ after)) ≡ ok w
unfolding load
load-at k offset w before after e h =
    let there : drop offset (before ++ (be_bytes k w ++ after)) ≡ be_bytes k w ++ after =
      ap (λ n. drop n (before ++ (be_bytes k w ++ after))) e ∙ drop-append before _ in
    let word : take k (be_bytes k w ++ after) ≡ be_bytes k w =
      subst (λ n. take n (be_bytes k w ++ after) ≡ be_bytes k w) (length-be_bytes k w)
        (take-append (be_bytes k w) after) in
    let room : ltb (length (be_bytes k w)) k ≡ false = ground (arith, length-be_bytes k w) in
    rw (there, word, room) (ap ok (from_be-be_bytes k w h))

abbrev pub be_words : Guid → List ℕ
be_words [] = []
be_words (w ∷ ws) = be_bytes 4 w ++ be_words ws

abbrev pub AreWords : Guid → Type 0
AreWords [] = Unit
AreWords (w ∷ ws) = (w < 2 ^ 32) × AreWords ws

pub length-be_words : (ws : Guid) → length (be_words ws) ≡ length ws * 4
length-be_words [] = refl
length-be_words (w ∷ ws) =
    omega
      (arith, length-append (be_bytes 4 w) (be_words ws), length-be_bytes 4 w, length-be_words ws)

drop_nil : (n : ℕ) → drop {A = ℕ} n [] ≡ []
drop_nil zero = refl
drop_nil (suc n) = refl

drop-drop : (a b : ℕ) (xs : List ℕ) → drop b (drop a xs) ≡ drop (a + b) xs
drop-drop zero b xs = let e : b ≡ 0 + b = omega arith in ap (λ n. drop n xs) e
drop-drop (suc a) b [] = drop_nil b ∙ sym (drop_nil (suc a + b))
drop-drop (suc a) b (x ∷ xs) =
    let e : suc (a + b) ≡ suc a + b = omega arith in drop-drop a b xs ∙ ap (λ n. drop n (x ∷ xs)) e

pub store_words-next :
    (ws : Guid) (offset : ℕ) (done rest : List ℕ)
    → offset ≡ length done
    → length ws * 4 ≤ length rest
    → store_words ws offset (done ++ rest) ≡ ok ((done ++ be_words ws) ++ drop (length ws * 4) rest)
unfolding store_words
store_words-next [] offset done rest e h = ap ok (ap (λ d. d ++ rest) (sym (append-nil done)))
store_words-next (w ∷ ws) offset done rest e h =
    let next =
      store_words-next ws (offset + 4) (done ++ be_bytes 4 w) (drop 4 rest)
        (omega (arith, length-append done (be_bytes 4 w), length-be_bytes 4 w))
        (omega (arith, length-drop 4 rest)) in
    rw
      (
        store-next 4 offset w done rest e (omega arith),
        ◌>>=◌,
        next,
        append_assoc done (be_bytes 4 w) (be_words ws),
        drop-drop 4 (length ws * 4) rest,
      )
      (let e : 4 + length ws * 4 ≡ suc (length ws) * 4 = omega arith in
        ap (λ n. ok ((done ++ (be_bytes 4 w ++ be_words ws)) ++ drop n rest)) e)

pub load_words-at :
    (ws : Guid) (offset : ℕ) (before after : List ℕ)
    → offset ≡ length before
    → AreWords ws
    → load_words (length ws) offset (before ++ (be_words ws ++ after)) ≡ ok ws
unfolding load_words
load_words-at [] offset before after e h = refl
load_words-at (w ∷ ws) offset before after e (fits, h) =
    let next =
      load_words-at ws (offset + 4) (before ++ be_bytes 4 w) after
        (omega (arith, length-append before (be_bytes 4 w), length-be_bytes 4 w)) h in
    let after_word = append_assoc (be_bytes 4 w) (be_words ws) after in
    let whole = append_assoc before (be_bytes 4 w) (be_words ws ++ after) in
    let first = load-at 4 offset w before (be_words ws ++ after) e fits in
    rw (after_word, first, ◌>>=◌) (rw (sym whole, next))
