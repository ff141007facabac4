-- ===== src/Network/Frames.antt =====
-- What a framed message says when it is read, and the size of the history.
use whosecoin_core.Base.{
  ℕ, ◌+◌, ◌*◌, ◌%◌, ◌^◌, ◌≤◌, ◌<◌, ◌≡◌, refl, subst, List, [], ◌∷◌, ◌++◌, append_assoc, arith, leb,
  length, take, drop, remove_at, length-append, length-drop, take-append, drop-append,
  length-remove_at, ok, ◌>>=◌, Bool-cases, inl, inr,
}
use whosecoin_core.Bytes.{be_bytes, length-be_bytes}
use whosecoin_core.Message.{
  Guid, message_get_magic, message_set_magic, message_get_length, message_set_length,
  message_get_type, message_set_type, message_get_guid, message_set_guid, load, load_words,
}
use whosecoin_core.Message.Header.{
  store-next, load-at, be_words, AreWords, length-be_words, store_words-next, load_words-at,
}
use whosecoin_core.Network.{
  message_magic_number, message_header_size, message_history_size, message_history_add, frame,
}

-- The history never holds more than `MESSAGE_HISTORY_SIZE` guids.
pub message_history_add-bounded :
    (history : List Guid) (guid : Guid)
    → length history ≤ message_history_size
    → length (message_history_add history guid) ≤ message_history_size
unfolding message_history_add
message_history_add-bounded history guid h =
    elim (Bool-cases (leb message_history_size (length history))) [
      | inl full ↦ rw full (
          omega (
            arith,
            length-append (remove_at history 0) (guid ∷ []),
            length-remove_at history 0 (ground arith),
          ))
      | inr room ↦ rw room (ground (arith, length-append history (guid ∷ [])))
    ]

-- The bytes of a header.
abbrev pub header_bytes : Guid → ℕ → ℕ → List ℕ
header_bytes guid type size =
    ((be_bytes 4 message_magic_number ++ be_bytes 4 size) ++ be_words guid) ++ be_bytes 2 type

pub length-header :
    (guid : Guid) (type size : ℕ)
    → length guid ≡ 4
    → length (header_bytes guid type size) ≡ message_header_size
length-header guid type size words =
    let magic = be_bytes 4 message_magic_number in
    omega (
      arith,
      length-append (magic ++ be_bytes 4 size ++ be_words guid) (be_bytes 2 type),
      length-append (magic ++ be_bytes 4 size) (be_words guid),
      length-append magic (be_bytes 4 size),
      length-be_bytes 4 message_magic_number,
      length-be_bytes 4 size,
      length-be_words guid,
      length-be_bytes 2 type,
    )

frame-bytes :
    (memory : List ℕ) (guid : Guid) (type : ℕ) (payload : List ℕ)
    → length memory ≡ message_header_size + length payload
    → length guid ≡ 4
    → length payload < 2 ^ 32
    → type < 2 ^ 16
    → frame memory guid type payload ≡ ok (header_bytes guid type (length payload) ++ payload)
unfolding frame message_set_magic message_set_length message_set_guid message_set_type
frame-bytes memory guid type payload room words word half =
    let n = length payload in
    let magic = be_bytes 4 message_magic_number in
    let size = be_bytes 4 n in
    let ids = be_words guid in
    let r1 = drop 4 memory in
    let r2 = drop 4 r1 in
    let r3 = drop (length guid * 4) r2 in
    let e1 = length-drop 4 memory in
    let e2 = length-drop 4 r1 in
    let e3 = length-drop (length guid * 4) r2 in
    let l1 = length-be_bytes 4 message_magic_number in
    let l2 = length-append magic size in
    let l3 = length-append (magic ++ size) ids in
    let l4 = length-be_words guid in
    let l5 = length-be_bytes 4 n in
    let s1 = store-next 4 0 message_magic_number [] memory refl (omega arith) in
    let s2 = store-next 4 4 n magic r1 (omega (arith, l1)) (omega (arith, e1)) in
    let s3 =
      store_words-next guid 8 (magic ++ size) r2 (omega (arith, l1, l2, l5))
        (omega (arith, e1, e2)) in
    let s4 =
      store-next 2 24 type ((magic ++ size) ++ ids) r3 (omega (arith, l1, l2, l3, l4, l5))
        (omega (arith, e1, e2, e3)) in
    let m1 : n % 2 ^ 32 ≡ n = omega arith in
    let m2 : type % 2 ^ 16 ≡ type = omega arith in
    let h = header_bytes guid type n in
    let whole : take message_header_size (h ++ drop 2 r3) ≡ h =
      subst (λ k. take k (h ++ drop 2 r3) ≡ h) (length-header guid type n words)
        (take-append h (drop 2 r3)) in
    rw (s1, ◌>>=◌, m1, s2, s3, m2, s4, whole)

-- A message that is framed in an array of its size, with a guid of four words, a payload shorter
-- than 2 ^ 32 bytes and a type of 16 bits, starts with the magic number, and its length, its guid,
-- its type and its payload are read back.
pub frame-read :
    (memory : List ℕ) (guid : Guid) (type : ℕ) (payload : List ℕ)
    → length memory ≡ message_header_size + length payload
    → length guid ≡ 4
    → AreWords guid
    → length payload < 2 ^ 32
    → type < 2 ^ 16
    → (m : List ℕ) × (frame memory guid type payload ≡ ok m)
      × (message_get_magic m ≡ ok message_magic_number)
      × (message_get_length m ≡ ok (length payload))
      × (message_get_guid m ≡ ok guid)
      × (message_get_type m ≡ ok type)
      × (drop message_header_size m ≡ payload)
unfolding message_get_magic message_get_length message_get_guid message_get_type
frame-read memory guid type payload room words fits word half =
    let n = length payload in
    let magic = be_bytes 4 message_magic_number in
    let size = be_bytes 4 n in
    let ids = be_words guid in
    let kind = be_bytes 2 type in
    let l1 = length-be_bytes 4 message_magic_number in
    let l2 = length-append magic size in
    let l3 = length-append (magic ++ size) ids in
    let l4 = length-be_words guid in
    let l5 = length-be_bytes 4 n in
    let h = header_bytes guid type n in
    let at_magic : magic ++ (size ++ (ids ++ (kind ++ payload))) ≡ h ++ payload =
      simp append_assoc in
    let at_size : magic ++ (size ++ (ids ++ (kind ++ payload))) ≡ h ++ payload =
      simp append_assoc in
    let at_ids : (magic ++ size) ++ (ids ++ (kind ++ payload)) ≡ h ++ payload = simp append_assoc in
    let at_kind : ((magic ++ size) ++ ids) ++ (kind ++ payload) ≡ h ++ payload =
      simp append_assoc in
    let got_magic =
      load-at 4 0 message_magic_number [] (size ++ (ids ++ (kind ++ payload))) refl (omega arith) in
    let got_size =
      load-at 4 4 n magic (ids ++ (kind ++ payload)) (omega (arith, l1)) (omega arith) in
    let got_ids =
      load_words-at guid 8 (magic ++ size) (kind ++ payload) (omega (arith, l1, l2, l5)) fits in
    let got_kind =
      load-at 2 24 type ((magic ++ size) ++ ids) payload (omega (arith, l1, l2, l3, l4, l5))
        (omega arith) in
    (
      h ++ payload,
      frame-bytes memory guid type payload room words word half,
      subst (λ m. load 4 0 m ≡ ok message_magic_number) at_magic got_magic,
      subst (λ m. load 4 4 m ≡ ok n) at_size got_size,
      subst (λ k. load_words k 8 (h ++ payload) ≡ ok guid) words
          (subst (λ m. load_words (length guid) 8 m ≡ ok guid) at_ids got_ids),
      subst (λ m. load 2 24 m ≡ ok type) at_kind got_kind,
      subst (λ k. drop k (h ++ payload) ≡ payload) (length-header guid type n words)
          (drop-append h payload),
    )
