-- ===== src/Network/Stream/Whole.antt =====
-- A message that arrives whole in a read is handled once, and what follows it stays in the buffer.
use whosecoin_core.Base.{
  ℕ, suc, ◌+◌, ◌^◌, ◌≤◌, ◌<◌, ◌≡◌, refl, ap, ◌∙◌, subst, arith, false, Option, some, List, [], ◌++◌,
  append-nil, append_assoc, ltb, length, length-append, take, take-append, Returns, ok, ◌>>=◌,
}
use whosecoin_core.Bytes.{be_bytes, length-be_bytes}
use whosecoin_core.Buffer.{Buffer}
use whosecoin_core.Buffer.Refines.{Holds, dynamic_buffer_write-Holds}
use whosecoin_core.Message.{
  Guid, message_get_length, message_get_type, message_get_guid, load, load_words,
}
use whosecoin_core.Message.Header.{be_words, AreWords, length-be_words, load-at, load_words-at}
use whosecoin_core.Network.{
  message_magic_number, message_header_size, Event, EventHandler, handle_message,
}
use whosecoin_core.Network.Frames.{header_bytes, length-header}
use whosecoin_core.Network.Stream.{bytes_at, take_messages, on_read}
use whosecoin_core.Network.Stream.Finds.{
  bytes_at-Holds, splice-Holds, find_message_start-first, IsQuiet, find_message_start-quiet,
}

-- What the header of a message says.
header-read :
    (guid : Guid) (type n : ℕ)
    → length guid ≡ 4
    → AreWords guid
    → n < 2 ^ 32
    → type < 2 ^ 16
    → let header = header_bytes guid type n in
      (message_get_guid header ≡ ok guid)
      × (message_get_length header ≡ ok n)
      × (message_get_type header ≡ ok type)
unfolding message_get_guid message_get_length message_get_type
header-read guid type n words fits word half =
    let magic = be_bytes 4 message_magic_number in
    let size = be_bytes 4 n in
    let ids = be_words guid in
    let kind = be_bytes 2 type in
    let l1 = length-be_bytes 4 message_magic_number in
    let l2 = length-append magic size in
    let l3 = length-append (magic ++ size) ids in
    let l4 = length-be_words guid in
    let l5 = length-be_bytes 4 n in
    let h = header_bytes guid type n in
    let at_size : magic ++ (size ++ (ids ++ kind)) ≡ h = simp append_assoc in
    let at_ids : (magic ++ size) ++ (ids ++ kind) ≡ h = simp append_assoc in
    let at_kind : ((magic ++ size) ++ ids) ++ (kind ++ []) ≡ h = simp (append_assoc, append-nil) in
    (
      subst (λ k. load_words k 8 h ≡ ok guid) words
          (subst (λ m. load_words (length guid) 8 m ≡ ok guid) at_ids
            (load_words-at guid 8 (magic ++ size) kind (omega (arith, l1, l2, l5)) fits)),
      subst (λ m. load 4 4 m ≡ ok n) at_size
          (load-at 4 4 n magic (ids ++ kind) (omega (arith, l1)) (omega arith)),
      subst (λ m. load 2 24 m ≡ ok type) at_kind
          (load-at 2 24 type ((magic ++ size) ++ ids) [] (omega (arith, l1, l2, l3, l4, l5))
            (omega arith)),
    )

ltb-ge : (a b : ℕ) → b ≤ a → ltb a b ≡ false
ltb-ge a b h = ground arith

-- The bytes of a message.
abbrev pub message_bytes : Guid → ℕ → List ℕ → List ℕ
message_bytes guid type payload = header_bytes guid type (length payload) ++ payload

module _ (guid : Guid) (type : ℕ) (payload tail : List ℕ) (words : length guid ≡ 4)
    (fits : AreWords guid) (word : length payload < 2 ^ 32) (half : type < 2 ^ 16)
    (quiet : IsQuiet tail) (long : 25 ≤ length tail) where
  abbrev header : List ℕ
  header = header_bytes guid type (length payload)

  abbrev message : List ℕ
  message = message_bytes guid type payload

  take_messages-whole :
      (fuel parse : ℕ) (handlers : ℕ → Option EventHandler) (history after : List Guid)
      (buf : Buffer) (events : List Event)
      → Holds buf (message ++ tail)
      → handle_message parse handlers history message (message_header_size + length payload)
        ≡ ok (events, after)
      → Returns
          (take_messages (suc (suc fuel)) parse handlers history buf (some 0))
          λ r. (r.0 ≡ events) × (r.1.0 ≡ after) × Holds r.1.1 tail
  unfolding take_messages
  take_messages-whole fuel parse handlers history after buf events h run =
      let n = length payload in
      let size = message_header_size + n in
      let lh = length-header guid type n words in
      let lm = length-append header payload in
      let lt = length-append message tail in
      let (buf1, e1, h1) = splice-Holds 0 buf [] (message ++ tail) refl h in
      let head : bytes_at message_header_size 0 buf1 ≡ ok header =
        bytes_at-Holds buf1 (message ++ tail) message_header_size 0 h1 (omega (arith, lh, lm, lt))
        ∙ ap ok (
            subst (λ k. take k (message ++ tail) ≡ header) lh
              (ap (take (length header)) (append_assoc header payload tail)
                ∙ take-append header (payload ++ tail))) in
      let (got_guid, got_size, got_type) = header-read guid type n words fits word half in
      let waits : ltb buf1.length_field size ≡ false =
        ltb-ge buf1.length_field size (omega (arith, h1.counted, lh, lm, lt)) in
      let whole : bytes_at size 0 buf1 ≡ ok message =
        bytes_at-Holds buf1 (message ++ tail) size 0 h1 (omega (arith, lh, lm, lt))
        ∙ ap ok (
            subst (λ k. take k (message ++ tail) ≡ message) (lm ∙ ap (λ k. k + n) lh)
              (take-append message tail)) in
      let (buf2, e2, h2) = splice-Holds size buf1 message tail (lm ∙ ap (λ k. k + n) lh) h1 in
      let next = find_message_start-quiet buf2 tail h2 quiet long in
      (
        (events ++ [], (after, buf2)),
        rw
            (
              e1, ◌>>=◌, head, ◌>>=◌, got_guid, ◌>>=◌, got_size, ◌>>=◌, got_type, ◌>>=◌, waits,
              whole, ◌>>=◌, run, ◌>>=◌, e2, ◌>>=◌, next, ◌>>=◌, take_messages,
            )
            refl,
        (append-nil events, refl, h2),
      )

  -- A read into an empty buffer of a message (a guid of four words, a payload shorter than 2 ^ 32
  -- bytes, a type of 16 bits) and at least 25 bytes behind it, in which the magic number stands
  -- nowhere that it is looked for, handles the message once and leaves what is behind it in the
  -- buffer, if all of it is shorter than 2 ^ 31 bytes and handling the message returns.
  pub on_read-whole :
      (fuel parse : ℕ) (handlers : ℕ → Option EventHandler) (history after : List Guid)
      (buf : Buffer) (events : List Event)
      → Holds buf []
      → length (message_bytes guid type payload ++ tail) < 2 ^ 31
      → handle_message parse handlers history
          (message_bytes guid type payload)
          (message_header_size + length payload)
        ≡ ok (events, after)
      → (rest : Buffer) × (on_read
            (suc (suc fuel))
            parse
            handlers
            history
            buf
            (some (message_bytes guid type payload ++ tail))
          ≡ ok (some (events, (after, rest))))
        × Holds rest tail
  unfolding on_read
  on_read-whole fuel parse handlers history after buf events h short run =
      let (longer, written, held) =
        dynamic_buffer_write-Holds (message ++ tail) buf [] h (omega arith) in
      let magic = be_bytes 4 message_magic_number in
      let others =
        be_bytes 4 (length payload) ++ (be_words guid ++ (be_bytes 2 type ++ (payload ++ tail))) in
      let parts : message ++ tail ≡ magic ++ others = simp append_assoc in
      let total = length-append magic others in
      let four = length-be_bytes 4 message_magic_number in
      let lh = length-header guid type (length payload) words in
      let lm = length-append header payload in
      let lt = length-append message tail in
      let start =
        find_message_start-first longer others (subst (Holds longer) parts held)
          (omega (arith, four, total, ap length parts, lh, lm, lt)) in
      let (r, taken, (same, history_same, rest)) =
        take_messages-whole fuel parse handlers history after longer events held run in
      (r.1.1, rw (written, ◌>>=◌, start, ◌>>=◌, taken, ◌>>=◌) (cc (same, history_same)), rest)
