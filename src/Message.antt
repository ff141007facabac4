-- ===== src/Message.antt =====
-- util/guid.c and message.c: the 26-byte header of a message and the identifiers in it.
-- A guid is its array of four 32-bit words, and a message its bytes. The words of the header stand
-- in network order: the magic number, the length, the guid, and 16 bits of type.
pub mod Header
use whosecoin_core.Base.{
  ℕ, zero, suc, ◌+◌, ◌*◌, Bool, true, List, [], ◌∷◌, ◌++◌, ◌&&◌, ltb, ◌==◌, if◌then◌else◌, ℤ, pos,
  negsuc, length, take, drop, Run, ok, fault, ◌>>=◌,
}
use whosecoin_core.Bytes.{be_bytes, from_be}

abbrev pub Guid : Type 0
Guid = List ℕ

abbrev pub guid_null : Guid
guid_null = 0 ∷ 0 ∷ 0 ∷ 0 ∷ []

unfoldable pub guid_is_null : Guid → Bool
guid_is_null [] = true
guid_is_null (w ∷ ws) = (w == 0) && guid_is_null ws

unfoldable pub guid_compare : Guid → Guid → ℤ
guid_compare (v ∷ vs) (w ∷ ws) =
    let rest = guid_compare vs ws in if ltb v w then negsuc 0 else if ltb w v then pos 1 else rest
guid_compare _ _ = pos 0

-- `ntoh` of the `k` bytes at the offset.
unfoldable pub load : ℕ → ℕ → List ℕ → Run ℕ
load k offset message =
    let bytes = take k (drop offset message) in
    if ltb (length bytes) k then fault else ok (from_be 0 bytes)

-- The `hton` of a word is stored in the `k` bytes at the offset.
unfoldable pub store : ℕ → ℕ → ℕ → List ℕ → Run (List ℕ)
store k offset word message =
    if ltb (length message) (offset + k)
    then fault
    else ok (take offset message ++ (be_bytes k word ++ drop (offset + k) message))

unfoldable pub message_get_magic : List ℕ → Run ℕ
unfolding load
message_get_magic message = load 4 0 message

unfoldable pub message_set_magic : List ℕ → ℕ → Run (List ℕ)
unfolding store
message_set_magic message magic = store 4 0 magic message

unfoldable pub message_get_length : List ℕ → Run ℕ
unfolding load
message_get_length message = load 4 4 message

unfoldable pub message_set_length : List ℕ → ℕ → Run (List ℕ)
unfolding store
message_set_length message size = store 4 4 size message

unfoldable pub message_get_type : List ℕ → Run ℕ
unfolding load
message_get_type message = load 2 24 message

unfoldable pub message_set_type : List ℕ → ℕ → Run (List ℕ)
unfolding store
message_set_type message type = store 2 24 type message

-- The loops over the words of the guid.
unfoldable pub load_words : ℕ → ℕ → List ℕ → Run (List ℕ)
unfolding load
load_words zero offset message = ok []
load_words (suc n) offset message = do
  w ← load 4 offset message
  ws ← load_words n (offset + 4) message
  ok (w ∷ ws)

unfoldable pub store_words : List ℕ → ℕ → List ℕ → Run (List ℕ)
unfolding store
store_words [] offset message = ok message
store_words (w ∷ ws) offset message = store 4 offset w message >>= store_words ws (offset + 4)

unfoldable pub message_get_guid : List ℕ → Run Guid
unfolding load_words
message_get_guid message = load_words 4 8 message

unfoldable pub message_set_guid : List ℕ → Guid → Run (List ℕ)
unfolding store_words
message_set_guid message guid = store_words guid 8 message
