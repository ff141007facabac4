-- ===== src/Network/Stream.antt =====
-- network.c: how messages are found in the bytes that a peer sends.
-- The library gives a read as its whole block of memory; the bytes behind those that were read are
-- zeros. What lies in the buffer's block behind its length is read as well where the code does so.
pub mod Finds
pub mod Whole
use whosecoin_core.Base.{
  ℕ, zero, suc, ◌+◌, ◌-◌, ◌%◌, ◌^◌, true, false, Option, none, some, List, [], ◌++◌, ltb, ◌==◌,
  drop, Run, ok, out_of_fuel, ◌>>=◌,
}
use whosecoin_core.Buffer.{Buffer, dynamic_buffer_write, initialised, splice}
use whosecoin_core.Message.{
  Guid, message_get_magic, message_get_length, message_get_type, message_get_guid,
}
use whosecoin_core.Network.{
  message_magic_number, message_header_size, Event, EventHandler, handle_message,
}

-- The `n` bytes from the index `i` of the block on.
unfoldable pub bytes_at : ℕ → ℕ → Buffer → Run (List ℕ)
unfolding initialised
bytes_at n i buf = initialised n (drop i buf.bytes)

-- The loop from the index `i` on, `left` rounds: the index of the magic number.
unfoldable pub find_from : ℕ → Buffer → ℕ → Run (Option ℕ)
unfolding bytes_at
find_from zero buf i = ok none
find_from (suc left) buf i = bytes_at 4 i buf >>= message_get_magic >>= λ magic.
    elim (magic == message_magic_number) [ true ↦ ok (some i) | false ↦ find_from left buf (i + 1) ]

-- `buf->length - MESSAGE_HEADER_SIZE + 1` rounds, as a `size_t`.
unfoldable pub find_message_start : Buffer → Run (Option ℕ)
unfolding find_from
find_message_start buf =
    find_from ((buf.length_field + 2 ^ 64 - message_header_size + 1) % 2 ^ 64) buf 0

-- `while (start != NULL)`: the events, the history and the buffer.
unfoldable pub take_messages :
    ℕ
    → ℕ
    → (ℕ → Option EventHandler)
    → List Guid
    → Buffer
    → Option ℕ
    → Run (List Event × (List Guid × Buffer))
unfolding find_message_start handle_message splice bytes_at
take_messages zero parse handlers history buf start = out_of_fuel
take_messages (suc fuel) parse handlers history buf start = elim start [
  | none ↦ ok ([], (history, buf))
  | some padding ↦ (do
    message ← splice padding buf
    header ← bytes_at message_header_size 0 message
    guid ← message_get_guid header
    size ← message_get_length header
    type ← message_get_type header
    let message_length = message_header_size + size
    elim (ltb message.length_field message_length) [
      | true ↦ ok ([], (history, message))
      | false ↦ (do
        whole ← bytes_at message_length 0 message
        done ← handle_message parse handlers history whole message_length
        rest ← splice message_length message
        next ← find_message_start rest
        more ← take_messages fuel parse handlers done.1 rest next
        ok (done.0 ++ more.0, more.1))
    ])
]

-- `none` is an error of the read, on which the peer is disconnected.
unfoldable pub on_read :
    ℕ
    → ℕ
    → (ℕ → Option EventHandler)
    → List Guid
    → Buffer
    → Option (List ℕ)
    → Run (Option (List Event × (List Guid × Buffer)))
unfolding take_messages
on_read fuel parse handlers history buf none = ok none
on_read fuel parse handlers history buf (some base) = do
  longer ← dynamic_buffer_write base buf
  start ← find_message_start longer
  taken ← take_messages fuel parse handlers history longer start
  ok (some taken)
