-- ===== src/Network.antt =====
-- network.c: the messages of a peer-to-peer network: how they are framed, found in the bytes that
-- arrive, and handled once.
-- A peer's buffer is the bytes that it holds. What is sent and called is recorded in order.
pub mod Frames
pub mod Once
pub mod Stream
pub mod Shared
use whosecoin_core.Base.{
  ℕ, ◌+◌, ◌%◌, ◌^◌, Bool, true, false, Option, none, some, List, [], ◌∷◌, ◌++◌, ltb, leb,
  if◌then◌else◌, is_zero, length, take, drop, remove_at, Run, ok, abort, ◌>>=◌,
}
use whosecoin_core.Tuple.{Tuple, tuple_parse}
use whosecoin_core.Message.{
  Guid, guid_null, guid_is_null, guid_compare, message_set_magic, message_get_length,
  message_set_length, message_get_type, message_set_type, message_get_guid, message_set_guid,
}

abbrev pub message_magic_number : ℕ
message_magic_number = 0x54524a54

abbrev pub message_header_size : ℕ
message_header_size = 26

abbrev pub message_history_size : ℕ
message_history_size = 1024

abbrev pub event_count : ℕ
event_count = 11

-- The oldest of a full history makes room.
unfoldable pub message_history_add : List Guid → Guid → List Guid
message_history_add history guid =
    if leb message_history_size (length history)
    then remove_at history 0 ++ guid ∷ []
    else history ++ guid ∷ []

unfoldable pub message_history_has : List Guid → Guid → Bool
message_history_has [] guid = false
message_history_has (old ∷ rest) guid =
    let later = message_history_has rest guid in
    if is_zero (guid_compare old guid) then true else later

-- The message that `network_send` and `network_broadcast` build in the array `memory` of
-- `MESSAGE_HEADER_SIZE + buffer->length` bytes.
unfoldable pub frame : List ℕ → Guid → ℕ → List ℕ → Run (List ℕ)
frame memory guid type payload = do
  a ← message_set_magic memory message_magic_number
  b ← message_set_length a (length payload % 2 ^ 32)
  c ← message_set_guid b guid
  d ← message_set_type c (type % 2 ^ 16)
  ok (take message_header_size d ++ payload)

-- What a node does: it sends a message to every peer, or to the peer that it answers.
pub data Event : Type 0 where
  relayed : List ℕ → Event
  sent : List ℕ → Event

-- A registered handler gets the tuple, or NULL, and the history, to which it adds where it sends;
-- it gives what is sent and the history after it.
abbrev pub EventHandler : Type 0
EventHandler = Option Tuple → List Guid → Run (List Event × List Guid)

unfoldable pub network_broadcast :
    List Guid → List ℕ → Guid → ℕ → List ℕ → Run (List Event × List Guid)
unfolding frame message_history_add
network_broadcast history memory guid type payload = frame memory guid type payload >>= λ message.
    ok (relayed message ∷ [], message_history_add history guid)

-- A message to one peer has the null guid, which goes into the history as well.
unfoldable pub network_send : List Guid → List ℕ → ℕ → List ℕ → Run (List Event × List Guid)
unfolding frame message_history_add
network_send history memory type payload = frame memory guid_null type payload >>= λ message.
    ok (sent message ∷ [], message_history_add history guid_null)

-- `if (type < EVENT_COUNT && self->handlers[type])`, with the parsed payload. Where the parse
-- gives NULL, the handler is called with it, and then the assertion in `tuple_destroy` fails.
unfoldable pub call_handler :
    ℕ → (ℕ → Option EventHandler) → List Guid → ℕ → List ℕ → Run (List Event × List Guid)
call_handler fuel handlers history type payload = elim (ltb type event_count) [
  | false ↦ ok ([], history)
  | true ↦ elim (handlers type) [
    | none ↦ ok ([], history)
    | some handler ↦ (do
      found ← tuple_parse fuel payload
      done ← handler found history
      elim found [ none ↦ abort | some t ↦ ok done ])
  ]
]

-- The events of a message at the start of `message`, and the history after it. The payload is as
-- long as the header says.
unfoldable pub handle_message :
    ℕ → (ℕ → Option EventHandler) → List Guid → List ℕ → ℕ → Run (List Event × List Guid)
unfolding call_handler message_history_has message_history_add
handle_message fuel handlers history message len = do
  guid ← message_get_guid message
  size ← message_get_length message
  type ← message_get_type message
  let payload = take size (drop message_header_size message)
  elim (guid_is_null guid) [
    | true ↦ call_handler fuel handlers history type payload
    | false ↦ elim (message_history_has history guid) [
      | true ↦ ok ([], history)
      | false ↦ (do
        done ← call_handler fuel handlers history type payload
        ok (done.0 ++ relayed (take len message) ∷ [], message_history_add done.1 guid))
    ]
  ]
