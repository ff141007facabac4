-- ===== src/Examples/Streams.antt =====
-- network.c at concrete inputs: a message that is read with the zeros behind it, and one that is
-- sent to several peers.
use whosecoin_core.Base.{
  ◌>>=◌, ℕ, zero, suc, ◌+◌, ◌<◌, ◌^◌, ◌≡◌, refl, arith, none, some, List, [], ◌∷◌, ◌++◌, replicate,
  length, take, ok,
}
use whosecoin_core.Buffer.{Buffer, dynamic_buffer_create}
use whosecoin_core.Buffer.Refines.{Holds, dynamic_buffer_create-Holds}
use whosecoin_core.Message.{Guid, message_get_magic}
use whosecoin_core.Network.{relayed, handle_message}
use whosecoin_core.Network.Shared.{broadcast_message, on_writes, held, on_writes-broadcast}
use whosecoin_core.Network.Stream.{on_read}
use whosecoin_core.Network.Stream.Finds.{IsQuiet}
use whosecoin_core.Network.Stream.Whole.{message_bytes, on_read-whole}

abbrev four_words : Guid
four_words = 1 ∷ 2 ∷ 3 ∷ 4 ∷ []

abbrev zeros : List ℕ
zeros = replicate 26 0

zeros-IsQuiet : IsQuiet zeros
unfolding message_get_magic whosecoin_core.Bytes.from_be
zeros-IsQuiet zero room = (0, refl, refl)
zeros-IsQuiet (suc i) room = absurd (omega arith)

abbrev arrived : List ℕ
arrived = message_bytes four_words 10 (b'(' ∷ b')' ∷ [])

-- The node has no handler, and sends the message on.
arrived-handled :
    handle_message 9 (λ type. none) [] arrived (26 + 2)
    ≡ ok (relayed (take 28 arrived) ∷ [], four_words ∷ [])
unfolding handle_message whosecoin_core.Message.message_get_guid whosecoin_core.Bytes.be_bytes
    whosecoin_core.Message.message_get_length whosecoin_core.Message.message_get_type
    whosecoin_core.Message.guid_is_null whosecoin_core.Bytes.from_be
arrived-handled = refl

arrived-short : length (arrived ++ zeros) < 2 ^ 31
unfolding whosecoin_core.Bytes.be_bytes
arrived-short = omega arith

on_read-whole_example :
    (rest : Buffer) × (on_read 2 9
        (λ type. none)
        []
        (dynamic_buffer_create 32)
        (some (arrived ++ zeros))
      ≡ ok (some (relayed (take 28 arrived) ∷ [], (four_words ∷ [], rest))))
    × Holds rest zeros
on_read-whole_example =
    on_read-whole four_words 10 (b'(' ∷ b')' ∷ []) zeros refl
      (omega arith, (omega arith, (omega arith, (omega arith, tt)))) (omega arith) (omega arith)
      zeros-IsQuiet (omega arith) 0 9 (λ type. none) [] (four_words ∷ []) (dynamic_buffer_create 32)
      (relayed (take 28 arrived) ∷ []) (dynamic_buffer_create-Holds 32 (omega arith) (omega arith))
      arrived-short arrived-handled

-- A message to three peers, one of which has received it.
on_writes-broadcast_example : (broadcast_message 3 >>= on_writes 1) ≡ ok (held 2)
on_writes-broadcast_example = on_writes-broadcast 1 2 (omega arith)
