-- ===== src/Examples/Nodes.antt =====
-- The hash map, the pool and the network at concrete inputs.
use whosecoin_core.Base.{
  ℕ, ◌≤◌, ◌≡◌, refl, Option, none, some, if◌then◌else◌, ◌==◌, List, [], ◌∷◌, ◌++◌, arith, sub_ℕ,
  length, take, drop, replicate, ok, ◌>>=◌, Returns,
}
use whosecoin_core.Examples.Toy.{toy}
use whosecoin_core.Heap.{heap_create, heap_add, heap_top}
use whosecoin_core.HashMap.{HashMap, map_create, map_set, entry_same}
use whosecoin_core.HashMap.Refines.{
  IsHashed, Represents, update, map_create-Represents, map_set-Represents,
}
use whosecoin_core.Message.{
  guid_null, guid_is_null, message_get_magic, message_get_length, message_get_guid,
  message_get_type, load, load_words,
}
use whosecoin_core.Network.{
  message_magic_number, message_header_size, message_history_size, message_history_add,
  message_history_has, frame, Event, EventHandler, sent, relayed, network_send, handle_message,
}
use whosecoin_core.Network.Frames.{message_history_add-bounded, frame-read}
use whosecoin_core.Network.Once.{add_all, handle_message-once}
use whosecoin_core.Transaction.{Transaction}
use whosecoin_core.Transaction.Read.{created}

-- Numbers as keys, each its own hash.
abbrev identity : ℕ → ℕ
identity k = k

numbers-IsHashed : IsHashed identity sub_ℕ
unfolding entry_same
numbers-IsHashed = record {
  same_refl = λ k. ground arith;
  same_sym = λ j k h. ground arith;
  same_trans = λ i j k p q. ground arith;
  same_hash = λ j k h. ground arith;
}

abbrev fresh : HashMap ℕ ℕ
fresh = map_create 16

fresh-Represents : Represents identity sub_ℕ numbers-IsHashed fresh (λ k. none)
fresh-Represents = map_create-Represents identity sub_ℕ numbers-IsHashed 16 (omega arith)

map_set-Represents_example : Returns (map_set identity sub_ℕ fresh 17 5) λ r.
    (r.0 ≡ none)
    × Represents identity sub_ℕ numbers-IsHashed r.1
        (update identity sub_ℕ numbers-IsHashed (λ k. none) 17 5)
map_set-Represents_example =
    map_set-Represents identity sub_ℕ numbers-IsHashed fresh (λ k. none) 17 5 fresh-Represents

abbrev key : List ℕ
key = replicate 31 0 ++ 1 ∷ []

abbrev payment : Transaction
payment = created toy key key key 5 0

message_history_add-bounded_example :
    length (message_history_add [] (1 ∷ 2 ∷ 3 ∷ 4 ∷ [])) ≤ message_history_size
message_history_add-bounded_example =
    message_history_add-bounded [] (1 ∷ 2 ∷ 3 ∷ 4 ∷ []) (omega arith)

frame-read_example :
    (m : List ℕ) × (frame (replicate 28 0) (1 ∷ 2 ∷ 3 ∷ 4 ∷ []) 9 (7 ∷ 8 ∷ []) ≡ ok m)
    × (message_get_magic m ≡ ok message_magic_number)
    × (message_get_length m ≡ ok 2)
    × (message_get_guid m ≡ ok (1 ∷ 2 ∷ 3 ∷ 4 ∷ []))
    × (message_get_type m ≡ ok 9)
    × (drop message_header_size m ≡ 7 ∷ 8 ∷ [])
frame-read_example =
    frame-read (replicate 28 0) (1 ∷ 2 ∷ 3 ∷ 4 ∷ []) 9 (7 ∷ 8 ∷ []) refl refl
      (omega arith, (omega arith, (omega arith, (omega arith, tt)))) (omega arith) (omega arith)

-- A message of two bytes with the guid 0:0:0:1 and the type of a transaction, with bytes behind it.
abbrev arrived : List ℕ
arrived =
    0x54 ∷ 0x52 ∷ 0x4a ∷ 0x54 ∷ 0 ∷ 0 ∷ 0 ∷ 2 ∷ replicate 15 0
    ++ 1 ∷ 0 ∷ 10 ∷ b'(' ∷ b')' ∷ 7 ∷ 7 ∷ []

-- It answers an empty tuple with two bytes, for which the null guid goes into the history.
abbrev answers : EventHandler
answers none history = ok ([], history)
answers (some t) history = network_send history (replicate 28 0) 9 (b'(' ∷ b')' ∷ [])

-- The handler is registered for transactions.
abbrev registered : ℕ → Option EventHandler
registered type = if type == 10 then some answers else none

abbrev answer_sent : List ℕ
answer_sent = 0x54 ∷ 0x52 ∷ 0x4a ∷ 0x54 ∷ 0 ∷ 0 ∷ 0 ∷ 2 ∷ replicate 17 0 ++ 9 ∷ b'(' ∷ b')' ∷ []

arrived_guid : message_get_guid arrived ≡ ok (0 ∷ 0 ∷ 0 ∷ 1 ∷ [])
unfolding message_get_guid load_words load whosecoin_core.Bytes.from_be
arrived_guid = refl

arrived_handled :
    handle_message 9 registered [] arrived 28
    ≡ ok (sent answer_sent ∷ relayed (take 28 arrived) ∷ [], guid_null ∷ (0 ∷ 0 ∷ 0 ∷ 1 ∷ []) ∷ [])
unfolding handle_message message_get_guid load_words load whosecoin_core.Bytes.from_be guid_is_null
    whosecoin_core.Message.message_get_length whosecoin_core.Message.message_get_type
    whosecoin_core.Tuple.tuple_parse network_send whosecoin_core.Message.message_set_magic
    whosecoin_core.Tuple.parse_with whosecoin_core.Tuple.parse_loop whosecoin_core.Tuple.switch
    whosecoin_core.Message.message_set_length whosecoin_core.Bytes.be_bytes
    whosecoin_core.Message.message_set_guid whosecoin_core.Message.message_set_type
arrived_handled = refl

handle_message-once_example :
    ((by_handler : List Event) × (sent answer_sent ∷ relayed (take 28 arrived) ∷ []
        ≡ by_handler ++ relayed (take 28 arrived) ∷ []))
    × (handle_message 9 registered
          (add_all (guid_null ∷ (0 ∷ 0 ∷ 0 ∷ 1 ∷ []) ∷ []) ((9 ∷ 9 ∷ 9 ∷ 9 ∷ []) ∷ []))
          arrived
          28
        ≡ ok ([], add_all (guid_null ∷ (0 ∷ 0 ∷ 0 ∷ 1 ∷ []) ∷ []) ((9 ∷ 9 ∷ 9 ∷ 9 ∷ []) ∷ [])))
unfolding guid_is_null message_history_has
handle_message-once_example =
    handle_message-once 9 registered [] (guid_null ∷ (0 ∷ 0 ∷ 0 ∷ 1 ∷ []) ∷ []) arrived 28
      (0 ∷ 0 ∷ 0 ∷ 1 ∷ []) (sent answer_sent ∷ relayed (take 28 arrived) ∷ []) arrived_guid refl
      refl arrived_handled ((9 ∷ 9 ∷ 9 ∷ 9 ∷ []) ∷ []) (omega arith)

-- The second of two elements is smaller and stands at the top.
smaller_first :
    (heap_add sub_ℕ heap_create 7 >>= λ one. heap_add sub_ℕ one 3 >>= heap_top sub_ℕ) ≡ ok (some 3)
unfolding heap_add heap_create heap_top whosecoin_core.ArrayList.write_cell
    whosecoin_core.ArrayList.read_cell
smaller_first = refl
