-- ===== src/Network/Once.antt =====
-- That a node handles a message once, as long as its guid stands in the history.
use whosecoin_core.Base.{
  ℕ, suc, ◌+◌, ◌<◌, ◌≡◌, refl, sym, ap, ◌∙◌, subst, false, true, Option, List, [], ◌∷◌, ◌++◌,
  append_assoc, arith, leb, pos, length, take, drop, remove_at, length-append, ok, ◌>>=◌, >>=-ok,
  ok-injective, Bool-cases, inl, inr,
}
use whosecoin_core.Message.{
  Guid, guid_is_null, guid_compare, message_get_guid, message_get_length, message_get_type,
}
use whosecoin_core.Network.{
  message_header_size, message_history_size, message_history_add, message_history_has, Event,
  EventHandler, relayed, call_handler, handle_message,
}

guid_compare_refl : (g : Guid) → guid_compare g g ≡ pos 0
unfolding guid_compare
guid_compare_refl [] = refl
guid_compare_refl (w ∷ ws) = ground (arith, guid_compare_refl ws)

has-append :
    (older newer : List Guid) (guid : Guid)
    → message_history_has (older ++ guid ∷ newer) guid ≡ true
unfolding message_history_has
has-append [] newer guid = rw (guid_compare_refl guid)
has-append (g ∷ older) newer guid = ground (arith, has-append older newer guid)

-- The guids that are added to a history later on, the first of them first.
abbrev pub add_all : List Guid → List Guid → List Guid
add_all history [] = history
add_all history (guid ∷ later) = add_all (message_history_add history guid) later

-- Where fewer than 1,023 guids stand behind one, the next guid pushes out an older one.
message_history_add-keeps :
    (older newer : List Guid) (guid next : Guid)
    → suc (length newer) < message_history_size
    → (rest : List Guid) × (message_history_add (older ++ guid ∷ newer) next
        ≡ rest ++ guid ∷ (newer ++ next ∷ []))
unfolding message_history_add
message_history_add-keeps [] newer guid next h =
    let room : leb message_history_size (suc (length newer)) ≡ false = ground arith in ([], rw room)
message_history_add-keeps (old ∷ older) newer guid next h =
    elim (Bool-cases (leb message_history_size (length (old ∷ older ++ guid ∷ newer)))) [
      | inl full ↦ (older, rw full (append_assoc older (guid ∷ newer) (next ∷ [])))
      | inr room ↦ (old ∷ older, rw room (append_assoc (old ∷ older) (guid ∷ newer) (next ∷ [])))
    ]

add_all-has :
    (older newer later : List Guid) (guid : Guid)
    → length newer + length later < message_history_size
    → message_history_has (add_all (older ++ guid ∷ newer) later) guid ≡ true
add_all-has older newer [] guid h = has-append older newer guid
add_all-has older newer (next ∷ later) guid h =
    let (rest, kept) = message_history_add-keeps older newer guid next (omega arith) in
    subst (λ history. message_history_has (add_all history later) guid ≡ true) (sym kept)
      (add_all-has rest (newer ++ next ∷ []) later guid
        (omega (arith, length-append newer (next ∷ []))))

-- A guid that was just added is the latest.
message_history_add-latest :
    (history : List Guid) (guid : Guid)
    → (older : List Guid) × (message_history_add history guid ≡ older ++ guid ∷ [])
unfolding message_history_add
message_history_add-latest history guid =
    elim (Bool-cases (leb message_history_size (length history))) [
      | inl full ↦ (remove_at history 0, rw full)
      | inr room ↦ (history, rw room)
    ]

-- After a message whose guid is neither null nor in the history was handled, whatever its handler
-- sent, it has been sent on to the peers at the end; and when it arrives again, before 1,024 more
-- guids were added to the history, nothing is sent, and the history stays.
pub handle_message-once :
    (fuel : ℕ) (handlers : ℕ → Option EventHandler) (history after : List Guid) (message : List ℕ)
    (len : ℕ) (guid : Guid) (events : List Event)
    → message_get_guid message ≡ ok guid
    → guid_is_null guid ≡ false
    → message_history_has history guid ≡ false
    → handle_message fuel handlers history message len ≡ ok (events, after)
    → (later : List Guid) → length later < message_history_size
    → ((by_handler : List Event) × (events ≡ by_handler ++ relayed (take len message) ∷ []))
      × (handle_message fuel handlers (add_all after later) message len
          ≡ ok ([], add_all after later))
unfolding handle_message
handle_message-once fuel handlers history after message len guid events g not_null new run later
      few =
    let (size, got_size, e1) = >>=-ok (message_get_length message) _ (rw (g, ◌>>=◌) at run) in
    let (type, got_type, e2) = >>=-ok (message_get_type message) _ e1 in
    let payload = take size (drop message_header_size message) in
    let (done, called, e3) =
      >>=-ok (call_handler fuel handlers history type payload) _ (rw (not_null, new) at e2) in
    let (older, latest) = message_history_add-latest done.1 guid in
    let ends : (events, after) ≡ (done.0 ++ relayed (take len message) ∷ [], older ++ guid ∷ []) =
      sym (ok-injective refl e3)
      ∙ ap (λ h. (done.0 ++ relayed (take len message) ∷ [], h)) latest in
    let again : message_history_has (add_all after later) guid ≡ true =
      subst (λ (h : List Guid). message_history_has (add_all h later) guid ≡ true)
        (sym (ap (λ (p : List Event × List Guid). p.1) ends))
        (add_all-has older [] later guid (omega arith)) in
    (
      (done.0, ap (λ (p : List Event × List Guid). p.0) ends),
      rw (g, ◌>>=◌, got_size, got_type, not_null, again),
    )
