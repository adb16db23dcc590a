-- ===== src/Ui/Messages.antt =====
-- crates/client-ui/src/app.rs: the status of messages, from their sending to their reading.
use rsmsg.Base.{
  ℕ, zero, suc, ◌+◌, ◌%◌, ◌^◌, Bool, true, false, none, some, List, [], ◌∷◌, ◌++◌, not, ◌&&◌, ◌||◌,
  nat_eq, text_eq, map, filter, any, length, is_empty, if◌then◌else◌, unwrap_or,
}
use rsmsg.Base.Text.{Text, codes}
use rsmsg.Base.Dict.{get, insert, remove}
use rsmsg.Client.Types.{DeviceAuth, OutgoingMessageStatus}
use rsmsg.Ui.History.{
  MessageStatus, sending, sent, delivered, read, failed, is_read, ChatMessage, ChatHistory, Chats,
  has_id, each_message, change_chat,
}
use rsmsg.Ui.State.{
  MessengerApp, Received, received, empty, disconnected, Outcome, done, error, set_status,
  set_chats, t, start, ack_messages, save_history, localize_status_error,
}

abbrev pub set_message_status : MessageStatus → ChatMessage → ChatMessage
set_message_status status message = record message { status = status }

-- `get_mut(index)` of a list, and the change of what is there.
unfoldable pub change_at : ℕ → (ChatMessage → ChatMessage) → List ChatMessage → List ChatMessage
change_at index f [] = []
change_at zero f (message ∷ messages) = f message ∷ messages
change_at (suc index) f (message ∷ messages) = message ∷ change_at index f messages

unfoldable pub update_message_status : Text → ℕ → MessageStatus → MessengerApp → MessengerApp
unfolding change_chat change_at
update_message_status chat_name index status app =
    set_chats
      (change_chat chat_name (change_at index (set_message_status status)) app.history.chats) app

-- The arm `SendEvent::Done` of `poll_send_result`.
unfoldable pub send_done : Text → ℕ → Outcome (Unit {0}) → MessengerApp → MessengerApp
unfolding update_message_status localize_status_error
send_done chat_name index (done r) app =
    save_history
      (set_status (t app (codes "status.sent")) (update_message_status chat_name index sent app))
send_done chat_name index (error err) app =
    save_history (
      set_status (localize_status_error app err) (update_message_status chat_name index failed app))

-- `filter_map` to the ids that there are.
unfoldable pub ids_of : List ChatMessage → List Text
ids_of [] = []
ids_of (message ∷ messages) = elim message.message_id [
  | none ↦ ids_of messages
  | some id ↦ id ∷ ids_of messages
]

abbrev pub is_unread : ChatMessage → Bool
is_unread message = not message.outgoing && not (is_read message.status)

abbrev pub read_incoming : ChatMessage → ChatMessage
read_incoming message = if not message.outgoing then set_message_status read message else message

unfoldable pub clear_unread : Text → MessengerApp → MessengerApp
clear_unread chat app = record app {
  history = record app.history { unread_by_peer = remove chat app.history.unread_by_peer };
}

unfoldable pub mark_selected_chat_read : DeviceAuth → MessengerApp → Bool × MessengerApp
unfolding ids_of clear_unread
mark_selected_chat_read auth app =
    if app.read_ack_rx || is_empty app.selected_chat
    then (false, app)
    else elim (get app.selected_chat app.history.chats) [
      | none ↦ (false, app)
      | some messages ↦
          let message_ids = ids_of (filter is_unread messages) in
          if is_empty message_ids then (false, clear_unread app.selected_chat app) else (
            true,
            start (ack_messages auth app.selected_chat message_ids)
                (record (clear_unread app.selected_chat (
                  set_chats
                    (insert app.selected_chat (map read_incoming messages) app.history.chats)
                    app)) { read_ack_rx = true }),
          )
    ]

-- The message goes back to `Delivered`, where its acknowledgement failed.
abbrev pub unread_again : List Text → ChatMessage → ChatMessage
unread_again ids message =
    if any (λ id. has_id id message) ids then set_message_status delivered message else message

-- `*unread.entry(chat).or_default() += n`, of a `u32`.
unfoldable pub add_unread : Text → ℕ → List (Text × ℕ) → List (Text × ℕ)
add_unread chat n unread =
    insert chat ((unwrap_or (get chat unread) 0 + n % 2 ^ 32) % 2 ^ 32) unread

unfoldable pub read_ack_failed : Text → List Text → ChatHistory → ChatHistory
unfolding change_chat add_unread
read_ack_failed chat_name message_ids history = record history {
  chats = change_chat chat_name (map (unread_again message_ids)) history.chats;
  unread_by_peer = add_unread chat_name (length message_ids) history.unread_by_peer;
}

unfoldable pub poll_read_ack_result :
    Received (Text × List Text × Outcome (Unit {0})) → MessengerApp → MessengerApp
unfolding read_ack_failed
poll_read_ack_result message app =
    if app.read_ack_rx
    then elim message [
      | received (chat_name, message_ids, done r) ↦ record app { read_ack_rx = false }
      | received (chat_name, message_ids, error err) ↦ record app {
        read_ack_rx = false;
        history = read_ack_failed chat_name message_ids app.history;
      }
      | empty ↦ app
      | disconnected ↦ record app { read_ack_rx = false }
    ]
    else app

unfoldable pub outgoing_ids : Chats → List Text
unfolding ids_of
outgoing_ids [] = []
outgoing_ids ((peer, messages) ∷ chats) =
    ids_of (filter (λ m. m.outgoing && not (is_read m.status)) messages) ++ outgoing_ids chats

unfoldable pub outgoing_message_ids : MessengerApp → List Text
unfolding outgoing_ids
outgoing_message_ids app = outgoing_ids app.history.chats

unfoldable pub next_status : OutgoingMessageStatus → MessageStatus
next_status status = if status.read then read else if status.delivered then delivered else sent

abbrev pub same_status : MessageStatus → MessageStatus → Bool
same_status sending sending = true
same_status sent sent = true
same_status delivered delivered = true
same_status read read = true
same_status failed failed = true
same_status a b = false

-- A status that the server reports, on one message.
unfoldable pub apply_status : OutgoingMessageStatus → ChatMessage → ChatMessage
unfolding next_status has_id
apply_status status message =
    if has_id status.message_id message
    then set_message_status (next_status status) message
    else message

-- A message of the chats is changed by it.
unfoldable pub status_changes : OutgoingMessageStatus → Chats → Bool
unfolding next_status has_id
status_changes status chats =
    any
      (λ chat.
        any (λ m. has_id status.message_id m && not (same_status m.status (next_status status)))
          chat.1)
      chats

-- Whether a message changed, and the chats.
unfoldable pub apply_statuses : List OutgoingMessageStatus → Chats → Bool × Chats
unfolding apply_status status_changes each_message
apply_statuses [] chats = (false, chats)
apply_statuses (status ∷ statuses) chats =
    let rest = apply_statuses statuses (each_message (apply_status status) chats) in
    (status_changes status chats || rest.0, rest.1)

unfoldable pub apply_outgoing_statuses :
    List OutgoingMessageStatus → MessengerApp → Bool × MessengerApp
unfolding apply_statuses
apply_outgoing_statuses statuses app =
    let result = apply_statuses statuses app.history.chats in (result.0, set_chats result.1 app)
