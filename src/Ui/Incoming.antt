-- ===== src/Ui/Incoming.antt =====
-- crates/client-ui/src/app.rs: a message that was decrypted, and the calls that ring.
use rsmsg.Base.{
  ℕ, Bool, true, false, Option, none, some, List, [], ◌∷◌, ◌++◌, ◌||◌, ◌==◌, text_eq, nat_eq, take,
  is_some, if◌then◌else◌, unwrap_or,
}
use rsmsg.Base.Text.{Text, codes, strip_prefix}
use rsmsg.Base.Utf8.{as_bytes}
use rsmsg.Base.Dict.{get}
use rsmsg.Shared.Call.{CallSignalItem}
use rsmsg.Client.Types.{DecryptedMessage, EncryptedMessagePayload, contact, file, call}
use rsmsg.Client.Library.{Json}
use rsmsg.Ui.History.{ChatMessage, delivered, or_insert, push_message, knows_id}
use rsmsg.Ui.State.{
  MessengerApp, CallState, set_status, set_chats, t, tf, start, notify, play_call_tone,
  send_call_signal,
}
use rsmsg.Ui.Messages.{add_unread}

-- The peer of a device, or the first bytes of its id, which is a UUID and has one byte for each
-- character.
unfoldable pub sender_name : MessengerApp → Text → Text
sender_name app device_uuid =
    unwrap_or (get device_uuid app.history.peer_by_device_uuid)
      (codes "unknown:" ++ take 8 device_uuid)

unfoldable pub incoming_call : ℕ → Text → Text → Text → Bool → MessengerApp → CallState
incoming_call now peer device_uuid call_id video app = record {
  peer = peer;
  peer_device_uuid = device_uuid;
  call_id = call_id;
  video = video;
  microphone_muted = false;
  camera_disabled = false;
  incoming = true;
  accepted = false;
  signaling_status = t app (codes "call.incoming_waiting");
  started_at = now;
  last_signal_poll_at = now;
}

-- What a message shows: the names of the tuple in `push_incoming`.
pub record Shown : Type 0 where
  pub text : Text
  pub file_name : Option Text
  pub file_size : Option ℕ
  pub file_data_b64 : Option Text
  pub blob_id : Option Text
  pub file_key_b64 : Option Text
  pub call_of : Option (Text × Bool)

abbrev pub shown_text : Text → Option (Text × Bool) → Shown
shown_text s call_of = record {
  text = s;
  file_name = none;
  file_size = none;
  file_data_b64 = none;
  blob_id = none;
  file_key_b64 = none;
  call_of = call_of;
}

-- None for a contact, which is not shown.
unfoldable pub shown : MessengerApp → Text → Option EncryptedMessagePayload → Option Shown
shown app plaintext none = some (shown_text plaintext none)
shown app plaintext (some (contact v)) = none
shown app plaintext (some (file f)) = some (record {
  text = codes "File: " ++ f.file_name;
  file_name = some f.file_name;
  file_size = some f.file_size;
  file_data_b64 = f.data_b64;
  blob_id = f.blob_id;
  file_key_b64 = f.file_key_b64;
  call_of = none;
})
shown app plaintext (some (call v call_id video)) = some (
    shown_text
      (t app (
        if video then codes "call.incoming_video_message" else codes "call.incoming_audio_message"))
      (some (call_id, video)))

unfoldable pub chat_message : DecryptedMessage → Shown → ChatMessage
chat_message msg content = record {
  outgoing = false;
  text = content.text;
  ts = msg.created_at_unix_ms;
  status = delivered;
  message_id = some msg.message_id;
  file_name = content.file_name;
  file_size = content.file_size;
  file_data_b64 = content.file_data_b64;
  blob_id = content.blob_id;
  file_key_b64 = content.file_key_b64;
}

unfoldable pub count_unread : Text → MessengerApp → MessengerApp
unfolding add_unread
count_unread nick app = if app.selected_chat == nick then app else record app {
  history = record app.history { unread_by_peer = add_unread nick 1 app.history.unread_by_peer };
}

unfoldable pub ring : ℕ → Text → Text → Option (Text × Bool) → MessengerApp → MessengerApp
unfolding incoming_call
ring now nick device_uuid none app = app
ring now nick device_uuid (some (call_id, video)) app =
    if is_some app.active_call
    then set_status (t app (codes "call.busy")) (elim app.auth [
      | none ↦ app
      | some auth ↦
          start (send_call_signal auth call_id device_uuid (codes "busy") (codes "{}")) app
    ])
    else record (start play_call_tone app) {
      active_call = some (incoming_call now nick device_uuid call_id video app);
    }

unfoldable pub notified : Text → Shown → MessengerApp → MessengerApp
notified nick content app =
    let title =
      if is_some content.call_of
      then codes "notification.incoming_call"
      else codes "notification.new_message" in
    start (notify (tf app title ((codes "user", nick) ∷ [])) content.text) app

-- The message stands at the end of the chat of its sender.
unfoldable pub show_message : ℕ → DecryptedMessage → Shown → MessengerApp → MessengerApp
unfolding sender_name chat_message count_unread ring notified
show_message now msg content app =
    let nick = sender_name app msg.from_device_uuid in
    ring now nick msg.from_device_uuid content.call_of (
      count_unread nick (
        set_chats (push_message nick (chat_message msg content) app.history.chats)
          (notified nick content app)))

unfoldable pub push_incoming :
    Json EncryptedMessagePayload → ℕ → DecryptedMessage → MessengerApp → MessengerApp
unfolding show_message shown sender_name
push_incoming payloads now msg app =
    if knows_id msg.message_id app.history.chats
    then app
    else elim (shown app msg.plaintext (payloads.from_slice (as_bytes msg.plaintext))) [
      | none ↦ set_chats (or_insert (sender_name app msg.from_device_uuid) [] app.history.chats) app
      | some content ↦ show_message now msg content app
    ]

-- `str::contains`
unfoldable pub contains : Text → Text → Bool
contains pattern [] = is_some (strip_prefix pattern [])
contains pattern (c ∷ s) = is_some (strip_prefix pattern (c ∷ s)) || contains pattern s

-- The first invitation rings, and the signals after it are left.
unfoldable pub apply_incoming_call_signals : ℕ → List CallSignalItem → MessengerApp → MessengerApp
unfolding contains incoming_call sender_name
apply_incoming_call_signals now [] app = app
apply_incoming_call_signals now (signal ∷ signals) app =
    let rest = apply_incoming_call_signals now signals app in
    if signal.kind == codes "invite"
    then record (start play_call_tone app) {
      active_call = some (
          incoming_call now (sender_name app signal.from_device_uuid) signal.from_device_uuid
            signal.call_id (contains (codes "\"video\":true") signal.payload) app);
    }
    else rest
