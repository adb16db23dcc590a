-- ===== src/Ui/Sync.antt =====
-- crates/client-ui/src/app.rs: what becomes of the chats when one is opened or deleted and when a
-- worker has fetched what is pending.
use rsmsg.Base.{
  ℕ, Bool, true, false, Option, none, some, List, [], ◌∷◌, ◌++◌, not, ◌&&◌, ◌||◌, ◌==◌, text_eq,
  ltb, is_empty, if◌then◌else◌,
}
use rsmsg.Base.Text.{Text, codes}
use rsmsg.Base.Dict.{get, insert, remove, contains_key}
use rsmsg.Shared.Messaging.{FetchPrekeyBundleResponse}
use rsmsg.Client.Types.{DecryptedMessage, OutgoingMessageStatus, EncryptedMessagePayload}
use rsmsg.Client.Library.{Json}
use rsmsg.Ui.History.{or_insert}
use rsmsg.Ui.State.{MessengerApp, set_status, set_chats, t, tf, save_history}
use rsmsg.Ui.Identity.{verify_or_pin_peer_identity}
use rsmsg.Ui.Messages.{mark_selected_chat_read, apply_outgoing_statuses}
use rsmsg.Ui.Incoming.{push_incoming}

pub record OpenChatSuccess : Type 0 where
  pub peer : Text
  pub resolved_uuid : Text
  pub bundle : FetchPrekeyBundleResponse

pub record PeerMapping : Type 0 where
  pub device_uuid : Text
  pub peer : Text
  pub bundle : FetchPrekeyBundleResponse

pub record SyncSuccess : Type 0 where
  pub peer_mappings : List PeerMapping
  pub decrypted : List DecryptedMessage
  pub statuses : List OutgoingMessageStatus
  pub pending_count : ℕ

-- The peer and its device name each other.
unfoldable pub map_peer : Text → Text → Text → MessengerApp → MessengerApp
map_peer device_uuid peer peer_uuid app = record app {
  history = record app.history {
    peer_by_device_uuid = insert device_uuid peer app.history.peer_by_device_uuid;
    device_uuid_by_peer = insert peer peer_uuid app.history.device_uuid_by_peer;
  };
}

-- `if let Some(auth) = self.auth.clone()`
unfoldable pub read_if_logged_in : MessengerApp → Bool × MessengerApp
read_if_logged_in app = elim app.auth [
  | none ↦ (false, app)
  | some auth ↦ mark_selected_chat_read auth app
]

unfoldable pub select : OpenChatSuccess → MessengerApp → MessengerApp
unfolding map_peer
select success app = map_peer success.resolved_uuid success.peer success.resolved_uuid (
    set_chats (or_insert success.peer [] app.history.chats)
      (record app { selected_chat = success.peer }))

unfoldable pub apply_open_chat_success : OpenChatSuccess → MessengerApp → MessengerApp
unfolding select read_if_logged_in
apply_open_chat_success success app =
    let (verified, pinned) = verify_or_pin_peer_identity success.peer success.bundle app in
    if not (success.bundle.device_uuid == success.resolved_uuid)
    then set_status (t app (codes "status.peer_resolve_mismatch")) app
    else if not verified
    then pinned
    else set_status (codes "Chat with @" ++ (success.peer ++ codes " ready"))
        (save_history (read_if_logged_in (select success pinned)).1)

unfoldable pub delete_chat_locally : Text → MessengerApp → MessengerApp
delete_chat_locally chat_name app =
    set_status (tf app (codes "status.chat_deleted") ((codes "user", chat_name) ∷ [])) (
      save_history (record app {
        history = record app.history {
          chats = remove chat_name app.history.chats;
          unread_by_peer = remove chat_name app.history.unread_by_peer;
        };
        selected_chat = if app.selected_chat == chat_name then [] else app.selected_chat;
        delete_chat_confirm = none;
      }))

-- `insert(key, value).as_ref() != Some(&value)`
abbrev pub replaces : Option Text → Text → Bool
replaces none value = true
replaces (some old) value = not (old == value)

-- One round of the loop through the mappings: whether it changed something, and the state.
unfoldable pub apply_mapping : PeerMapping → MessengerApp → Bool × MessengerApp
unfolding map_peer
apply_mapping mapping app =
    let (verified, pinned) = verify_or_pin_peer_identity mapping.peer mapping.bundle app in
    if verified
    then (
      replaces (get mapping.device_uuid pinned.history.peer_by_device_uuid) mapping.peer
          || replaces (get mapping.peer pinned.history.device_uuid_by_peer)
              mapping.bundle.device_uuid
          || not (contains_key mapping.peer pinned.history.chats),
      map_peer mapping.device_uuid mapping.peer mapping.bundle.device_uuid
          (set_chats (or_insert mapping.peer [] pinned.history.chats) pinned),
    )
    else (false, pinned)

unfoldable pub apply_mappings : List PeerMapping → MessengerApp → Bool × MessengerApp
unfolding apply_mapping
apply_mappings [] app = (false, app)
apply_mappings (mapping ∷ mappings) app =
    let first = apply_mapping mapping app in
    let rest = apply_mappings mappings first.1 in (first.0 || rest.0, rest.1)

unfoldable pub push_all :
    Json EncryptedMessagePayload → ℕ → List DecryptedMessage → MessengerApp → MessengerApp
unfolding push_incoming
push_all payloads now [] app = app
push_all payloads now (msg ∷ msgs) app =
    push_all payloads now msgs (push_incoming payloads now msg app)

-- The texts have the number of pending messages in the place of `count`, which is its print.
unfoldable pub none_decrypted : Text → SyncSuccess → MessengerApp → MessengerApp
none_decrypted count success app =
    if ltb 0 success.pending_count && is_empty success.decrypted
    then set_status
        (codes "Sync received "
          ++ (count
              ++ codes " pending message(s), decrypted 0. Re-open chat or trust the new key."))
        app
    else app

unfoldable pub apply_sync_success :
    Json EncryptedMessagePayload → ℕ → Text → SyncSuccess → MessengerApp → MessengerApp
unfolding apply_mappings push_all none_decrypted read_if_logged_in
apply_sync_success payloads now count success app =
    let mapped = apply_mappings success.peer_mappings app in
    let pushed = push_all payloads now success.decrypted mapped.1 in
    let statuses = apply_outgoing_statuses success.statuses (none_decrypted count success pushed) in
    let marked = read_if_logged_in statuses.1 in
    if mapped.0 || not (is_empty success.decrypted) || statuses.0 || marked.0
    then save_history marked.1
    else marked.1
