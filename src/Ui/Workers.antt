-- ===== src/Ui/Workers.antt =====
-- crates/client-ui/src/app.rs: the workers that open a chat and synchronize, from their start to what
-- becomes of their results.
use rsmsg.Base.{
  ℕ, Bool, true, false, none, some, List, [], ◌∷◌, ◌++◌, ◌||◌, is_empty, is_none, filter, map,
  if◌then◌else◌,
}
use rsmsg.Base.Text.{Text, codes, trim}
use rsmsg.Base.Dict.{get}
use rsmsg.Client.Types.{EncryptedMessagePayload}
use rsmsg.Client.Library.{Json}
use rsmsg.Ui.State.{
  MessengerApp, Received, received, empty, disconnected, Outcome, done, error, run_open_chat_flow,
  run_sync_flow, reset_peer_session, set_status, t, tf, start, localize_status_error,
}
use rsmsg.Ui.Messages.{outgoing_message_ids}
use rsmsg.Ui.Sync.{OpenChatSuccess, SyncSuccess, apply_open_chat_success, apply_sync_success}

unfoldable pub open_chat : MessengerApp → MessengerApp
open_chat app =
    let peer = trim app.peer_nickname_input in
    let logged_out = set_status (t app (codes "error.log_in_first")) app in
    if app.open_chat_rx then app else elim app.auth [
      | none ↦ logged_out
      | some auth ↦
          if is_empty peer
          then set_status (t app (codes "status.enter_peer_nickname")) app
          else elim app.local_keys [
            | none ↦ logged_out
            | some local_keys ↦ start (run_open_chat_flow auth local_keys peer) (record app {
              open_chat_rx = true;
              status = codes "Opening chat with @" ++ (peer ++ codes "...");
            })
          ]
    ]

unfoldable pub poll_open_chat_result :
    Received (Outcome OpenChatSuccess) → MessengerApp → MessengerApp
poll_open_chat_result message app =
    let taken = record app { open_chat_rx = false } in
    if app.open_chat_rx
    then elim message [
      | received (done success) ↦ apply_open_chat_success success taken
      | received (error err) ↦ set_status err taken
      | empty ↦ app
      | disconnected ↦ set_status (t app (codes "status.open_chat_worker_stopped")) taken
    ]
    else app

unfoldable pub request_delete_selected_chat : MessengerApp → MessengerApp
request_delete_selected_chat app =
    if is_empty app.selected_chat
    then set_status (t app (codes "status.select_chat_first")) app
    else record app { delete_chat_confirm = some app.selected_chat }

unfoldable pub reset_selected_chat_session : MessengerApp → MessengerApp
unfolding open_chat
reset_selected_chat_session app =
    let peer = app.selected_chat in
    if is_empty peer
    then set_status (t app (codes "status.select_chat_first")) app
    else elim (get peer app.history.device_uuid_by_peer) [
      | none ↦ set_status (t app (codes "status.reopen_chat_before_sending")) app
      | some peer_device_uuid ↦ open_chat (
          start (reset_peer_session peer_device_uuid) (record app {
            peer_nickname_input = peer;
            status = tf app (codes "status.chat_session_reset") ((codes "peer", peer) ∷ []);
          }))
    ]

-- One of the keys of which `peer_safety_number` is made is not there.
abbrev pub misses_safety_number : MessengerApp → Text → Bool
misses_safety_number app peer =
    is_none (get peer app.history.peer_identity_key_by_peer)
    || is_none (get peer app.history.peer_signing_identity_key_by_peer)

unfoldable pub peers_missing_safety_numbers : MessengerApp → List Text
peers_missing_safety_numbers app =
    filter (misses_safety_number app) (map (λ entry. entry.0) app.history.device_uuid_by_peer)

unfoldable pub sync_incoming : MessengerApp → MessengerApp
unfolding peers_missing_safety_numbers outgoing_message_ids
sync_incoming app = if app.sync_rx then app else elim app.auth [
  | none ↦ app
  | some auth ↦ elim app.local_keys [
    | none ↦ app
    | some local_keys ↦
        start
          (run_sync_flow local_keys auth
            (record {
              peer_by_device_uuid = app.history.peer_by_device_uuid;
              peer_identity_key_by_peer = app.history.peer_identity_key_by_peer;
              peer_signing_identity_key_by_peer = app.history.peer_signing_identity_key_by_peer;
            })
            (peers_missing_safety_numbers app) (outgoing_message_ids app))
          (record app { sync_rx = true })
  ]
]

unfoldable pub poll_sync_result :
    Json EncryptedMessagePayload
    → ℕ
    → Text
    → Received (Outcome SyncSuccess)
    → MessengerApp
    → MessengerApp
poll_sync_result payloads now count message app =
    let taken = record app { sync_rx = false } in
    if app.sync_rx
    then elim message [
      | received (done success) ↦ apply_sync_success payloads now count success taken
      | received (error err) ↦ set_status (localize_status_error app err) taken
      | empty ↦ app
      | disconnected ↦ taken
    ]
    else app
