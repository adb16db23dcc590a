-- ===== src/Server/Undone/Requests.antt =====
-- What requests leave of the tables where they fail: handlers/ and router.rs.

use rsmsg.Base.{Option-cases, ◌≡◌, refl, inl, inr}
use rsmsg.Server.State.{Server}
use rsmsg.Server.Monad.{ApiError, Moment, Outcome, done, failed, answer}
use rsmsg.Server.Library.{Library}
use rsmsg.Server.Keeps.{keeps_rules}
use rsmsg.Server.Auth.{Headers}
use rsmsg.Server.Undone.{Restored, Undone, Undone-reads, undone_rules}
use rsmsg.Server.Preserved.Users.{
  authorize_device-Keeps, user_login-Keeps, resolve_user-Keeps, resolve_device-Keeps,
  search_users-Keeps, user_online-Keeps, blocked_users-Keeps,
}
use rsmsg.Server.Preserved.Devices.{fetch_blob-Keeps, fetch_blob_bytes-Keeps}
use rsmsg.Server.Preserved.Messages.{
  message_status-Keeps, send_call_signal-Keeps, fetch_call_signals-Keeps,
}
use rsmsg.Server.Preserved.Requests.{health-Keeps}
use rsmsg.Server.VersionGate.{require_supported_client}
use rsmsg.Server.Handlers.User
use rsmsg.Server.Handlers.Device
use rsmsg.Server.Handlers.Messaging
use rsmsg.Server.Handlers.CallSignaling
use rsmsg.Server.Handlers.Blob
use rsmsg.Server.Handlers.Health
use rsmsg.Server.Handlers.Router.{
  Route, health, user_register, user_login, user_search, user_online, block_user, unblock_user,
  blocked_users, resolve_user, resolve_device, ws_realtime, register_device, device_login,
  device_logout, upload_prekeys, fetch_prekey_bundle, send_message, fetch_pending, ack_message,
  message_status, send_call_signal, fetch_call_signals, upload_blob, fetch_blob, upload_blob_bytes,
  fetch_blob_bytes, create_blob, append_blob_chunk, Body, path_of, dispatch, error, into_response,
  serve,
}
use rsmsg.Server.Undone.Domain.{
  register-Undone, block_user-Undone, unblock_user-Undone, register_device-Undone,
  upload_prekeys-Undone, device_login-Undone, device_logout-Undone, fetch_prekey_bundle-Undone,
  send_message-Undone, fetch_pending-Undone, upload_blob-Undone, upload_blob_bytes-Undone,
  create_blob-Undone, ack_message-Undone,
}

-- The handler that appends to a blob.
abbrev pub IsAppend : Route → Type 0
IsAppend (append_blob_chunk payload) = Unit
IsAppend _ = ⊥

module _ ⦃lib : Library⦄ (headers : Headers) where
  dispatch-Undone : (route : Route) → ¬ IsAppend route → Undone (dispatch headers route)
  unfolding dispatch User.user_register User.user_search User.user_online User.block_user
      User.unblock_user User.blocked_users User.resolve_user User.resolve_device Health.ws_realtime
      Device.register_device Device.device_login Device.device_logout Device.upload_prekeys
      Messaging.fetch_prekey_bundle Messaging.send_message Messaging.fetch_pending
      Messaging.ack_message Messaging.message_status CallSignaling.send_call_signal
      CallSignaling.fetch_call_signals Blob.upload_blob Blob.fetch_blob Blob.upload_blob_bytes
      Blob.fetch_blob_bytes Blob.create_blob Blob.append_blob_chunk
  dispatch-Undone health h = Undone-reads _ (λ d. search (keeps_rules, health-Keeps))
  dispatch-Undone (user_register payload) h = search (undone_rules, register-Undone) depth 12
  dispatch-Undone (user_login payload) h =
      Undone-reads _ (λ d. search (keeps_rules, user_login-Keeps) depth 12)
  dispatch-Undone (user_search payload) h =
      Undone-reads _ (λ d. search (keeps_rules, search_users-Keeps) depth 12)
  dispatch-Undone (user_online payload) h =
      Undone-reads _ (λ d. search (keeps_rules, user_online-Keeps) depth 12)
  dispatch-Undone (block_user payload) h =
      search (undone_rules, authorize_device-Keeps, block_user-Undone) depth 12
  dispatch-Undone (unblock_user payload) h =
      search (undone_rules, authorize_device-Keeps, unblock_user-Undone) depth 12
  dispatch-Undone blocked_users h =
      Undone-reads _
        (λ d. search (keeps_rules, authorize_device-Keeps, blocked_users-Keeps) depth 12)
  dispatch-Undone (resolve_user payload) h =
      Undone-reads _ (λ d. search (keeps_rules, resolve_user-Keeps) depth 12)
  dispatch-Undone (resolve_device payload) h =
      Undone-reads _ (λ d. search (keeps_rules, resolve_device-Keeps) depth 12)
  dispatch-Undone ws_realtime h =
      Undone-reads _ (λ d. search (keeps_rules, authorize_device-Keeps) depth 12)
  dispatch-Undone (register_device payload) h =
      search (undone_rules, register_device-Undone) depth 12
  dispatch-Undone (device_login payload) h = search (undone_rules, device_login-Undone) depth 12
  dispatch-Undone (device_logout payload) h =
      search (undone_rules, keeps_rules, authorize_device-Keeps, device_logout-Undone) depth 12
  dispatch-Undone (upload_prekeys payload) h =
      search (undone_rules, authorize_device-Keeps, upload_prekeys-Undone) depth 12
  dispatch-Undone (fetch_prekey_bundle payload) h =
      search (undone_rules, fetch_prekey_bundle-Undone) depth 12
  dispatch-Undone (send_message payload) h =
      search (undone_rules, authorize_device-Keeps, send_message-Undone) depth 12
  dispatch-Undone (fetch_pending payload) h =
      search (undone_rules, authorize_device-Keeps, fetch_pending-Undone) depth 12
  dispatch-Undone (ack_message payload) h =
      search (undone_rules, authorize_device-Keeps, ack_message-Undone) depth 12
  dispatch-Undone (message_status payload) h =
      Undone-reads _
        (λ d. search (keeps_rules, authorize_device-Keeps, message_status-Keeps) depth 12)
  dispatch-Undone (send_call_signal payload) h =
      Undone-reads _
        (λ d. search (keeps_rules, authorize_device-Keeps, send_call_signal-Keeps) depth 12)
  dispatch-Undone (fetch_call_signals payload) h =
      Undone-reads _
        (λ d. search (keeps_rules, authorize_device-Keeps, fetch_call_signals-Keeps) depth 12)
  dispatch-Undone (upload_blob payload) h =
      search (undone_rules, authorize_device-Keeps, upload_blob-Undone) depth 12
  dispatch-Undone (fetch_blob payload) h =
      Undone-reads _ (λ d. search (keeps_rules, authorize_device-Keeps, fetch_blob-Keeps) depth 12)
  dispatch-Undone (upload_blob_bytes payload) h =
      search (undone_rules, authorize_device-Keeps, upload_blob_bytes-Undone) depth 12
  dispatch-Undone (fetch_blob_bytes payload) h =
      Undone-reads _
        (λ d. search (keeps_rules, authorize_device-Keeps, fetch_blob_bytes-Keeps) depth 12)
  dispatch-Undone create_blob h =
      search (undone_rules, authorize_device-Keeps, create_blob-Undone) depth 12
  dispatch-Undone (append_blob_chunk payload) h = absurd (h tt)

Restored-response :
    (s : Server) (o : Outcome Body) (e : ApiError)
    → Restored s o
    → (into_response o).0 ≡ error e
    → (into_response o).1.db ≡ s.db
unfolding into_response
Restored-response s (done body s') e h i = cc
Restored-response s (failed f s') e h i = h

module _ ⦃lib : Library⦄ where
  -- A request that is answered by an error, at whatever step it fails and for whatever reason, leaves
  -- every table as it was, unless it appends to a blob.
  pub serve_error_undone :
      (t : Moment) (headers : Headers) (route : Route) (s : Server) (e : ApiError)
      → ¬ IsAppend route
      → (serve t headers route s).0 ≡ error e
      → (serve t headers route s).1.db ≡ s.db
  unfolding serve
  serve_error_undone t headers route s e h answered =
      elim (Option-cases
        (require_supported_client s.min_client_version (path_of route) headers.client_version)) [
          | inl pass ↦
              rw (pass, serve)
                (Restored-response s (dispatch headers route t s) e
                  ((dispatch-Undone headers route h).at t s) (rw (pass, serve) at answered))
          | inr (answer, stop) ↦ rw (stop, serve) refl
        ]
