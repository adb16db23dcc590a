-- ===== src/Server/Preserved/Requests.antt =====
-- Predicates of the database over whole requests: handlers/ and router.rs.
use rsmsg.Base.{Option-cases, ◌≡◌, refl, inl, inr, some, List, arith}
use rsmsg.Base.Text.{Text}
use rsmsg.Server.State.{Uuid, Database, Server}
use rsmsg.Server.Monad.{Moment, Outcome, done, failed, answer, query, after}
use rsmsg.Server.Library.{Library}
use rsmsg.Server.Keeps.{Maintains, Keeps, Keeps-bind, On, keeps_rules}
use rsmsg.Server.Statements.{Statements}
use rsmsg.Server.Auth.{Headers}
use rsmsg.Server.VersionGate.{require_supported_client}
use rsmsg.Server.Repository.Messages
use rsmsg.Server.Handlers.User
use rsmsg.Server.Handlers.Device
use rsmsg.Server.Handlers.Messaging
use rsmsg.Server.Handlers.CallSignaling
use rsmsg.Server.Handlers.Blob
use rsmsg.Server.Handlers.Health
use rsmsg.Server.Handlers.Router.{
  Route, health, user_register, user_login, user_search, user_online, block_user, unblock_user,
  blocked_users, resolve_user, resolve_device, ws_realtime, register_device, device_login,
  device_logout, upload_prekeys, fetch_prekey_bundle, send_message, fetch_pending, ack_message,
  message_status, send_call_signal, fetch_call_signals, upload_blob, fetch_blob, upload_blob_bytes,
  fetch_blob_bytes, create_blob, append_blob_chunk, Body, path_of, dispatch, into_response, serve,
}
use rsmsg.Server.Preserved.Users.{
  authorize_device-Keeps, register-Keeps, user_login-Keeps, resolve_user-Keeps,
  resolve_device-Keeps, search_users-Keeps, user_online-Keeps, block_user-Keeps, unblock_user-Keeps,
  blocked_users-Keeps,
}
use rsmsg.Server.Preserved.Devices.{
  register_device-Keeps, upload_prekeys-Keeps, device_login-Keeps, device_logout-Keeps,
  upload_blob-Keeps, upload_blob_bytes-Keeps, create_blob-Keeps, append_blob_chunk-Keeps,
  fetch_blob-Keeps, fetch_blob_bytes-Keeps,
}
use rsmsg.Server.Preserved.Messages.{
  message_status-Keeps, send_call_signal-Keeps, fetch_call_signals-Keeps, fetch_prekey_bundle-Keeps,
  send_message-Keeps, fetch_pending-Keeps, ack_message-Keeps,
}

pub health-Keeps : {P : Database → Type 0} → Keeps (On P) Health.health
unfolding Health.health query
health-Keeps = record { at = λ t s h. record { get = ground arith } }

-- What a request acknowledges: the messages of a device that it lists.
abbrev pub Acks : ⦃lib : Library⦄ → Route → Uuid → List Text → Type 0
Acks ⦃lib⦄ (ack_message payload) to message_ids =
    (lib.parse_uuid payload.device_uuid ≡ some to) × (payload.message_ids ≡ message_ids)
Acks ⦃lib⦄ _ to message_ids = ⊥

module _ ⦃lib : Library⦄ {P : Database → Type 0} (S : Statements P) (headers : Headers) where
  dispatch-Keeps :
      (route : Route)
      → ((to : Uuid) (message_ids : List Text)
          → Acks route to message_ids
          → Maintains P (Messages.ack_messages to message_ids))
      → Keeps (On P) (dispatch headers route)
  unfolding dispatch User.user_register User.user_search User.user_online User.block_user
      User.unblock_user User.blocked_users User.resolve_user User.resolve_device Health.ws_realtime
      Device.register_device Device.device_login Device.device_logout Device.upload_prekeys
      Messaging.fetch_prekey_bundle Messaging.send_message Messaging.fetch_pending
      Messaging.ack_message Messaging.message_status CallSignaling.send_call_signal
      CallSignaling.fetch_call_signals Blob.upload_blob Blob.fetch_blob Blob.upload_blob_bytes
      Blob.fetch_blob_bytes Blob.create_blob Blob.append_blob_chunk
  dispatch-Keeps health acks = search (keeps_rules, health-Keeps)
  dispatch-Keeps (user_register payload) acks = search (keeps_rules, register-Keeps S) depth 12
  dispatch-Keeps (user_login payload) acks = search (keeps_rules, user_login-Keeps) depth 12
  dispatch-Keeps (user_search payload) acks = search (keeps_rules, search_users-Keeps) depth 12
  dispatch-Keeps (user_online payload) acks = search (keeps_rules, user_online-Keeps) depth 12
  dispatch-Keeps (block_user payload) acks =
      search (keeps_rules, authorize_device-Keeps, block_user-Keeps S) depth 12
  dispatch-Keeps (unblock_user payload) acks =
      search (keeps_rules, authorize_device-Keeps, unblock_user-Keeps S) depth 12
  dispatch-Keeps blocked_users acks =
      search (keeps_rules, authorize_device-Keeps, blocked_users-Keeps) depth 12
  dispatch-Keeps (resolve_user payload) acks = search (keeps_rules, resolve_user-Keeps) depth 12
  dispatch-Keeps (resolve_device payload) acks = search (keeps_rules, resolve_device-Keeps) depth 12
  dispatch-Keeps ws_realtime acks = search (keeps_rules, authorize_device-Keeps) depth 12
  dispatch-Keeps (register_device payload) acks =
      search (keeps_rules, register_device-Keeps S) depth 12
  dispatch-Keeps (device_login payload) acks = search (keeps_rules, device_login-Keeps S) depth 12
  dispatch-Keeps (device_logout payload) acks =
      search (keeps_rules, authorize_device-Keeps, device_logout-Keeps S) depth 12
  dispatch-Keeps (upload_prekeys payload) acks =
      search (keeps_rules, authorize_device-Keeps, upload_prekeys-Keeps S) depth 12
  dispatch-Keeps (fetch_prekey_bundle payload) acks =
      search (keeps_rules, fetch_prekey_bundle-Keeps S) depth 12
  dispatch-Keeps (send_message payload) acks =
      search (keeps_rules, authorize_device-Keeps, send_message-Keeps S) depth 12
  dispatch-Keeps (fetch_pending payload) acks =
      search (keeps_rules, authorize_device-Keeps, fetch_pending-Keeps S) depth 12
  dispatch-Keeps (ack_message payload) acks =
      Keeps-bind _ _
        (Keeps-bind _ _ (authorize_device-Keeps headers)
          λ device. ack_message-Keeps device payload λ to e. acks to payload.message_ids (e, refl))
        λ r. search keeps_rules
  dispatch-Keeps (message_status payload) acks =
      search (keeps_rules, authorize_device-Keeps, message_status-Keeps) depth 12
  dispatch-Keeps (send_call_signal payload) acks =
      search (keeps_rules, authorize_device-Keeps, send_call_signal-Keeps) depth 12
  dispatch-Keeps (fetch_call_signals payload) acks =
      search (keeps_rules, authorize_device-Keeps, fetch_call_signals-Keeps) depth 12
  dispatch-Keeps (upload_blob payload) acks =
      search (keeps_rules, authorize_device-Keeps, upload_blob-Keeps S) depth 12
  dispatch-Keeps (fetch_blob payload) acks =
      search (keeps_rules, authorize_device-Keeps, fetch_blob-Keeps) depth 12
  dispatch-Keeps (upload_blob_bytes payload) acks =
      search (keeps_rules, authorize_device-Keeps, upload_blob_bytes-Keeps S) depth 12
  dispatch-Keeps (fetch_blob_bytes payload) acks =
      search (keeps_rules, authorize_device-Keeps, fetch_blob_bytes-Keeps) depth 12
  dispatch-Keeps create_blob acks =
      search (keeps_rules, authorize_device-Keeps, create_blob-Keeps S) depth 12
  dispatch-Keeps (append_blob_chunk payload) acks =
      search (keeps_rules, authorize_device-Keeps, append_blob_chunk-Keeps S) depth 12

pub after_response : (o : Outcome Body) → (into_response o).1 ≡ after o
unfolding into_response
after_response (done body s) = refl
after_response (failed e s) = refl

module _ ⦃lib : Library⦄ {P : Database → Type 0} (S : Statements P) where
  -- What every statement keeps, a request keeps, refused or not.
  pub serve-On :
      (t : Moment) (headers : Headers) (route : Route) (s : Server)
      → ((to : Uuid) (message_ids : List Text)
          → Acks route to message_ids
          → Maintains P (Messages.ack_messages to message_ids))
      → P s.db
      → P (serve t headers route s).1.db
  unfolding serve
  serve-On t headers route s acks h =
      elim (Option-cases
        (require_supported_client s.min_client_version (path_of route) headers.client_version)) [
          | inl pass ↦
              rw (pass, serve, after_response)
                (((dispatch-Keeps S headers route acks).at t s (record { get = h })).get)
          | inr (answer, stop) ↦ rw (stop, serve) h
        ]
