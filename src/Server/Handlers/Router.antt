-- ===== src/Server/Handlers/Router.antt =====
-- crates/server/src/router.rs: the routes, and the version gate that stands before them.
use rsmsg.Base.{none, some}
use rsmsg.Base.Text.{Text, codes}
use rsmsg.Server.State.{Uuid, Bytes, Server}
use rsmsg.Server.Monad.{StatusCode, ApiError, Moment, Outcome, done, failed, M, pure, ◌>>=◌}
use rsmsg.Server.Library.{Library}
use rsmsg.Server.Auth.{Headers}
use rsmsg.Server.VersionGate.{UpgradeRequired, require_supported_client}
use rsmsg.Shared.User.{
  UserRegisterRequest, UserRegisterResponse, UserLoginRequest, UserLoginResponse,
  ResolveUserRequest, ResolveUserResponse, ResolveDeviceRequest, ResolveDeviceResponse,
  UserSearchRequest, UserSearchResponse, BlockUserRequest, BlockUserResponse, UnblockUserRequest,
  UnblockUserResponse, BlockedUsersResponse, UserOnlineRequest, UserOnlineResponse,
}
use rsmsg.Shared.Device.{
  RegisterDeviceRequest, RegisterDeviceResponse, UploadPrekeysRequest, UploadPrekeysResponse,
  DeviceLoginRequest, DeviceLoginResponse, DeviceLogoutRequest, DeviceLogoutResponse,
}
use rsmsg.Shared.Messaging.{
  FetchPrekeyBundleRequest, FetchPrekeyBundleResponse, SendMessageRequest, SendMessageResponse,
  FetchPendingRequest, FetchPendingResponse, AckMessageRequest, AckMessageResponse,
  MessageStatusRequest, MessageStatusResponse,
}
use rsmsg.Shared.Call.{
  SendCallSignalRequest, SendCallSignalResponse, FetchCallSignalsRequest, FetchCallSignalsResponse,
}
use rsmsg.Shared.Blob.{
  UploadBlobRequest, UploadBlobResponse, CreateBlobResponse, AppendBlobChunkRequest,
  AppendBlobChunkResponse, FetchBlobRequest, FetchBlobResponse,
}
use rsmsg.Server.Handlers.User
use rsmsg.Server.Handlers.Device
use rsmsg.Server.Handlers.Messaging
use rsmsg.Server.Handlers.CallSignaling
use rsmsg.Server.Handlers.Blob
use rsmsg.Server.Handlers.Health

-- A request to one of the routes, with its body.
pub data Route : Type 0 where
  health : Route
  user_register : UserRegisterRequest → Route
  user_login : UserLoginRequest → Route
  user_search : UserSearchRequest → Route
  user_online : UserOnlineRequest → Route
  block_user : BlockUserRequest → Route
  unblock_user : UnblockUserRequest → Route
  blocked_users : Route
  resolve_user : ResolveUserRequest → Route
  resolve_device : ResolveDeviceRequest → Route
  ws_realtime : Route
  register_device : RegisterDeviceRequest → Route
  device_login : DeviceLoginRequest → Route
  device_logout : DeviceLogoutRequest → Route
  upload_prekeys : UploadPrekeysRequest → Route
  fetch_prekey_bundle : FetchPrekeyBundleRequest → Route
  send_message : SendMessageRequest → Route
  fetch_pending : FetchPendingRequest → Route
  ack_message : AckMessageRequest → Route
  message_status : MessageStatusRequest → Route
  send_call_signal : SendCallSignalRequest → Route
  fetch_call_signals : FetchCallSignalsRequest → Route
  upload_blob : UploadBlobRequest → Route
  fetch_blob : FetchBlobRequest → Route
  upload_blob_bytes : Bytes → Route
  fetch_blob_bytes : FetchBlobRequest → Route
  create_blob : Route
  append_blob_chunk : AppendBlobChunkRequest → Route

-- The body of a response: a type for each shape.
pub data Body : Type 0 where
  status_response : StatusCode → Body
  user_register_response : UserRegisterResponse → Body
  user_login_response : UserLoginResponse → Body
  user_search_response : UserSearchResponse → Body
  user_online_response : UserOnlineResponse → Body
  block_user_response : BlockUserResponse → Body
  unblock_user_response : UnblockUserResponse → Body
  blocked_users_response : BlockedUsersResponse → Body
  resolve_user_response : ResolveUserResponse → Body
  resolve_device_response : ResolveDeviceResponse → Body
  upgraded : Uuid → Body
  register_device_response : RegisterDeviceResponse → Body
  device_login_response : DeviceLoginResponse → Body
  device_logout_response : DeviceLogoutResponse → Body
  upload_prekeys_response : UploadPrekeysResponse → Body
  fetch_prekey_bundle_response : FetchPrekeyBundleResponse → Body
  send_message_response : SendMessageResponse → Body
  fetch_pending_response : FetchPendingResponse → Body
  ack_message_response : AckMessageResponse → Body
  message_status_response : MessageStatusResponse → Body
  send_call_signal_response : SendCallSignalResponse → Body
  fetch_call_signals_response : FetchCallSignalsResponse → Body
  upload_blob_response : UploadBlobResponse → Body
  fetch_blob_response : FetchBlobResponse → Body
  raw_bytes : Bytes → Body
  create_blob_response : CreateBlobResponse → Body
  append_blob_chunk_response : AppendBlobChunkResponse → Body

-- The path of a route.
unfoldable pub path_of : Route → Text
path_of health = codes "/health"
path_of (user_register payload) = codes "/v1/user_register"
path_of (user_login payload) = codes "/v1/user_login"
path_of (user_search payload) = codes "/v1/user_search"
path_of (user_online payload) = codes "/v1/user_online"
path_of (block_user payload) = codes "/v1/block_user"
path_of (unblock_user payload) = codes "/v1/unblock_user"
path_of blocked_users = codes "/v1/blocked_users"
path_of (resolve_user payload) = codes "/v1/resolve_user"
path_of (resolve_device payload) = codes "/v1/resolve_device"
path_of ws_realtime = codes "/v1/ws"
path_of (register_device payload) = codes "/v1/register_device"
path_of (device_login payload) = codes "/v1/device_login"
path_of (device_logout payload) = codes "/v1/device_logout"
path_of (upload_prekeys payload) = codes "/v1/upload_prekeys"
path_of (fetch_prekey_bundle payload) = codes "/v1/fetch_prekey_bundle"
path_of (send_message payload) = codes "/v1/send_message"
path_of (fetch_pending payload) = codes "/v1/fetch_pending"
path_of (ack_message payload) = codes "/v1/ack_message"
path_of (message_status payload) = codes "/v1/message_status"
path_of (send_call_signal payload) = codes "/v1/send_call_signal"
path_of (fetch_call_signals payload) = codes "/v1/fetch_call_signals"
path_of (upload_blob payload) = codes "/v1/upload_blob"
path_of (fetch_blob payload) = codes "/v1/fetch_blob"
path_of (upload_blob_bytes payload) = codes "/v1/upload_blob_bytes"
path_of (fetch_blob_bytes payload) = codes "/v1/fetch_blob_bytes"
path_of create_blob = codes "/v1/create_blob"
path_of (append_blob_chunk payload) = codes "/v1/append_blob_chunk"

module _ ⦃lib : Library⦄ where
  unfoldable pub dispatch : Headers → Route → M Body
  dispatch headers health = do status ← Health.health; pure (status_response status)
  dispatch headers (user_register payload) = do
    r ← User.user_register payload
    pure (user_register_response r)
  dispatch headers (user_login payload) = do
    r ← User.user_login payload
    pure (user_login_response r)
  dispatch headers (user_search payload) = do
    r ← User.user_search payload
    pure (user_search_response r)
  dispatch headers (user_online payload) = do
    r ← User.user_online payload
    pure (user_online_response r)
  dispatch headers (block_user payload) = do
    r ← User.block_user headers payload
    pure (block_user_response r)
  dispatch headers (unblock_user payload) = do
    r ← User.unblock_user headers payload
    pure (unblock_user_response r)
  dispatch headers blocked_users = do
    r ← User.blocked_users headers
    pure (blocked_users_response r)
  dispatch headers (resolve_user payload) = do
    r ← User.resolve_user payload
    pure (resolve_user_response r)
  dispatch headers (resolve_device payload) = do
    r ← User.resolve_device payload
    pure (resolve_device_response r)
  dispatch headers ws_realtime = do r ← Health.ws_realtime headers; pure (upgraded r)
  dispatch headers (register_device payload) = do
    r ← Device.register_device payload
    pure (register_device_response r)
  dispatch headers (device_login payload) = do
    r ← Device.device_login payload
    pure (device_login_response r)
  dispatch headers (device_logout payload) = do
    r ← Device.device_logout headers payload
    pure (device_logout_response r)
  dispatch headers (upload_prekeys payload) = do
    r ← Device.upload_prekeys headers payload
    pure (upload_prekeys_response r)
  dispatch headers (fetch_prekey_bundle payload) = do
    r ← Messaging.fetch_prekey_bundle payload
    pure (fetch_prekey_bundle_response r)
  dispatch headers (send_message payload) = do
    r ← Messaging.send_message headers payload
    pure (send_message_response r)
  dispatch headers (fetch_pending payload) = do
    r ← Messaging.fetch_pending headers payload
    pure (fetch_pending_response r)
  dispatch headers (ack_message payload) = do
    r ← Messaging.ack_message headers payload
    pure (ack_message_response r)
  dispatch headers (message_status payload) = do
    r ← Messaging.message_status headers payload
    pure (message_status_response r)
  dispatch headers (send_call_signal payload) = do
    r ← CallSignaling.send_call_signal headers payload
    pure (send_call_signal_response r)
  dispatch headers (fetch_call_signals payload) = do
    r ← CallSignaling.fetch_call_signals headers payload
    pure (fetch_call_signals_response r)
  dispatch headers (upload_blob payload) = do
    r ← Blob.upload_blob headers payload
    pure (upload_blob_response r)
  dispatch headers (fetch_blob payload) = do
    r ← Blob.fetch_blob headers payload
    pure (fetch_blob_response r)
  dispatch headers (upload_blob_bytes payload) = do
    r ← Blob.upload_blob_bytes headers payload
    pure (upload_blob_response r)
  dispatch headers (fetch_blob_bytes payload) = do
    r ← Blob.fetch_blob_bytes headers payload
    pure (raw_bytes r)
  dispatch headers create_blob = do r ← Blob.create_blob headers; pure (create_blob_response r)
  dispatch headers (append_blob_chunk payload) = do
    r ← Blob.append_blob_chunk headers payload
    pure (append_blob_chunk_response r)

-- A response of the server: of the version gate, of a handler, or the JSON of an `ApiError`.
pub data Response : Type 0 where
  too_old : UpgradeRequired → Response
  success : Body → Response
  error : ApiError → Response

-- `IntoResponse`
unfoldable pub into_response : Outcome Body → Response × Server
into_response (done body s) = (success body, s)
into_response (failed e s) = (error e, s)

module _ ⦃lib : Library⦄ where
  unfoldable pub serve : Moment → Headers → Route → Server → Response × Server
  unfolding into_response
  serve t headers route s =
      elim (require_supported_client s.min_client_version (path_of route) headers.client_version) [
        | some answer ↦ (too_old answer, s)
        | none ↦ into_response (dispatch headers route t s)
      ]
