-- ===== src/Client/Network.antt =====
-- The network as crates/client-core meets it through reqwest and tungstenite: requests and what comes
-- back of them. A request has its body as the routes of the server take it.
use rsmsg.Base.{ℕ, Bool, Option, List}
use rsmsg.Base.Text.{Text}
use rsmsg.Crypto.Primitives.{Bytes}
use rsmsg.Crypto.Engine.{Result}
use rsmsg.Server.Handlers.Router.{Route}
use rsmsg.Shared.User.{
  UserRegisterResponse, UserLoginResponse, ResolveUserResponse, ResolveDeviceResponse,
  UserSearchResponse, BlockUserResponse, UnblockUserResponse, BlockedUsersResponse,
  UserOnlineResponse,
}
use rsmsg.Shared.Device.{
  RegisterDeviceResponse, UploadPrekeysResponse, DeviceLoginResponse, DeviceLogoutResponse,
}
use rsmsg.Shared.Messaging.{
  FetchPrekeyBundleResponse, SendMessageResponse, FetchPendingResponse, MessageStatusResponse,
  PendingMessageItem,
}
use rsmsg.Shared.Call.{SendCallSignalResponse, FetchCallSignalsResponse}
use rsmsg.Shared.Blob.{CreateBlobResponse, AppendBlobChunkResponse}

abbrev pub Headers : Type 0
Headers = List (Text × Text)

pub record Request : Type 0 where
  pub url : Text
  pub headers : Headers
  pub body : Route

-- A response: whether its status is a success, the text of the status, and the chunks of its body,
-- which may break off with an error.
pub record HttpReply : Type 0 where
  pub success : Bool
  pub status : Text
  pub content_length : Option ℕ
  pub chunks : List Bytes
  pub broken : Option Text

pub data Reply : Type 0 where
  unreachable : Text → Reply
  replied : HttpReply → Reply

-- What a WebSocket yields: a text, a ping with the error of sending its pong, if any, a close frame,
-- another frame, or an error.
pub data SocketMessage : Type 0 where
  text : Text → SocketMessage
  ping : Option Text → SocketMessage
  close other : SocketMessage
  broken : Text → SocketMessage

-- The rest of the world, what it answers, and serde_json for each response.
pub record Network : Type 1 where
  pub World : Type 0
  pub exchange : Request → World → Reply × World
  -- the error of `into_client_request`, if the address is none
  pub bad_address : Text → Option Text
  pub connect : Text → Headers → World → Result (List SocketMessage) × World
  pub register_device : Bytes → Option RegisterDeviceResponse
  pub user_register : Bytes → Option UserRegisterResponse
  pub user_login : Bytes → Option UserLoginResponse
  pub user_search : Bytes → Option UserSearchResponse
  pub user_online : Bytes → Option UserOnlineResponse
  pub device_login : Bytes → Option DeviceLoginResponse
  pub device_logout : Bytes → Option DeviceLogoutResponse
  pub upload_prekeys : Bytes → Option UploadPrekeysResponse
  pub send_message : Bytes → Option SendMessageResponse
  pub block_user : Bytes → Option BlockUserResponse
  pub unblock_user : Bytes → Option UnblockUserResponse
  pub blocked_users : Bytes → Option BlockedUsersResponse
  pub fetch_prekey_bundle : Bytes → Option FetchPrekeyBundleResponse
  pub resolve_user : Bytes → Option ResolveUserResponse
  pub resolve_device : Bytes → Option ResolveDeviceResponse
  pub fetch_pending : Bytes → Option FetchPendingResponse
  pub message_status : Bytes → Option MessageStatusResponse
  pub send_call_signal : Bytes → Option SendCallSignalResponse
  pub fetch_call_signals : Bytes → Option FetchCallSignalsResponse
  pub create_blob : Bytes → Option CreateBlobResponse
  pub append_blob_chunk : Bytes → Option AppendBlobChunkResponse
  pub pending_item : Bytes → Option PendingMessageItem
