-- ===== src/Server/Handlers/Messaging.antt =====
-- crates/server/src/handlers/messaging.rs

use rsmsg.Server.Monad.{M, ◌>>=◌}
use rsmsg.Server.Library.{Library}
use rsmsg.Server.Auth.{Headers, authorize_device}
use rsmsg.Shared.Messaging.{
  FetchPrekeyBundleRequest, FetchPrekeyBundleResponse, SendMessageRequest, SendMessageResponse,
  FetchPendingRequest, FetchPendingResponse, AckMessageRequest, AckMessageResponse,
  MessageStatusRequest, MessageStatusResponse,
}
use rsmsg.Server.Domain.Messaging

module _ ⦃lib : Library⦄ where
  unfoldable pub fetch_prekey_bundle : FetchPrekeyBundleRequest → M FetchPrekeyBundleResponse
  fetch_prekey_bundle payload = Messaging.fetch_prekey_bundle payload

  unfoldable pub send_message : Headers → SendMessageRequest → M SendMessageResponse
  send_message headers payload = do
    auth_device ← authorize_device headers
    Messaging.send_message auth_device payload

  unfoldable pub fetch_pending : Headers → FetchPendingRequest → M FetchPendingResponse
  fetch_pending headers payload = do
    auth_device ← authorize_device headers
    Messaging.fetch_pending auth_device payload

  unfoldable pub ack_message : Headers → AckMessageRequest → M AckMessageResponse
  ack_message headers payload = do
    auth_device ← authorize_device headers
    Messaging.ack_message auth_device payload

  unfoldable pub message_status : Headers → MessageStatusRequest → M MessageStatusResponse
  message_status headers payload = do
    auth_device ← authorize_device headers
    Messaging.message_status auth_device payload
