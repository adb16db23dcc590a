-- ===== src/Server/Undone/Domain.antt =====
-- What the functions of crates/server/src/domain leave of the tables where they fail.

use rsmsg.Base.{ℕ}
use rsmsg.Base.Text.{Text}
use rsmsg.Server.State.{Uuid, Bytes}
use rsmsg.Server.Library.{Library}
use rsmsg.Server.Keeps.{keeps_rules}
use rsmsg.Server.Statements.{reads}
use rsmsg.Server.Undone.{Undone, Undone-reads, Undone-if, undone_rules}
use rsmsg.Shared.User.{UserRegisterRequest, BlockUserRequest, UnblockUserRequest}
use rsmsg.Shared.Device.{RegisterDeviceRequest, UploadPrekeysRequest, DeviceLoginRequest}
use rsmsg.Shared.Messaging.{
  FetchPrekeyBundleRequest, SendMessageRequest, FetchPendingRequest, AckMessageRequest,
}
use rsmsg.Shared.Blob.{UploadBlobRequest}
use rsmsg.Server.Services.Messages.{drain_pending_messages}
use rsmsg.Server.Preserved.Users.{
  hash_password-Keeps, current_user_id-Keeps, validate_block_target-Keeps,
}
use rsmsg.Server.Preserved.Devices.{new_v4-Keeps}
use rsmsg.Server.Preserved.Messages.{check_blocks-Keeps}
use rsmsg.Server.Domain.Registration.{register}
use rsmsg.Server.Domain.Blocking
use rsmsg.Server.Domain.Device
use rsmsg.Server.Domain.Messaging
use rsmsg.Server.Domain.BlobStore

module _ ⦃lib : Library⦄ where
  pub register-Undone : (payload : UserRegisterRequest) → Undone (register payload)
  unfolding register
  register-Undone payload = search (undone_rules, keeps_rules, hash_password-Keeps) depth 16

  pub block_user-Undone :
      (device : Uuid) (payload : BlockUserRequest) → Undone (Blocking.block_user device payload)
  unfolding Blocking.block_user
  block_user-Undone device payload =
      search (undone_rules, keeps_rules, current_user_id-Keeps, validate_block_target-Keeps) depth
        16

  pub unblock_user-Undone :
      (device : Uuid) (payload : UnblockUserRequest) → Undone (Blocking.unblock_user device payload)
  unfolding Blocking.unblock_user
  unblock_user-Undone device payload =
      search (undone_rules, keeps_rules, current_user_id-Keeps) depth 16

  pub register_device-Undone :
      (payload : RegisterDeviceRequest) → Undone (Device.register_device payload)
  unfolding Device.register_device
  register_device-Undone payload = search (undone_rules, keeps_rules) depth 16

  pub upload_prekeys-Undone :
      (device : Uuid) (payload : UploadPrekeysRequest)
      → Undone (Device.upload_prekeys device payload)
  unfolding Device.upload_prekeys
  upload_prekeys-Undone device payload = search (undone_rules, keeps_rules) depth 16

  pub device_login-Undone : (payload : DeviceLoginRequest) → Undone (Device.device_login payload)
  unfolding Device.device_login
  device_login-Undone payload = search (undone_rules, keeps_rules, reads, new_v4-Keeps) depth 16

  pub device_logout-Undone :
      (device : Uuid) (token device_uuid : Text)
      → Undone (Device.device_logout device token device_uuid)
  unfolding Device.device_logout
  device_logout-Undone device token device_uuid = search (undone_rules, keeps_rules) depth 16

  pub fetch_prekey_bundle-Undone :
      (payload : FetchPrekeyBundleRequest) → Undone (Messaging.fetch_prekey_bundle payload)
  unfolding Messaging.fetch_prekey_bundle
  fetch_prekey_bundle-Undone payload = search (undone_rules, keeps_rules) depth 16

  pub send_message-Undone :
      (device : Uuid) (payload : SendMessageRequest)
      → Undone (Messaging.send_message device payload)
  unfolding Messaging.send_message
  send_message-Undone device payload =
      search (undone_rules, keeps_rules, reads, check_blocks-Keeps) depth 16

  pub drain_pending_messages-Undone :
      (to : Uuid) (limit : ℕ) → Undone (drain_pending_messages to limit)
  unfolding drain_pending_messages
  drain_pending_messages-Undone to limit = search (undone_rules, keeps_rules) depth 16

  pub fetch_pending-Undone :
      (device : Uuid) (payload : FetchPendingRequest)
      → Undone (Messaging.fetch_pending device payload)
  unfolding Messaging.fetch_pending
  fetch_pending-Undone device payload =
      search (undone_rules, keeps_rules, drain_pending_messages-Undone) depth 16

  pub upload_blob-Undone :
      (owner : Uuid) (payload : UploadBlobRequest) → Undone (BlobStore.upload_blob owner payload)
  unfolding BlobStore.upload_blob
  upload_blob-Undone owner payload = search (undone_rules, keeps_rules) depth 16

  pub upload_blob_bytes-Undone :
      (owner : Uuid) (bytes : Bytes) → Undone (BlobStore.upload_blob_bytes owner bytes)
  unfolding BlobStore.upload_blob_bytes
  upload_blob_bytes-Undone owner bytes = search (undone_rules, keeps_rules) depth 16

  pub create_blob-Undone : (owner : Uuid) → Undone (BlobStore.create_blob owner)
  unfolding BlobStore.create_blob
  create_blob-Undone owner = search (undone_rules, keeps_rules) depth 16

  pub ack_message-Undone :
      (device : Uuid) (payload : AckMessageRequest) → Undone (Messaging.ack_message device payload)
  unfolding Messaging.ack_message
  ack_message-Undone device payload =
      search (undone_rules, Undone-if, Undone-reads, keeps_rules) depth 16
