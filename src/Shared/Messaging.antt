-- ===== src/Shared/Messaging.antt =====
-- crates/shared/src/lib.rs: the requests and responses about prekey bundles and messages.
use rsmsg.Base.{ℕ, Bool, Option, List}
use rsmsg.Base.Text.{Text}
use rsmsg.Base.Int.{ℤ}
use rsmsg.Shared.Device.{PrekeyUploadItem}

pub record FetchPrekeyBundleRequest : Type 0 where
  pub user_id : Text
  pub device_id : Text

pub record FetchPrekeyBundleResponse : Type 0 where
  pub device_uuid : Text
  pub identity_key_b64 : Text
  pub signing_identity_key_b64 : Text
  pub signed_prekey_b64 : Text
  pub signed_prekey_signature_b64 : Text
  pub one_time_prekey : Option PrekeyUploadItem

pub record SendMessageRequest : Type 0 where
  pub message_id : Text
  pub from_device_uuid : Text
  pub to_device_uuid : Text
  pub envelope_b64 : Text

pub record SendMessageResponse : Type 0 where
  pub accepted : Bool

pub record FetchPendingRequest : Type 0 where
  pub device_uuid : Text
  pub limit : Option ℤ

pub record PendingMessageItem : Type 0 where
  pub message_id : Text
  pub from_device_uuid : Text
  pub envelope_b64 : Text
  pub created_at_unix_ms : ℤ

pub record FetchPendingResponse : Type 0 where
  pub messages : List PendingMessageItem

pub record AckMessageRequest : Type 0 where
  pub device_uuid : Text
  pub message_ids : List Text

pub record AckMessageResponse : Type 0 where
  pub acked : ℕ

pub record MessageStatusRequest : Type 0 where
  pub message_ids : List Text

pub record MessageStatusItem : Type 0 where
  pub message_id : Text
  pub delivered : Bool
  pub read : Bool

pub record MessageStatusResponse : Type 0 where
  pub messages : List MessageStatusItem
