-- ===== src/Shared/Device.antt =====
-- crates/shared/src/lib.rs: the requests and responses about devices and prekeys.
use rsmsg.Base.{ℕ, Bool, List}
use rsmsg.Base.Text.{Text}
use rsmsg.Base.Int.{ℤ}

pub record RegisterDeviceRequest : Type 0 where
  pub user_id : Text
  pub device_id : Text
  pub identity_key_b64 : Text
  pub signing_identity_key_b64 : Text
  pub signed_prekey_b64 : Text
  pub signed_prekey_signature_b64 : Text

pub record RegisterDeviceResponse : Type 0 where
  pub device_uuid : Text

pub record PrekeyUploadItem : Type 0 where
  pub key_id : ℤ
  pub pubkey_b64 : Text

pub record UploadPrekeysRequest : Type 0 where
  pub device_uuid : Text
  pub prekeys : List PrekeyUploadItem

pub record UploadPrekeysResponse : Type 0 where
  pub inserted : ℕ

pub record DeviceLoginRequest : Type 0 where
  pub user_id : Text
  pub device_id : Text

pub record DeviceLoginResponse : Type 0 where
  pub device_uuid : Text
  pub auth_token : Text

pub record DeviceLogoutRequest : Type 0 where
  pub device_uuid : Text

pub record DeviceLogoutResponse : Type 0 where
  pub revoked : Bool
