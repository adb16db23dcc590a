-- ===== src/Server/Handlers/Device.antt =====
-- crates/server/src/handlers/device.rs

use rsmsg.Server.Monad.{unauthorized, M, ◌>>=◌, ok_or}
use rsmsg.Server.Library.{Library}
use rsmsg.Server.Auth.{Headers, authorize_device}
use rsmsg.Shared.Device.{
  RegisterDeviceRequest, RegisterDeviceResponse, UploadPrekeysRequest, UploadPrekeysResponse,
  DeviceLoginRequest, DeviceLoginResponse, DeviceLogoutRequest, DeviceLogoutResponse,
}
use rsmsg.Server.Domain.Device

module _ ⦃lib : Library⦄ where
  unfoldable pub register_device : RegisterDeviceRequest → M RegisterDeviceResponse
  register_device payload = Device.register_device payload

  unfoldable pub upload_prekeys : Headers → UploadPrekeysRequest → M UploadPrekeysResponse
  upload_prekeys headers payload = do
    auth_device ← authorize_device headers
    Device.upload_prekeys auth_device payload

  unfoldable pub device_login : DeviceLoginRequest → M DeviceLoginResponse
  device_login payload = Device.device_login payload

  unfoldable pub device_logout : Headers → DeviceLogoutRequest → M DeviceLogoutResponse
  device_logout headers payload = do
    auth_device ← authorize_device headers
    token ← ok_or headers.device_token unauthorized "missing device token"
    Device.device_logout auth_device token payload.device_uuid
