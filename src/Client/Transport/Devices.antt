-- ===== src/Client/Transport/Devices.antt =====
-- crates/client-core/src/transport.rs: the methods about devices and prekeys.
use rsmsg.Base.{[], ◌++◌, text_eq}
use rsmsg.Base.Text.{Text, codes}
use rsmsg.Server.Handlers.Router.{Route}
use rsmsg.Shared.Device.{
  RegisterDeviceRequest, RegisterDeviceResponse, UploadPrekeysRequest, UploadPrekeysResponse,
  DeviceLoginRequest, DeviceLoginResponse, DeviceLogoutResponse,
}
use rsmsg.Shared.Messaging.{FetchPrekeyBundleResponse}
use rsmsg.Client.Types.{ClientConfig, DeviceAuth}
use rsmsg.Client.Library.{ClientLibrary}
use rsmsg.Client.Network.{Network}
use rsmsg.Client.Act.{Act, in_context, ◌>>=◌, ◌>>◌}
use rsmsg.Client.Transport.{Wire, json, check_api, check_named, post, post_as}

module _ ⦃lib : ClientLibrary⦄ ⦃net : Network⦄ (cfg : ClientConfig) where
  unfoldable pub register_device :
      RegisterDeviceRequest → Act (Wire net.World) RegisterDeviceResponse
  unfolding post check_api json ◌>>=◌
  register_device req = do
    r ← post cfg "/v1/register_device" [] (Route.register_device req)
    check_api r
    json net.register_device r

  unfoldable pub device_login : DeviceLoginRequest → Act (Wire net.World) DeviceLoginResponse
  unfolding post check_api json ◌>>=◌
  device_login req = do
    r ← post cfg "/v1/device_login" [] (Route.device_login req)
    check_api r
    json net.device_login r

  unfoldable pub device_logout : DeviceAuth → Act (Wire net.World) DeviceLogoutResponse
  unfolding post_as check_named json ◌>>=◌
  device_logout auth = do
    r ←
        post_as cfg auth "/v1/device_logout"
          (Route.device_logout (record { device_uuid = auth.device_uuid }))
    check_named "device_logout" r
    json net.device_logout r

  unfoldable pub upload_prekeys :
      DeviceAuth → UploadPrekeysRequest → Act (Wire net.World) UploadPrekeysResponse
  unfolding post_as check_named json ◌>>=◌
  upload_prekeys auth req = do
    r ← post_as cfg auth "/v1/upload_prekeys" (Route.upload_prekeys req)
    check_named "upload_prekeys" r
    json net.upload_prekeys r

  -- The texts of the errors name the request.
  unfoldable pub fetch_prekey_bundle : Text → Text → Act (Wire net.World) FetchPrekeyBundleResponse
  unfolding post check_api json in_context ◌>>=◌
  fetch_prekey_bundle user_id device_id = do
    let url = cfg.http_base ++ codes "/v1/fetch_prekey_bundle"
    r ← in_context (codes "request failed: POST " ++ url) (
        post cfg "/v1/fetch_prekey_bundle" []
          (Route.fetch_prekey_bundle (record { user_id = user_id; device_id = device_id })))
    check_api r
    in_context (codes "invalid response: POST " ++ url) (json net.fetch_prekey_bundle r)
