-- ===== src/Client/Core/Accounts.antt =====
-- crates/client-core/src/core.rs: accounts, devices, blocks and call signals.
use rsmsg.Base.{ℕ, Bool, Option, some, List}
use rsmsg.Base.Text.{Text}
use rsmsg.Crypto.Primitives.{Primitives}
use rsmsg.Shared.Device.{RegisterDeviceRequest, UploadPrekeysRequest}
use rsmsg.Shared.Call.{CallSignalItem}
use rsmsg.Client.Types.{DeviceAuth}
use rsmsg.Client.Library.{ClientLibrary}
use rsmsg.Client.Network.{Network}
use rsmsg.Client.Act.{Act, give, ◌>>=◌}
use rsmsg.Client.Core.{Setup, ClientCore, remote}
use rsmsg.Client.Transport.Users
use rsmsg.Client.Transport.Devices
use rsmsg.Client.Transport.Calls

module _ ⦃p : Primitives⦄ ⦃lib : ClientLibrary⦄ ⦃net : Network⦄ (setup : Setup) where
  unfoldable pub register_device : RegisterDeviceRequest → Act (ClientCore net.World) Text
  unfolding remote ◌>>=◌
  register_device req = do
    response ← remote (Devices.register_device setup.config req)
    give response.device_uuid

  unfoldable pub register_user : Text → Text → Text → Act (ClientCore net.World) Bool
  unfolding remote ◌>>=◌
  register_user user_id password invite_code = do
    response ← remote (
        Users.user_register setup.config
          (record { user_id = user_id; password = password; invite_code = invite_code }))
    give response.created

  unfoldable pub login_user : Text → Text → Act (ClientCore net.World) Bool
  unfolding remote ◌>>=◌
  login_user user_id password = do
    response ←
        remote (Users.user_login setup.config (record { user_id = user_id; password = password }))
    give response.ok

  unfoldable pub search_users : Text → Act (ClientCore net.World) (List Text)
  unfolding remote ◌>>=◌
  search_users query = do
    response ← remote (Users.user_search setup.config query)
    give response.users

  unfoldable pub is_user_online : Text → Text → Act (ClientCore net.World) Bool
  unfolding remote ◌>>=◌
  is_user_online user_id device_id = do
    response ← remote (Users.user_online setup.config user_id device_id)
    give response.online

  unfoldable pub block_user : DeviceAuth → Text → Act (ClientCore net.World) Bool
  unfolding remote ◌>>=◌
  block_user auth user_id = do
    response ← remote (Users.block_user setup.config auth user_id)
    give response.blocked

  unfoldable pub unblock_user : DeviceAuth → Text → Act (ClientCore net.World) Bool
  unfolding remote ◌>>=◌
  unblock_user auth user_id = do
    response ← remote (Users.unblock_user setup.config auth user_id)
    give response.unblocked

  unfoldable pub blocked_users : DeviceAuth → Act (ClientCore net.World) (List Text)
  unfolding remote ◌>>=◌
  blocked_users auth = do
    response ← remote (Users.blocked_users setup.config auth)
    give response.users

  unfoldable pub login_device : Text → Text → Act (ClientCore net.World) DeviceAuth
  unfolding remote ◌>>=◌
  login_device user_id device_id = do
    response ←
        remote
          (Devices.device_login setup.config (record { user_id = user_id; device_id = device_id }))
    give (record { device_uuid = response.device_uuid; auth_token = response.auth_token })

  unfoldable pub logout_device : DeviceAuth → Act (ClientCore net.World) Bool
  unfolding remote ◌>>=◌
  logout_device auth = do
    response ← remote (Devices.device_logout setup.config auth)
    give response.revoked

  unfoldable pub upload_prekeys : DeviceAuth → UploadPrekeysRequest → Act (ClientCore net.World) ℕ
  unfolding remote ◌>>=◌
  upload_prekeys auth req = do
    response ← remote (Devices.upload_prekeys setup.config auth req)
    give response.inserted

  unfoldable pub resolve_user_device : Text → Text → Act (ClientCore net.World) Text
  unfolding remote ◌>>=◌
  resolve_user_device user_id device_id = do
    response ← remote (Users.resolve_user setup.config user_id device_id)
    give response.device_uuid

  unfoldable pub resolve_device_user : Text → Act (ClientCore net.World) Text
  unfolding remote ◌>>=◌
  resolve_device_user device_uuid = do
    response ← remote (Users.resolve_device setup.config device_uuid)
    give response.user_id

  unfoldable pub send_call_signal :
      DeviceAuth → Text → Text → Text → Text → Act (ClientCore net.World) Bool
  unfolding remote ◌>>=◌
  send_call_signal auth call_id to_device_uuid kind payload = do
    response ← remote (
        Calls.send_call_signal setup.config auth (record {
          call_id = call_id;
          from_device_uuid = auth.device_uuid;
          to_device_uuid = to_device_uuid;
          kind = kind;
          payload = payload;
        }))
    give response.accepted

  unfoldable pub fetch_call_signals :
      DeviceAuth → Option Text → Act (ClientCore net.World) (List CallSignalItem)
  unfolding remote ◌>>=◌
  fetch_call_signals auth call_id = do
    response ← remote (Calls.fetch_call_signals setup.config auth call_id (some 100))
    give response.signals
