-- ===== src/Client/Transport/Users.antt =====
-- crates/client-core/src/transport.rs: the methods about users and blocks.
use rsmsg.Base.{[], ◌++◌, if◌then◌else◌, text_eq}
use rsmsg.Base.Text.{Text, codes}
use rsmsg.Server.Handlers.Router.{Route}
use rsmsg.Shared.User.{
  UserRegisterRequest, UserRegisterResponse, UserLoginRequest, UserLoginResponse,
  ResolveUserResponse, ResolveDeviceResponse, UserSearchResponse, BlockUserResponse,
  UnblockUserResponse, BlockedUsersResponse, UserOnlineResponse,
}
use rsmsg.Client.Types.{ClientConfig, DeviceAuth}
use rsmsg.Client.Library.{ClientLibrary}
use rsmsg.Client.Network.{HttpReply, Network}
use rsmsg.Client.Act.{Act, give, fail, ◌>>=◌, ◌>>◌}
use rsmsg.Client.Transport.{Wire, json, error_text, check_api, check_named, post, post_as}

module _ ⦃lib : ClientLibrary⦄ ⦃net : Network⦄ (cfg : ClientConfig) where
  -- The error of `user_register`, with its own text where the body names none.
  unfoldable pub check_register : HttpReply → Act (Wire net.World) (Unit {0})
  unfolding error_text give fail
  check_register r =
      if r.success
      then give tt
      else fail (error_text r (codes "user_register failed with " ++ r.status))

  unfoldable pub user_register : UserRegisterRequest → Act (Wire net.World) UserRegisterResponse
  unfolding post check_register json ◌>>=◌
  user_register req = do
    r ← post cfg "/v1/user_register" [] (Route.user_register req)
    check_register r
    json net.user_register r

  unfoldable pub user_login : UserLoginRequest → Act (Wire net.World) UserLoginResponse
  unfolding post check_api json ◌>>=◌
  user_login req = do
    r ← post cfg "/v1/user_login" [] (Route.user_login req)
    check_api r
    json net.user_login r

  unfoldable pub user_search : Text → Act (Wire net.World) UserSearchResponse
  unfolding post check_named json ◌>>=◌
  user_search query = do
    r ← post cfg "/v1/user_search" [] (Route.user_search (record { query = query }))
    check_named "user_search" r
    json net.user_search r

  unfoldable pub user_online : Text → Text → Act (Wire net.World) UserOnlineResponse
  unfolding post check_named json ◌>>=◌
  user_online user_id device_id = do
    r ←
        post cfg "/v1/user_online" []
          (Route.user_online (record { user_id = user_id; device_id = device_id }))
    check_named "user_online" r
    json net.user_online r

  unfoldable pub block_user : DeviceAuth → Text → Act (Wire net.World) BlockUserResponse
  unfolding post_as check_api json ◌>>=◌
  block_user auth user_id = do
    r ← post_as cfg auth "/v1/block_user" (Route.block_user (record { user_id = user_id }))
    check_api r
    json net.block_user r

  unfoldable pub unblock_user : DeviceAuth → Text → Act (Wire net.World) UnblockUserResponse
  unfolding post_as check_api json ◌>>=◌
  unblock_user auth user_id = do
    r ← post_as cfg auth "/v1/unblock_user" (Route.unblock_user (record { user_id = user_id }))
    check_api r
    json net.unblock_user r

  unfoldable pub blocked_users : DeviceAuth → Act (Wire net.World) BlockedUsersResponse
  unfolding post_as check_api json ◌>>=◌
  blocked_users auth = do
    r ← post_as cfg auth "/v1/blocked_users" Route.blocked_users
    check_api r
    json net.blocked_users r

  unfoldable pub resolve_user : Text → Text → Act (Wire net.World) ResolveUserResponse
  unfolding post check_named json ◌>>=◌
  resolve_user user_id device_id = do
    r ←
        post cfg "/v1/resolve_user" []
          (Route.resolve_user (record { user_id = user_id; device_id = device_id }))
    check_named "resolve_user" r
    json net.resolve_user r

  unfoldable pub resolve_device : Text → Act (Wire net.World) ResolveDeviceResponse
  unfolding post check_named json ◌>>=◌
  resolve_device device_uuid = do
    r ←
        post cfg "/v1/resolve_device" []
          (Route.resolve_device (record { device_uuid = device_uuid }))
    check_named "resolve_device" r
    json net.resolve_device r
