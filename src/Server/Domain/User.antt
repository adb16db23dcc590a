-- ===== src/Server/Domain/User.antt =====
-- crates/server/src/domain/user.rs: looking users and devices up.
use rsmsg.Base.{if◌then◌else◌, is_empty, false, Option, none, some, []}
use rsmsg.Base.Text.{trim}
use rsmsg.Server.State.{Uuid}
use rsmsg.Server.Monad.{bad_request, not_found, M, pure, ◌>>=◌, ok_or, query}
use rsmsg.Server.Library.{Library}
use rsmsg.Shared.User.{
  ResolveUserRequest, ResolveUserResponse, ResolveDeviceRequest, ResolveDeviceResponse,
  UserSearchRequest, UserSearchResponse, UserOnlineRequest, UserOnlineResponse,
}
use rsmsg.Server.Repository.Devices.{find_device_uuid, find_user_id_by_device_uuid}
use rsmsg.Server.Repository.Users
use rsmsg.Server.Realtime.{is_online}

module _ ⦃lib : Library⦄ where
  unfoldable pub resolve_user : ResolveUserRequest → M ResolveUserResponse
  resolve_user payload = do
    found ← query (find_device_uuid payload.user_id payload.device_id)
    device ← ok_or found not_found "user device not found"
    pure (record { device_uuid = lib.show_uuid device })

  unfoldable pub resolve_device : ResolveDeviceRequest → M ResolveDeviceResponse
  resolve_device payload = do
    device ← ok_or (lib.parse_uuid payload.device_uuid) bad_request "invalid device uuid"
    found ← query (find_user_id_by_device_uuid device)
    user_id ← ok_or found not_found "device not found"
    pure (record { user_id = user_id })

  unfoldable pub search_users : UserSearchRequest → M UserSearchResponse
  search_users payload =
      if is_empty (trim payload.query)
      then pure (record { users = [] })
      else do users ← query (Users.search_users payload.query); pure (record { users = users })

unfoldable pub online_response : Option Uuid → M UserOnlineResponse
unfolding is_online
online_response none = pure (record { online = false })
online_response (some device) = do online ← is_online device; pure (record { online = online })

unfoldable pub user_online : UserOnlineRequest → M UserOnlineResponse
unfolding online_response
user_online payload = do
  found ← query (find_device_uuid payload.user_id payload.device_id)
  online_response found
