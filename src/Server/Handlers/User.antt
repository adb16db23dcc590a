-- ===== src/Server/Handlers/User.antt =====
-- crates/server/src/handlers/user.rs
use rsmsg.Base.{if◌then◌else◌}
use rsmsg.Base.Text.{Text}
use rsmsg.Server.Monad.{too_many_requests, api_error, Moment, Outcome, done, failed, M, ◌>>=◌}
use rsmsg.Server.Library.{Library}
use rsmsg.Server.Auth.{Headers, authorize_device}
use rsmsg.Shared.User.{
  UserRegisterRequest, UserRegisterResponse, UserLoginRequest, UserLoginResponse,
  ResolveUserRequest, ResolveUserResponse, ResolveDeviceRequest, ResolveDeviceResponse,
  UserSearchRequest, UserSearchResponse, BlockUserRequest, BlockUserResponse, UnblockUserRequest,
  UnblockUserResponse, BlockedUsersResponse, UserOnlineRequest, UserOnlineResponse,
}
use rsmsg.Server.Domain.Registration
use rsmsg.Server.Domain.User
use rsmsg.Server.Domain.Blocking
use rsmsg.Server.LoginRateLimit.{allow, record_success, record_failure}

-- The two arms of `match user::login(..)`.
unfoldable pub settle_login : Text → Moment → Outcome UserLoginResponse → Outcome UserLoginResponse
settle_login user_id t (done response s) =
    done response (record s { login_rate_limiter = record_success user_id s.login_rate_limiter })
settle_login user_id t (failed e s) =
    failed e (record s { login_rate_limiter = record_failure t.now user_id s.login_rate_limiter })

module _ ⦃lib : Library⦄ where
  unfoldable pub user_register : UserRegisterRequest → M UserRegisterResponse
  user_register payload = Registration.register payload

  unfoldable pub user_login : UserLoginRequest → M UserLoginResponse
  unfolding settle_login
  user_login payload t s =
      let (limiter, allowed) = allow t.now payload.user_id s.login_rate_limiter in
      let s' = record s { login_rate_limiter = limiter } in
      if allowed
      then settle_login payload.user_id t (Registration.login payload t s')
      else failed (api_error too_many_requests "too many attempts") s'

  unfoldable pub resolve_user : ResolveUserRequest → M ResolveUserResponse
  resolve_user payload = User.resolve_user payload

  unfoldable pub resolve_device : ResolveDeviceRequest → M ResolveDeviceResponse
  resolve_device payload = User.resolve_device payload

  unfoldable pub user_search : UserSearchRequest → M UserSearchResponse
  user_search payload = User.search_users payload

  unfoldable pub user_online : UserOnlineRequest → M UserOnlineResponse
  user_online payload = User.user_online payload

  unfoldable pub block_user : Headers → BlockUserRequest → M BlockUserResponse
  block_user headers payload = do
    auth_device ← authorize_device headers
    Blocking.block_user auth_device payload

  unfoldable pub unblock_user : Headers → UnblockUserRequest → M UnblockUserResponse
  unblock_user headers payload = do
    auth_device ← authorize_device headers
    Blocking.unblock_user auth_device payload

  unfoldable pub blocked_users : Headers → M BlockedUsersResponse
  blocked_users headers = do
    auth_device ← authorize_device headers
    Blocking.blocked_users auth_device
