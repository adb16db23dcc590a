-- ===== src/Server/Access.antt =====
-- Which requests need a token: handlers/ and auth.rs.
use rsmsg.Base.{Bool, true, false}
use rsmsg.Server.State.{Server}
use rsmsg.Server.Library.{Library}
use rsmsg.Server.Handlers.Router.{
  Route, health, user_register, user_login, user_search, user_online, resolve_user, resolve_device,
  register_device, device_login, fetch_prekey_bundle,
}
use rsmsg.Server.Handlers.User
use rsmsg.Server.Handlers.Device
use rsmsg.Server.Handlers.Messaging
use rsmsg.Server.Handlers.CallSignaling
use rsmsg.Server.Handlers.Blob
use rsmsg.Server.Handlers.Health

-- The routes whose handlers ask for no token.
abbrev pub is_open : Route → Bool
is_open health = true
is_open (user_register payload) = true
is_open (user_login payload) = true
is_open (user_search payload) = true
is_open (user_online payload) = true
is_open (resolve_user payload) = true
is_open (resolve_device payload) = true
is_open (register_device payload) = true
is_open (device_login payload) = true
is_open (fetch_prekey_bundle payload) = true
is_open _ = false
