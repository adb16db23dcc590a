-- ===== src/Tests/Logins.antt =====
-- Tokens, logins and refusals at concrete inputs.
use rsmsg.Base.{
  nat_eq, text_eq, find?, any, update_where, ◌≡◌, refl, true, none, some, [], ◌∷◌, ◌++◌, arith,
  ℕ_discrete,
}
use rsmsg.Base.Text.{codes, utf8_len, is_whitespace, trim_start, trim, strip_prefix, split_once}
use rsmsg.Base.Int.{int_eq}
use rsmsg.Server.State.{Uuid, Server}
use rsmsg.Server.Monad.{done, ◌>>=◌, query, after, commit, transaction, new_v4}
use rsmsg.Server.Auth.{Headers, hash_token, authorize_device}
use rsmsg.Server.Domain.Registration.{
  invite_code_prefix, hash_password, verify_password, parse_invite_rest, parse_invite_code,
  check_invite, redeem, register, login,
}
use rsmsg.Server.Repository.Users.{add_user, create_user_tx, get_password_hash}
use rsmsg.Server.Repository.RegistrationInvites.{find_invite, mark_used}
use rsmsg.Server.Repository.AuthTokens.{create_token}
use rsmsg.Server.Repository.Devices.{find_device_uuid}
use rsmsg.Server.Tokens.{login_authorizes}
use rsmsg.Server.Login.{Argon2Laws, register-login}
use rsmsg.Server.LoginRateLimit.{
  get_entry, set_entry, remove_entry, restart_window, allow_entry, allow, record_success,
}
use rsmsg.Server.Handlers.User.{settle_login, user_login}
use rsmsg.Server.Domain.Device
use rsmsg.Shared.User.{UserRegisterRequest, UserLoginRequest}
use rsmsg.Shared.Device.{DeviceLoginRequest, DeviceLoginResponse}
use rsmsg.Tests.World.{toy_library, toy_uuids, moment, alice, server}

abbrev phone_login : DeviceLoginRequest
phone_login = record { user_id = alice; device_id = codes "phone" }

abbrev phone_token : DeviceLoginResponse
phone_token = record { device_uuid = 1011 ∷ []; auth_token = 1501 ∷ 1502 ∷ [] }

abbrev logged_in : Server
logged_in = after (Device.device_login phone_login moment server)

phone_logs_in : Device.device_login phone_login moment server ≡ done phone_token logged_in
unfolding Device.device_login find_device_uuid create_token hash_token new_v4 query ◌>>=◌
    toy_library nat_eq ℕ_discrete text_eq find? any
phone_logs_in = refl

abbrev with_token : Headers
with_token = record {
  device_uuid = some (1011 ∷ []);
  device_token = some (1501 ∷ 1502 ∷ []);
  client_version = none;
}

login_authorizes_example :
    (device : Uuid) × (s'' : Server) × (phone_token.device_uuid ≡ toy_library.show_uuid device)
    × (authorize_device with_token moment logged_in ≡ done device s'')
login_authorizes_example =
    login_authorizes phone_login moment server phone_token logged_in with_token moment toy_uuids
      phone_logs_in refl refl (omega arith) refl

toy_argon2 : Argon2Laws toy_library
unfolding toy_library nat_eq ℕ_discrete text_eq
toy_argon2 = record { verify-hash = λ salt password hash e. (hash, refl, ground (arith, e)) }

abbrev erin : UserRegisterRequest
erin = record {
  user_id = codes "erin";
  password = codes "pass-word";
  invite_code = invite_code_prefix ++ 1044 ∷ codes ":welcome";
}

abbrev erin_registered : Server
erin_registered = after (register erin moment server)

erin_registers : register erin moment server ≡ done (record { created = true }) erin_registered
unfolding register parse_invite_code parse_invite_rest hash_password redeem check_invite
    verify_password find_invite create_user_tx mark_used add_user transaction commit query ◌>>=◌
    toy_library nat_eq ℕ_discrete text_eq trim trim_start is_whitespace split_once strip_prefix
    utf8_len find? any update_where
erin_registers = refl

erin_passes : (allow moment.now (codes "erin") erin_registered.login_rate_limiter).1 ≡ true
unfolding erin_registers allow allow_entry restart_window get_entry
erin_passes = refl

register-login_example :
    (s'' : Server) × (user_login
        (record { user_id = codes "erin"; password = codes "pass-word" })
        moment
        erin_registered
      ≡ done (record { ok = true }) s'')
    × (s''.db ≡ erin_registered.db)
register-login_example =
    register-login erin moment server (record { created = true }) erin_registered moment toy_argon2
      erin_registers refl erin_passes

abbrev alice_secret : UserLoginRequest
alice_secret = record { user_id = alice; password = codes "hidden" }

abbrev alice_in : Server
alice_in = after (user_login alice_secret moment server)

alice_logs_in : user_login alice_secret moment server ≡ done (record { ok = true }) alice_in
unfolding user_login login get_password_hash verify_password settle_login record_success allow
    allow_entry restart_window get_entry set_entry remove_entry query ◌>>=◌ toy_library nat_eq
    ℕ_discrete text_eq find?
alice_logs_in = refl
