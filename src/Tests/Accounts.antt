-- ===== src/Tests/Accounts.antt =====
-- Registration, logins and logouts at concrete inputs.
use rsmsg.Base.{
  ltb, nat_eq, text_eq, is_empty, find?, any, count, update_where, ℕ, ◌≡◌, refl, true, false, some,
  List, [], ◌∷◌, ◌++◌, ℕ_discrete,
}
use rsmsg.Base.Text.{
  Text, codes, utf8_len, is_whitespace, trim_start, trim, strip_prefix, split_once,
}
use rsmsg.Server.State.{Invite, Server}
use rsmsg.Server.Monad.{
  unauthorized, api_error, ApiError, Moment, ok, done, ◌>>=◌, query, after, commit, transaction,
}
use rsmsg.Server.Auth.{hash_token, admit, authorize_device}
use rsmsg.Server.History.{run}
use rsmsg.Server.Domain.Registration.{
  invite_code_prefix, ParsedInviteCode, hash_password, verify_password, parse_invite_rest,
  parse_invite_code, check_invite, redeem, register,
}
use rsmsg.Server.Repository.Users.{add_user, has_user, create_user_tx}
use rsmsg.Server.Repository.RegistrationInvites.{find_invite, mark_used}
use rsmsg.Server.Redeeming.{IsRedeemable, redeemed, register_redeems, register_once}
use rsmsg.Server.Logout.{logout_final}
use rsmsg.Server.Invitations.{print_invite, parse-print_invite}
use rsmsg.Server.Handlers.User.{user_login}
use rsmsg.Server.Handlers.Device.{device_logout}
use rsmsg.Server.Domain.Device
use rsmsg.Server.Realtime.{mark_seen, mark_online}
use rsmsg.Server.Repository.AuthTokens.{is_token_active, revoke_token}
use rsmsg.Shared.User.{UserRegisterRequest, UserLoginRequest}
use rsmsg.Shared.Device.{DeviceLogoutRequest}
use rsmsg.Tests.World.{
  toy_library, toy_uuids, moment, server, from_phone, check_health, tables-WellFormed,
}

abbrev carol : UserRegisterRequest
carol = record {
  user_id = codes "carol";
  password = codes "pass-word";
  invite_code = invite_code_prefix ++ 1044 ∷ codes ":welcome";
}

abbrev invite : ParsedInviteCode
invite = record { id = 44; secret = codes "welcome" }

abbrev registered : Server
registered = after (register carol moment server)

carol_registers : register carol moment server ≡ done (record { created = true }) registered
unfolding register parse_invite_code parse_invite_rest hash_password redeem check_invite
    verify_password find_invite create_user_tx mark_used add_user transaction commit query ◌>>=◌
    toy_library nat_eq ℕ_discrete text_eq trim trim_start is_whitespace split_once strip_prefix
    utf8_len find? any update_where
carol_registers = refl

carol_code : parse_invite_code carol.invite_code ≡ ok invite
unfolding parse_invite_code parse_invite_rest toy_library nat_eq ℕ_discrete trim trim_start
    is_whitespace split_once strip_prefix
carol_code = refl

abbrev dave : UserRegisterRequest
dave = record {
  user_id = codes "dave";
  password = codes "pass-word";
  invite_code = invite_code_prefix ++ 1044 ∷ codes ":welcome";
}

register_redeems_example :
    (i : ParsedInviteCode) × (hash : Text) × (stored : Invite) × (is_empty (trim carol.user_id)
      ≡ false)
    × (ltb (utf8_len carol.password) 6 ≡ false)
    × (parse_invite_code carol.invite_code ≡ ok i)
    × (toy_library.argon2_hash moment.salt carol.password ≡ some hash)
    × IsRedeemable i moment server.db stored
    × (has_user carol.user_id server.db ≡ false)
    × (registered.db ≡ redeemed i carol.user_id hash moment server.db)
register_redeems_example =
    register_redeems carol moment server (record { created = true }) registered carol_registers

register_once_example : ¬ (
    register dave moment (run registered (check_health ∷ []))
    ≡ done (record { created = true }) registered)
register_once_example =
    register_once carol moment server (record { created = true }) registered invite
      (check_health ∷ []) dave moment (record { created = true }) registered invite carol_registers
      carol_code carol_code refl

parse-print_invite_example : parse_invite_code (print_invite 44 (codes "welcome")) ≡ ok invite
unfolding toy_library nat_eq ℕ_discrete trim trim_start is_whitespace
parse-print_invite_example = parse-print_invite toy_uuids 44 (codes "welcome") refl refl

abbrev logout : DeviceLogoutRequest
logout = record { device_uuid = 1011 ∷ [] }

abbrev logged_out : Server
logged_out = after (device_logout from_phone logout moment server)

phone_logs_out :
    device_logout from_phone logout moment server ≡ done (record { revoked = true }) logged_out
unfolding device_logout Device.device_logout authorize_device hash_token admit mark_online mark_seen
    is_token_active revoke_token query ◌>>=◌ toy_library nat_eq ℕ_discrete text_eq any update_where
    count
phone_logs_out = refl

logout_final_example :
    ¬ (authorize_device from_phone moment (run logged_out (check_health ∷ [])) ≡ done 11 logged_out)
logout_final_example =
    logout_final from_phone logout moment server (record { revoked = true }) logged_out
      (check_health ∷ []) from_phone moment 11 logged_out tables-WellFormed phone_logs_out refl

abbrev authorized : Server
authorized = after (authorize_device from_phone moment server)

phone_authorized : authorize_device from_phone moment server ≡ done 11 authorized
unfolding authorize_device hash_token admit mark_online mark_seen is_token_active query ◌>>=◌
    toy_library nat_eq ℕ_discrete text_eq any
phone_authorized = refl

abbrev mallory : UserLoginRequest
mallory = record { user_id = codes "mallory"; password = codes "guess" }

abbrev at : ℕ → Moment
at now = record moment { now = now }

abbrev guess : ℕ → Server → Server
guess now s = after (user_login mallory (at now) s)

abbrev refusal : ApiError
refusal = api_error unauthorized "invalid credentials"

abbrev attempts : List ℕ
attempts = 2_000 ∷ 3_000 ∷ 4_000 ∷ 5_000 ∷ 6_000 ∷ 7_000 ∷ []

abbrev one : Server
one = guess 1_000 server

abbrev two : Server
two = guess 2_000 one

abbrev three : Server
three = guess 3_000 two

abbrev four : Server
four = guess 4_000 three

abbrev five : Server
five = guess 5_000 four

abbrev six : Server
six = guess 6_000 five

abbrev seven : Server
seven = guess 7_000 six
