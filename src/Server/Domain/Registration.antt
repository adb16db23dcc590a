-- ===== src/Server/Domain/Registration.antt =====
-- crates/server/src/domain/user.rs: passwords, invite codes, registration and login.
use rsmsg.Base.{ltb, if◌then◌else◌, is_empty, Bool, true, false, not, ◌||◌, none, some}
use rsmsg.Base.Text.{Text, codes, utf8_len, trim, strip_prefix, split_once}
use rsmsg.Server.State.{Uuid}
use rsmsg.Server.Monad.{
  bad_request, unauthorized, conflict, internal_server_error, ApiResult, ok, err, api_error, done,
  failed, M, pure, ◌>>=◌, ◌>>◌, guard, ok_or, lift, query, transaction,
}
use rsmsg.Server.Library.{Library}
use rsmsg.Shared.User.{
  UserRegisterRequest, UserRegisterResponse, UserLoginRequest, UserLoginResponse,
}
use rsmsg.Server.Repository.Users.{create_user_tx, get_password_hash}
use rsmsg.Server.Repository.RegistrationInvites.{RegistrationInvite, find_invite, mark_used}

abbrev pub invite_code_prefix : Text
invite_code_prefix = codes "RSMSG:"

pub record ParsedInviteCode : Type 0 where
  pub id : Uuid
  pub secret : Text

abbrev pub invalid_invite : {A : Type 0} → ApiResult A
invalid_invite = err (api_error bad_request "invalid invite code")

module _ ⦃lib : Library⦄ where
  unfoldable pub hash_password : Text → M Text
  hash_password password t s = elim (lib.argon2_hash t.salt password) [
    | none ↦ failed (api_error internal_server_error "hashing failed") s
    | some hash ↦ done hash s
  ]

  unfoldable pub verify_password : Text → Text → Bool
  verify_password password hash = elim (lib.parse_hash hash) [
    | none ↦ false
    | some parsed ↦ lib.argon2_verify password parsed
  ]

  -- What follows the prefix: an id, a colon and a secret.
  unfoldable pub parse_invite_rest : Text → ApiResult ParsedInviteCode
  parse_invite_rest rest = elim (split_once b':' rest) [
    | none ↦ invalid_invite
    | some (id, secret) ↦
        if is_empty (trim secret) then invalid_invite else elim (lib.parse_uuid id) [
          | none ↦ invalid_invite
          | some u ↦ ok (record { id = u; secret = secret })
        ]
  ]

  unfoldable pub parse_invite_code : Text → ApiResult ParsedInviteCode
  unfolding parse_invite_rest
  parse_invite_code code = elim (strip_prefix invite_code_prefix (trim code)) [
    | none ↦ invalid_invite
    | some rest ↦ parse_invite_rest rest
  ]

  -- The three refusals of an invite that is stored.
  unfoldable pub check_invite : Text → RegistrationInvite → M (Unit {0})
  unfolding verify_password
  check_invite secret stored = do
    guard (not stored.used_at_exists) conflict "invite code already used"
    guard (not stored.expired) unauthorized "invalid invite code"
    guard (verify_password secret stored.secret_hash) unauthorized "invalid invite code"

  -- The part of `register` inside the transaction.
  unfoldable pub redeem : UserRegisterRequest → ParsedInviteCode → Text → M UserRegisterResponse
  unfolding check_invite
  redeem payload invite password_hash = do
    found ← query (find_invite invite.id)
    stored ← ok_or found unauthorized "invalid invite code"
    check_invite invite.secret stored
    created ← query (create_user_tx payload.user_id password_hash)
    user_db_id ← ok_or created conflict "nickname already exists"
    query (mark_used invite.id user_db_id)
    pure (record { created = true })

  unfoldable pub register : UserRegisterRequest → M UserRegisterResponse
  unfolding parse_invite_code hash_password redeem
  register payload = do
    guard (not (is_empty (trim payload.user_id) || ltb (utf8_len payload.password) 6)) bad_request
        "invalid credentials"
    invite ← lift (parse_invite_code payload.invite_code)
    password_hash ← hash_password payload.password
    transaction (redeem payload invite password_hash)

  unfoldable pub login : UserLoginRequest → M UserLoginResponse
  unfolding verify_password
  login payload = do
    stored ← query (get_password_hash payload.user_id)
    hash ← ok_or stored unauthorized "invalid credentials"
    guard (verify_password payload.password hash) unauthorized "invalid credentials"
    pure (record { ok = true })
