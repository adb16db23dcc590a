-- ===== src/Server/Preserved/Users.antt =====
-- Invariants of the handlers of domain/user.rs, of auth.rs and of the two calls of domain/realtime.rs.
use rsmsg.Base.{Bool-cases, inl, inr, Bool, true, false, Option, none, some, arith}
use rsmsg.Base.Text.{Text}
use rsmsg.Server.State.{Uuid, Database}
use rsmsg.Server.Monad.{Moment, Outcome, done, failed, after}
use rsmsg.Server.Library.{Library}
use rsmsg.Server.Keeps.{Keeps, On, keeps_rules}
use rsmsg.Server.Statements.{reads, Statements}
use rsmsg.Shared.User.{
  UserRegisterRequest, UserLoginRequest, UserLoginResponse, ResolveUserRequest,
  ResolveDeviceRequest, UserSearchRequest, BlockUserRequest, UnblockUserRequest, UserOnlineRequest,
}
use rsmsg.Server.Auth.{Headers, admit, authorize_device}
use rsmsg.Server.Realtime.{mark_online, is_online}
use rsmsg.Server.Domain.Registration.{
  ParsedInviteCode, hash_password, check_invite, redeem, register, login,
}
use rsmsg.Server.Domain.User.{
  resolve_user, resolve_device, search_users, online_response, user_online,
}
use rsmsg.Server.Domain.Blocking.{
  current_user_id, validate_block_target, block_user, unblock_user, blocked_users,
}
use rsmsg.Server.Repository.RegistrationInvites.{RegistrationInvite}
use rsmsg.Server.Handlers.User.{settle_login, user_login}
use rsmsg.Server.LoginRateLimit.{allow}

module _ {P : Database → Type 0} where
  pub mark_online-Keeps : (device : Uuid) → Keeps (On P) (mark_online device)
  unfolding mark_online
  mark_online-Keeps device = record { at = λ t s h. record { get = h.get } }

  pub is_online-Keeps : (device : Uuid) → Keeps (On P) (is_online device)
  unfolding is_online
  is_online-Keeps device = record { at = λ t s h. h }

module _ ⦃lib : Library⦄ {P : Database → Type 0} where
  admit-Keeps : (active : Bool) (device : Uuid) → Keeps (On P) (admit active device)
  unfolding admit
  admit-Keeps true device = search (keeps_rules, mark_online-Keeps)
  admit-Keeps false device = search keeps_rules

  pub authorize_device-Keeps : (headers : Headers) → Keeps (On P) (authorize_device headers)
  unfolding authorize_device
  authorize_device-Keeps headers = search (keeps_rules, reads, admit-Keeps) depth 12

module _ ⦃lib : Library⦄ {P : Database → Type 0} where
  pub hash_password-Keeps : (password : Text) → Keeps (On P) (hash_password password)
  unfolding hash_password
  hash_password-Keeps password = record { at = λ t s h. ground arith }

module _ ⦃lib : Library⦄ {P : Database → Type 0} (S : Statements P) where
  check_invite-Keeps :
      (secret : Text) (stored : RegistrationInvite) → Keeps (On P) (check_invite secret stored)
  unfolding check_invite
  check_invite-Keeps secret stored = search keeps_rules depth 12

  redeem-Keeps :
      (payload : UserRegisterRequest) (invite : ParsedInviteCode) (hash : Text)
      → Keeps (On P) (redeem payload invite hash)
  unfolding redeem
  redeem-Keeps payload invite hash =
      search (keeps_rules, reads, check_invite-Keeps, S.create_user_tx_keeps, S.mark_used_keeps)
        depth 16

  pub register-Keeps : (payload : UserRegisterRequest) → Keeps (On P) (register payload)
  unfolding register
  register-Keeps payload = search (keeps_rules, hash_password-Keeps, redeem-Keeps) depth 12

module _ ⦃lib : Library⦄ {P : Database → Type 0} where
  pub login-Keeps : (payload : UserLoginRequest) → Keeps (On P) (login payload)
  unfolding login
  login-Keeps payload = search (keeps_rules, reads) depth 12

  settle_login-On :
      (user_id : Text) (t : Moment) (o : Outcome UserLoginResponse)
      → On P (after o)
      → On P (after (settle_login user_id t o))
  unfolding settle_login
  settle_login-On user_id t (done r s) h = record { get = h.get }
  settle_login-On user_id t (failed e s) h = record { get = h.get }

  pub user_login-Keeps : (payload : UserLoginRequest) → Keeps (On P) (user_login payload)
  unfolding user_login
  user_login-Keeps payload = record {
    at = λ t s h.
        let (limiter, allowed) = allow t.now payload.user_id s.login_rate_limiter in
        let s' = record s { login_rate_limiter = limiter } in
        elim (Bool-cases allowed) [
          | inl pass ↦
              rw (pass, user_login)
                (settle_login-On payload.user_id t (login payload t s')
                  ((login-Keeps payload).at t s' (record { get = h.get })))
          | inr stop ↦ rw (stop, user_login) (record { get = h.get })
        ];
  }

  pub resolve_user-Keeps : (payload : ResolveUserRequest) → Keeps (On P) (resolve_user payload)
  unfolding resolve_user
  resolve_user-Keeps payload = search (keeps_rules, reads) depth 12

  pub resolve_device-Keeps :
      (payload : ResolveDeviceRequest) → Keeps (On P) (resolve_device payload)
  unfolding resolve_device
  resolve_device-Keeps payload = search (keeps_rules, reads) depth 12

  pub search_users-Keeps : (payload : UserSearchRequest) → Keeps (On P) (search_users payload)
  unfolding search_users
  search_users-Keeps payload = search (keeps_rules, reads) depth 12

module _ {P : Database → Type 0} where
  online_response-Keeps : (found : Option Uuid) → Keeps (On P) (online_response found)
  unfolding online_response
  online_response-Keeps none = search keeps_rules
  online_response-Keeps (some device) = search (keeps_rules, is_online-Keeps)

  pub user_online-Keeps : (payload : UserOnlineRequest) → Keeps (On P) (user_online payload)
  unfolding user_online
  user_online-Keeps payload = search (keeps_rules, reads, online_response-Keeps) depth 12

  pub current_user_id-Keeps : (device : Uuid) → Keeps (On P) (current_user_id device)
  unfolding current_user_id
  current_user_id-Keeps device = search (keeps_rules, reads) depth 12

  pub validate_block_target-Keeps :
      (blocker blocked : Text) → Keeps (On P) (validate_block_target blocker blocked)
  unfolding validate_block_target
  validate_block_target-Keeps blocker blocked = search (keeps_rules, reads) depth 12

module _ {P : Database → Type 0} (S : Statements P) where
  pub block_user-Keeps :
      (device : Uuid) (payload : BlockUserRequest) → Keeps (On P) (block_user device payload)
  unfolding block_user
  block_user-Keeps device payload =
      search (keeps_rules, current_user_id-Keeps, validate_block_target-Keeps, S.block_user_keeps)
        depth 12

  pub unblock_user-Keeps :
      (device : Uuid) (payload : UnblockUserRequest) → Keeps (On P) (unblock_user device payload)
  unfolding unblock_user
  unblock_user-Keeps device payload =
      search (keeps_rules, current_user_id-Keeps, S.unblock_user_keeps) depth 12

module _ ⦃lib : Library⦄ {P : Database → Type 0} where
  pub blocked_users-Keeps : (device : Uuid) → Keeps (On P) (blocked_users device)
  unfolding blocked_users
  blocked_users-Keeps device = search (keeps_rules, reads, current_user_id-Keeps) depth 12
