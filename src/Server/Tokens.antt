-- ===== src/Server/Tokens.antt =====
-- Tokens right after their login: auth.rs and domain/device.rs.
use rsmsg.Base.{any, ◌+◌, ◌<◌, ◌≡◌, sym, ap, subst, ◌∙◌, true, false, some, ◌++◌, arith}
use rsmsg.Base.Text.{Text}
use rsmsg.Server.State.{Uuid, Server}
use rsmsg.Server.Monad.{Moment, done, pure, ◌>>=◌, query, after, new_v4}
use rsmsg.Server.Monad.Done.{ok_or_then, query_then, bind_then}
use rsmsg.Server.Library.{Library, UuidLaws}
use rsmsg.Server.Auth.{Headers, hash_token, admit, authorize_device}
use rsmsg.Server.Domain.Device.{device_login}
use rsmsg.Server.Realtime.{mark_online}
use rsmsg.Server.Repository.AuthTokens.{is_active, is_token_active, token_lifetime, create_token}
use rsmsg.Shared.Device.{DeviceLoginRequest, DeviceLoginResponse}

module _ ⦃lib : Library⦄ where
  authorized :
      (headers : Headers) (text : Text) (device : Uuid) (token : Text) (t : Moment) (s : Server)
      → headers.device_uuid ≡ some text
      → lib.parse_uuid text ≡ some device
      → headers.device_token ≡ some token
      → any (is_active t.now device (hash_token token)) s.db.tokens ≡ true
      → t.outage s.calls ≡ false
      → authorize_device headers t s ≡ done device (after (authorize_device headers t s))
  unfolding authorize_device is_token_active admit mark_online query ◌>>=◌
  authorized headers text device token t s a b c active up = ground (arith, a, b, c, active, up)

  -- The token of a login serves: with the device and the token that a login is answered by, a request
  -- that comes right after it, within thirty days, is authorized, where its call of the database does not
  -- fail.
  pub login_authorizes :
      (payload : DeviceLoginRequest) (t : Moment) (s : Server) (r : DeviceLoginResponse)
      (s' : Server) (headers : Headers) (t' : Moment)
      → UuidLaws lib
      → device_login payload t s ≡ done r s'
      → headers.device_uuid ≡ some r.device_uuid
      → headers.device_token ≡ some r.auth_token
      → t'.now < t.now + token_lifetime
      → t'.outage s'.calls ≡ false
      → (device : Uuid) × (s'' : Server) × (r.device_uuid ≡ lib.show_uuid device)
        × (authorize_device headers t' s' ≡ done device s'')
  unfolding device_login new_v4 create_token pure any
  login_authorizes payload t s r s' headers t' laws h named_by carried soon up =
      query_then _ _ h λ found d q h1. ok_or_then _ _ _ _ h1 λ device e h2.
        bind_then _ _ h2 λ first s1 q1 h3. bind_then _ _ h3 λ second s2 q2 h4.
          query_then _ _ h4 λ _ d' q3 h5.
            let shown : r.device_uuid ≡ lib.show_uuid device = ground arith in
            let token : r.auth_token ≡ lib.simple_uuid first ++ lib.simple_uuid second =
              ground arith in
            let left : s'.db ≡ d' = ground arith in
            let hash = hash_token (lib.simple_uuid first ++ lib.simple_uuid second) in
            let active : any (is_active t'.now device hash) d'.tokens ≡ true =
              ground (arith, token) in
            (
              device,
              after (authorize_device headers t' s'),
              shown,
              authorized headers (lib.show_uuid device) device
                  (lib.simple_uuid first ++ lib.simple_uuid second) t' s' (named_by ∙ ap some shown)
                  (laws.parse-show device) (carried ∙ ap some token)
                  (subst (λ d. any (is_active t'.now device hash) d.tokens ≡ true) (sym left)
                    active)
                  up,
            )
