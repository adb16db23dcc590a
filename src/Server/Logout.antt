-- ===== src/Server/Logout.antt =====
-- Logging out: auth.rs, domain/device.rs and repository/auth_tokens.rs.
use rsmsg.Base.{
  Option-cases, any, update_where, ℕ, ◌≡◌, refl, sym, subst, ◌∙◌, inl, inr, true, some, List, [],
  ◌∷◌, arith,
}
use rsmsg.Base.Text.{Text}
use rsmsg.Base.Settled.{Among-any, All-Among, Settled, Settled-marked}
use rsmsg.Base.Unique.{any-Among, Distinct-Implies}
use rsmsg.Server.State.{Uuid, Server}
use rsmsg.Server.Monad.{Moment, done, pure, guard, ok_or, ◌>>=◌, query}
use rsmsg.Server.Monad.Done.{bind_done, query_done}
use rsmsg.Server.Library.{Library}
use rsmsg.Server.Auth.{Headers, hash_token, admit, authorize_device}
use rsmsg.Server.History.{Call, run}
use rsmsg.Server.Realtime.{last_seen, mark_seen, mark_online, is_online_at}
use rsmsg.Server.WellFormed.{same_token, WellFormed}
use rsmsg.Server.Repository.AuthTokens.{
  is_active, is_token_active, is_revocable, revoke, revoke_token,
}
use rsmsg.Server.Domain.Device
use rsmsg.Server.Handlers.Device.{device_logout}
use rsmsg.Server.Lasting.Tokens.{is_hash, is_revoked, Revoked, run-Revoked}
use rsmsg.Shared.Device.{DeviceLogoutRequest, DeviceLogoutResponse}

seen_last :
    (device : Uuid) (now : ℕ) (m : List (Uuid × ℕ))
    → last_seen device (mark_seen device now m) ≡ some now
unfolding last_seen mark_seen
seen_last device now [] = ground arith
seen_last device now ((u, at) ∷ m) = ground (arith, seen_last device now m)

module _ ⦃lib : Library⦄ where
  -- A request is authorized by a token that is active for the device, which then is online. The tables
  -- do not change.
  pub authorize_done :
      (headers : Headers) (t : Moment) (s : Server) (device : Uuid) (s' : Server)
      → authorize_device headers t s ≡ done device s'
      → (text token : Text) × (headers.device_uuid ≡ some text)
        × (lib.parse_uuid text ≡ some device)
        × (headers.device_token ≡ some token)
        × (any (is_active t.now device (hash_token token)) s.db.tokens ≡ true)
        × (s'.db ≡ s.db)
        × (is_online_at t.now device s' ≡ true)
  unfolding authorize_device ◌>>=◌ query is_token_active admit mark_online is_online_at
  authorize_done headers t s device s' h = elim (Option-cases headers.device_uuid) [
    | inl a ↦ absurd (ground (arith, a))
    | inr (text, a) ↦ elim (Option-cases (lib.parse_uuid text)) [
      | inl b ↦ absurd (ground (arith, a, b))
      | inr (u, b) ↦ elim (Option-cases headers.device_token) [
        | inl c ↦ absurd (ground (arith, a, b, c))
        | inr (token, c) ↦ (
          text,
          token,
          a,
          ground (arith, a, b, c),
          c,
          ground (arith, a, b, c),
          ground (arith, a, b, c),
          ground (arith, a, b, c, seen_last device t.now s.device_last_seen),
        )
      ]
    ]
  ]

  authorized_active :
      (headers : Headers) (t : Moment) (s : Server) (device : Uuid) (s' : Server) (token : Text)
      → headers.device_token ≡ some token
      → Revoked (hash_token token) s.db
      → ¬ (authorize_device headers t s ≡ done device s')
  authorized_active headers t s device s' token carried revoked h =
      let (text, token', _, _, c, active, _, _) = authorize_done headers t s device s' h in
      let (k, m, a) = any-Among (is_active t.now device (hash_token token')) s.db.tokens active in
      let same : token' ≡ token = ground arith in
      let hashed : is_hash (hash_token token) k ≡ true = ground (arith, same) in
      let gone = All-Among _ s.db.tokens k revoked.1 m hashed in ground (arith, gone)

  -- The row of a token that is active is revoked by the logout.
  logout_revokes :
      (device : Uuid) (token device_uuid : Text) (t : Moment) (s : Server)
      (r : DeviceLogoutResponse) (s' : Server)
      → WellFormed s.db
      → any (is_active t.now device (hash_token token)) s.db.tokens ≡ true
      → Device.device_logout device token device_uuid t s ≡ done r s'
      → Revoked (hash_token token) s'.db
  unfolding Device.device_logout ok_or guard pure revoke_token
  logout_revokes device token device_uuid t s r s' w active h =
      let (parsed, s1, q1, rest1) = bind_done _ _ t s r s' h in
      let (_, s2, q2, rest2) = bind_done _ _ t s1 r s' rest1 in
      let (affected, s3, q3, rest3) = bind_done _ _ t s2 r s' rest2 in
      let (revoked, _) = query_done _ t s2 affected s3 q3 in
      let (k, m, a) = any-Among (is_active t.now device (hash_token token)) s.db.tokens active in
      let same : parsed ≡ device = ground arith in
      let key : is_hash (hash_token token) k ≡ true = ground arith in
      let now : s'.db.tokens
          ≡ update_where (is_revocable device (hash_token token)) (revoke t.now) s.db.tokens =
        ground arith in
      subst (Settled (is_hash (hash_token token)) (is_revoked (hash_token token))) (sym now) (
        Settled-marked (is_hash (hash_token token)) (is_revoked (hash_token token))
          (is_revocable device (hash_token token)) (revoke t.now) (λ x. refl) (λ x. refl)
          s.db.tokens (Among-any (is_hash (hash_token token)) s.db.tokens k m key)
          (Distinct-Implies same_token (is_hash (hash_token token)) _ (λ x y kx ky. ground arith)
            s.db.tokens k w.tokens m key (ground arith)))

  -- Logging out is final: after a logout that is answered by success, on well-formed tables, and any
  -- requests, no request that carries the token of the logout is authorized, whatever device it names.
  pub logout_final :
      (headers : Headers) (payload : DeviceLogoutRequest) (t : Moment) (s : Server)
      (r : DeviceLogoutResponse) (s' : Server) (cs : List Call) (later : Headers) (t' : Moment)
      (device : Uuid) (s'' : Server)
      → WellFormed s.db
      → device_logout headers payload t s ≡ done r s'
      → later.device_token ≡ headers.device_token
      → ¬ (authorize_device later t' (run s' cs) ≡ done device s'')
  unfolding device_logout ok_or
  logout_final headers payload t s r s' cs later t' device s'' w h same =
      let (device_ref, s1, q1, rest1) = bind_done _ _ t s r s' h in
      let (token, s2, q2, rest2) = bind_done _ _ t s1 r s' rest1 in
      let (text, token', _, _, c, active, tables, _) =
        authorize_done headers t s device_ref s1 q1 in
      let same_token_text : token ≡ token' = ground arith in
      let kept : s2.db ≡ s.db = ground arith in
      authorized_active later t' (run s' cs) device s'' token (same ∙ ground arith) (
        run-Revoked (hash_token token) s' cs (
          logout_revokes device_ref token payload.device_uuid t s2 r s'
            (subst WellFormed (sym kept) w) (ground arith) rest2))
