-- ===== src/Server/Repository/AuthTokens.antt =====
-- crates/server/src/repository/auth_tokens.rs
use rsmsg.Base.{
  ltb, if◌then◌else◌, ◌==◌, nat_eq, text_eq, is_none, any, count, update_where, ℕ, ◌+◌, Bool, not,
  ◌&&◌, none, some, ◌∷◌,
}
use rsmsg.Base.Text.{Text}
use rsmsg.Base.Int.{int_eq}
use rsmsg.Server.State.{Uuid, AuthToken}
use rsmsg.Server.Monad.{Query}
use rsmsg.Server.Repository.Devices.{has_device}

abbrev pub is_active : ℕ → Uuid → Text → AuthToken → Bool
is_active now device_uuid token_hash k =
    k.device_ref == device_uuid
    && k.token_hash == token_hash
    && is_none k.revoked_at
    && ltb now k.expires_at

unfoldable pub is_token_active : Uuid → Text → Query Bool
is_token_active device_uuid token_hash t n d =
    some (any (is_active t.now device_uuid token_hash) d.tokens, d)

-- 30 days.
abbrev pub token_lifetime : ℕ
token_lifetime = 2_592_000_000

-- The device must exist, and no two rows have one hash.
unfoldable pub create_token : Uuid → Text → Query (Unit {0})
create_token device_uuid token_hash t n d =
    if has_device device_uuid d && not (any (λ k. k.token_hash == token_hash) d.tokens)
    then some (
      tt,
      record d {
        tokens =
            record {
              device_ref = device_uuid;
              token_hash = token_hash;
              expires_at = t.now + token_lifetime;
              revoked_at = none;
            }
            ∷ d.tokens;
      },
    )
    else none

abbrev pub is_revocable : Uuid → Text → AuthToken → Bool
is_revocable device_uuid token_hash k =
    k.device_ref == device_uuid && k.token_hash == token_hash && is_none k.revoked_at

abbrev pub revoke : ℕ → AuthToken → AuthToken
revoke now k = record k { revoked_at = some now }

unfoldable pub revoke_token : Uuid → Text → Query ℕ
revoke_token device_uuid token_hash t n d = some (
  count (is_revocable device_uuid token_hash) d.tokens,
  record d { tokens = update_where (is_revocable device_uuid token_hash) (revoke t.now) d.tokens },
)
