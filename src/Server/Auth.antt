-- ===== src/Server/Auth.antt =====
-- crates/server/src/auth.rs
use rsmsg.Base.{if◌then◌else◌, Bool, Option}
use rsmsg.Base.Text.{Text}
use rsmsg.Server.State.{Uuid}
use rsmsg.Server.Monad.{unauthorized, M, pure, fail, ◌>>=◌, ◌>>◌, ok_or, query}
use rsmsg.Server.Library.{Library}
use rsmsg.Server.Repository.AuthTokens.{is_token_active}
use rsmsg.Server.Realtime.{mark_online}

-- The headers that the server reads: `none` where one is missing or is no visible ASCII.
pub record Headers : Type 0 where
  pub device_uuid : Option Text
  pub device_token : Option Text
  pub client_version : Option Text

module _ ⦃lib : Library⦄ where
  unfoldable pub hash_token : Text → Text
  hash_token token = lib.sha256_hex token

  -- The end of `authorize_device`.
  unfoldable pub admit : Bool → Uuid → M Uuid
  unfolding mark_online
  admit active device =
      if active then (do mark_online device; pure device) else fail unauthorized "invalid token"

  unfoldable pub authorize_device : Headers → M Uuid
  unfolding hash_token admit
  authorize_device headers = do
    text ← ok_or headers.device_uuid unauthorized "missing device credentials"
    device ← ok_or (lib.parse_uuid text) unauthorized "invalid device uuid"
    token ← ok_or headers.device_token unauthorized "missing device token"
    active ← query (is_token_active device (hash_token token))
    admit active device
