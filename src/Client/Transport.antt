-- ===== src/Client/Transport.antt =====
-- crates/client-core/src/transport.rs: what its methods share.
pub mod Users
pub mod Devices
pub mod Messages
pub mod Calls
pub mod Blobs
pub mod Socket
pub mod Drained
use rsmsg.Base.{
  ℕ, ◌+◌, Bool, true, false, Option, none, some, List, [], ◌∷◌, ◌++◌, unwrap_or, String,
  if◌then◌else◌, ◌==◌, text_eq, ◌&&◌,
}
use rsmsg.Base.Text.{Text, codes}
use rsmsg.Base.Utf8.{as_bytes}
use rsmsg.Crypto.Primitives.{Bytes}
use rsmsg.Crypto.Engine.{Result, good, anyhow}
use rsmsg.Server.Handlers.Router.{Route}
use rsmsg.Client.Types.{ClientConfig, DeviceAuth}
use rsmsg.Client.Library.{ClientLibrary}
use rsmsg.Client.Vault.{or_error}
use rsmsg.Client.Network.{Headers, Request, HttpReply, Reply, unreachable, replied, Network}
use rsmsg.Client.Act.{Act, give, lift, fail, ◌>>=◌, ◌>>◌}

-- `platform_key`, from the constants of the build.
unfoldable pub platform_key : Text → Text → Text
platform_key os arch =
    if os == codes "windows" && arch == codes "x86_64"
    then codes "windows-x86_64"
    else if os == codes "macos" && arch == codes "aarch64"
    then codes "macos-aarch64"
    else if os == codes "macos" && arch == codes "x86_64"
    then codes "macos-x86_64"
    else if os == codes "linux" && arch == codes "x86_64"
    then codes "linux-x86_64"
    else codes "unknown"

abbrev pub client_version : Text
client_version = codes "1.0.3"

-- The chunks of a body, one after the other.
unfoldable pub concat : List Bytes → Bytes
concat [] = []
concat (c ∷ cs) = c ++ concat cs

-- The whole body.
unfoldable pub whole_body : HttpReply → Result Bytes
unfolding concat
whole_body r = elim r.broken [ none ↦ good (concat r.chunks) | some e ↦ anyhow e ]

-- What the world is, with the numbers that a `progress` of the caller has been given.
pub record Wire (W : Type 0) : Type 0 where
  pub world : W
  pub seen : List (ℕ × ℕ)

abbrev pub received : {W : Type 0} → List (ℕ × ℕ) → Reply × W → Result HttpReply × Wire W
received seen (unreachable e, w) = (anyhow e, record { world = w; seen = seen })
received seen (replied r, w) = (good r, record { world = w; seen = seen })

module _ ⦃lib : ClientLibrary⦄ where
  unfoldable pub default_headers : Headers
  unfolding platform_key
  default_headers =
      (codes "x-rsmsg-client-version", client_version)
      ∷ (codes "x-rsmsg-platform", platform_key lib.os lib.arch)
      ∷ (codes "x-rsmsg-protocol-version", codes "1")
      ∷ []

  -- `HeaderValue::from_str`
  unfoldable pub header_value : Text → String → Result Text
  header_value value message =
      if lib.is_header_value value then good value else anyhow (codes message)

  -- `Response::json` with the reader of the type.
  unfoldable pub json : {S A : Type 0} → (Bytes → Option A) → HttpReply → Act S A
  unfolding whole_body or_error ◌>>=◌
  json read r = do bytes ← lift (whole_body r); lift (or_error (read bytes) lib.json_error)

  -- `text().await.unwrap_or_default()`
  unfoldable pub body_text : HttpReply → Text
  unfolding whole_body
  body_text r = elim (whole_body r) [ good bytes ↦ lib.lossy_text bytes | anyhow e ↦ [] ]

  unfoldable pub error_text : HttpReply → Text → Text
  unfolding body_text
  error_text r fallback = unwrap_or (lib.error_field (as_bytes (body_text r))) fallback

  unfoldable pub api_error_message : HttpReply → Text
  unfolding error_text
  api_error_message r = error_text r (codes "request failed with " ++ r.status)

  -- The error of a response that is no success, as most methods make it.
  unfoldable pub check_api : {S : Type 0} → HttpReply → Act S (Unit {0})
  unfolding api_error_message give fail
  check_api r = if r.success then give tt else fail (api_error_message r)

  -- The error of the methods that name themselves in it.
  unfoldable pub check_named : {S : Type 0} → String → HttpReply → Act S (Unit {0})
  unfolding give fail
  check_named name r =
      if r.success then give tt else fail (codes name ++ (codes " failed with " ++ r.status))

  unfoldable pub auth_headers : {S : Type 0} → DeviceAuth → Act S Headers
  unfolding header_value ◌>>=◌
  auth_headers auth = do
    device_uuid ← lift (header_value auth.device_uuid "invalid uuid header")
    token ← lift (header_value auth.auth_token "invalid token header")
    give ((codes "x-device-uuid", device_uuid) ∷ (codes "x-device-token", token) ∷ [])

  module _ ⦃net : Network⦄ (cfg : ClientConfig) where
    -- `post(url)`, with its headers and its body, and `send`.
    unfoldable pub post : String → Headers → Route → Act (Wire net.World) HttpReply
    unfolding default_headers
    post path headers body w = received w.seen (
        net.exchange
          (record {
            url = cfg.http_base ++ codes path;
            headers = default_headers ++ headers;
            body = body;
          })
          w.world)

    -- The same for a device that signs in by its token.
    unfoldable pub post_as : DeviceAuth → String → Route → Act (Wire net.World) HttpReply
    unfolding post auth_headers ◌>>=◌
    post_as auth path body = do headers ← auth_headers auth; post path headers body
