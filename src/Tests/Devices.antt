-- ===== src/Tests/Devices.antt =====
-- Registrations of devices at concrete inputs.
use rsmsg.Base.{nat_eq, text_eq, find?, ◌≡◌, refl, none, some, [], ◌∷◌, ℕ_discrete}
use rsmsg.Base.Text.{codes}
use rsmsg.Server.State.{Server}
use rsmsg.Server.Handlers.Router.{
  register_device, register_device_response, path_of, success, serve,
}
use rsmsg.Server.Auth.{Headers}
use rsmsg.Server.VersionGate.{
  parse_digits, parse_u64, first_part, later_parts, next_number, parse_version, newer, version_gt,
  require_supported_client,
}
use rsmsg.Server.Repository.Devices.{named, set_keys}
use rsmsg.Shared.Device.{RegisterDeviceRequest}
use rsmsg.Server.Devices.{register_device_replaces}
use rsmsg.Tests.World.{toy_library, moment, alice, phone, server}

abbrev impostor : RegisterDeviceRequest
impostor = record {
  user_id = alice;
  device_id = codes "phone";
  identity_key_b64 = 61 ∷ [];
  signing_identity_key_b64 = 62 ∷ [];
  signed_prekey_b64 = 63 ∷ [];
  signed_prekey_signature_b64 = 64 ∷ [];
}

-- A client of a supported version, with no token.
abbrev client : Headers
client = record { device_uuid = none; device_token = none; client_version = some (codes "1.2.0") }

client_passes :
    require_supported_client server.min_client_version
      (path_of (register_device impostor))
      client.client_version
    ≡ none
unfolding require_supported_client version_gt newer parse_version next_number parse_u64 parse_digits
    first_part later_parts path_of nat_eq ℕ_discrete text_eq
client_passes = refl

register_device_replaces_example :
    (s' : Server) × (serve moment client (register_device impostor) server ≡ (
      success (register_device_response (record { device_uuid = toy_library.show_uuid 11 })),
      s',
    ))
    × (find? (named alice (codes "phone")) s'.db.devices
        ≡ some (set_keys (61 ∷ []) (62 ∷ []) (63 ∷ []) (64 ∷ []) phone))
unfolding toy_library nat_eq ℕ_discrete text_eq find?
register_device_replaces_example =
    register_device_replaces client impostor moment server phone (61 ∷ []) (62 ∷ []) (63 ∷ [])
      (64 ∷ []) client_passes refl refl refl refl refl refl
