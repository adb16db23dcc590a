-- ===== src/Tests/Transfers.antt =====
-- Chunks and registrations at concrete inputs.
use rsmsg.Base.{
  find?, any, filter, ◌≡◌, refl, none, some, [], ◌∷◌, ◌++◌, nat_eq, text_eq, ℕ_discrete,
}
use rsmsg.Base.Text.{Text, codes}
use rsmsg.Crypto.Primitives.{Bytes}
use rsmsg.Crypto.Engine.{
  Result, good, anyhow, encrypt_bytes, decode_key, or_anyhow, ensure, verify_prekey_signature_b64,
  sign_prekey_b64, generate_x25519_keypair, generate_ed25519_keypair, prekey_signature_payload,
}
use rsmsg.Crypto.Engine
use rsmsg.Client.Types.{LocalDeviceKeys}
use rsmsg.Client.Act.{◌>>=◌}
use rsmsg.Client.Core.{ClientCore, draw}
use rsmsg.Client.Core.Keys.{generate_local_device_keys, build_register_request}
use rsmsg.Client.Core.Signing.{SameBase64, bundle_verifies}
use rsmsg.Tests.Clients.{repeat, toy_lib, toy_net, setup}
use rsmsg.Shared.Device.{RegisterDeviceRequest}
use rsmsg.Shared.Messaging.{FetchPrekeyBundleRequest, FetchPrekeyBundleResponse}
use rsmsg.Server.State.{Server}
use rsmsg.Server.Monad
use rsmsg.Server.Monad.{done, query, after, transaction, commit}
use rsmsg.Server.Domain.Device.{register_device}
use rsmsg.Server.Domain.Messaging.{bundle_response, fetch_prekey_bundle}
use rsmsg.Server.Repository.Devices.{upsert_device, find_device_bundle}
use rsmsg.Server.Repository.Prekeys.{consume_one_time_prekey}
use rsmsg.Tests.World.{toy_library, moment, server}
use rsmsg.Tests.Crypto.{toy_primitives, toy_laws}

abbrev client : Bytes → ClientCore Bytes
client stored = record {
  local_password = none;
  peer_sessions = [];
  files = [];
  wire = record { world = stored; seen = [] };
  draws = 0;
}

abbrev prekey : Text
prekey = repeat 32 32

abbrev keys : LocalDeviceKeys
keys = record {
  identity_private_b64 = repeat 32 3;
  identity_public_b64 = prekey;
  signing_identity_private_b64 = some (repeat 32 3);
  signing_identity_public_b64 = some (repeat 32 7);
  signed_prekey_private_b64 = repeat 32 3;
  signed_prekey_public_b64 = prekey;
}

abbrev drawn : ClientCore Bytes
drawn = record (client []) { draws = 3 }

abbrev request : RegisterDeviceRequest
request = record {
  user_id = codes "ann";
  device_id = codes "phone";
  identity_key_b64 = prekey;
  signing_identity_key_b64 = repeat 32 7;
  signed_prekey_b64 = prekey;
  signed_prekey_signature_b64 = codes "rsmsg-signed-prekey-v1" ++ prekey;
}

abbrev asked : FetchPrekeyBundleRequest
asked = record { user_id = codes "ann"; device_id = codes "phone" }

abbrev with_ann : Server
with_ann = after (register_device request moment server)

abbrev fetched : Server
fetched = after (fetch_prekey_bundle asked moment with_ann)

abbrev bundle : FetchPrekeyBundleResponse
bundle = record {
  device_uuid = 1500 ∷ [];
  identity_key_b64 = prekey;
  signing_identity_key_b64 = repeat 32 7;
  signed_prekey_b64 = prekey;
  signed_prekey_signature_b64 = codes "rsmsg-signed-prekey-v1" ++ prekey;
  one_time_prekey = none;
}

keys_made : generate_local_device_keys setup (client []) ≡ (good keys, drawn)
unfolding generate_local_device_keys draw toy_primitives generate_x25519_keypair
    generate_ed25519_keypair ◌>>=◌
keys_made = refl

request_built :
    build_register_request setup (codes "ann") (codes "phone") keys drawn ≡ (good request, drawn)
unfolding build_register_request toy_primitives sign_prekey_b64 decode_key or_anyhow ensure
    prekey_signature_payload Engine.◌>>=◌ ◌>>=◌ nat_eq ℕ_discrete
request_built = refl

ann_registers :
    register_device request moment server ≡ done (record { device_uuid = 1500 ∷ [] }) with_ann
unfolding register_device upsert_device Monad.◌>>=◌ query toy_library nat_eq text_eq ℕ_discrete
    find? any
ann_registers = refl

ann_fetched : fetch_prekey_bundle asked moment with_ann ≡ done bundle fetched
unfolding ann_registers fetch_prekey_bundle bundle_response find_device_bundle
    consume_one_time_prekey transaction commit filter
ann_fetched = refl

same_base64 : SameBase64 setup toy_library
unfolding toy_library toy_primitives
same_base64 = record { decodes = λ s. refl; encodes = λ b. refl }

bundle_verifies_example :
    (verify_prekey_signature_b64 bundle.signing_identity_key_b64 bundle.signed_prekey_b64
        bundle.signed_prekey_signature_b64
      ≡ good tt)
    × (bundle.identity_key_b64 ≡ keys.identity_public_b64)
    × (bundle.device_uuid ≡ 1500 ∷ [])
bundle_verifies_example =
    bundle_verifies setup toy_library (codes "ann") (codes "phone") keys request (client []) drawn
      drawn moment moment server with_ann fetched (record { device_uuid = 1500 ∷ [] }) bundle
      toy_laws (λ n. refl) same_base64 keys_made request_built ann_registers ann_fetched
