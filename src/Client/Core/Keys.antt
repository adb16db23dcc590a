-- ===== src/Client/Core/Keys.antt =====
-- crates/client-core/src/core.rs: the keys of the device.
use rsmsg.Base.{◌||◌, Option, none, some, if◌then◌else◌, is_none}
use rsmsg.Base.Text.{Text}
use rsmsg.Crypto.Primitives.{Primitives}
use rsmsg.Crypto.Engine.{
  or_anyhow, generate_shared_key_b64, generate_x25519_keypair, generate_ed25519_keypair,
  sign_prekey_b64,
}
use rsmsg.Shared.Device.{RegisterDeviceRequest}
use rsmsg.Client.Types.{LocalDeviceKeys}
use rsmsg.Client.Library.{ClientLibrary}
use rsmsg.Client.KeyStore
use rsmsg.Client.Network.{Network}
use rsmsg.Client.Act.{Act, give, lift, ignore_error, ◌>>=◌, ◌>>◌}
use rsmsg.Client.Core.{Setup, ClientCore, draw, set_files}

module _ ⦃p : Primitives⦄ ⦃lib : ClientLibrary⦄ ⦃net : Network⦄ (setup : Setup) where
  unfoldable pub new_shared_key : Act (ClientCore net.World) Text
  unfolding draw ◌>>=◌
  new_shared_key = do random ← draw 32; give (generate_shared_key_b64 random)

  unfoldable pub generate_local_device_keys : Act (ClientCore net.World) LocalDeviceKeys
  unfolding draw ◌>>=◌
  generate_local_device_keys = do
    identity_random ← draw 32
    signed_random ← draw 32
    signing_random ← draw 32
    let identity = generate_x25519_keypair identity_random
    let signed = generate_x25519_keypair signed_random
    let signing = generate_ed25519_keypair signing_random
    give (record {
      identity_private_b64 = identity.private_b64;
      identity_public_b64 = identity.public_b64;
      signing_identity_private_b64 = some signing.private_b64;
      signing_identity_public_b64 = some signing.public_b64;
      signed_prekey_private_b64 = signed.private_b64;
      signed_prekey_public_b64 = signed.public_b64;
    })

  -- `let _ = key_store::save(..)`
  unfoldable pub store_keys : LocalDeviceKeys → Act (ClientCore net.World) (Unit {0})
  unfolding draw ignore_error ◌>>=◌
  store_keys keys = ignore_error (do
    salt ← draw 16
    nonce ← draw 24
    λ s.
        set_files setup
          (KeyStore.save setup.vaults setup.stored_keys setup.host salt nonce
            setup.config.key_store_path keys s.local_password s.files)
          s)

  -- Keys of an older version get a signing key.
  unfoldable pub complete_keys : LocalDeviceKeys → Act (ClientCore net.World) LocalDeviceKeys
  unfolding draw store_keys ◌>>=◌
  complete_keys keys =
      if is_none keys.signing_identity_private_b64 || is_none keys.signing_identity_public_b64
      then (do
        random ← draw 32
        let signing = generate_ed25519_keypair random
        let full = record keys {
          signing_identity_private_b64 = some signing.private_b64;
          signing_identity_public_b64 = some signing.public_b64;
        }
        store_keys full
        give full)
      else give keys

  unfoldable pub keys_or_new : Option LocalDeviceKeys → Act (ClientCore net.World) LocalDeviceKeys
  unfolding complete_keys generate_local_device_keys store_keys ◌>>=◌
  keys_or_new (some keys) = do full ← complete_keys keys; store_keys full; give full
  keys_or_new none = do keys ← generate_local_device_keys; store_keys keys; give keys

  unfoldable pub load_or_create_local_device_keys : Act (ClientCore net.World) LocalDeviceKeys
  unfolding keys_or_new
  load_or_create_local_device_keys s =
      keys_or_new
        (KeyStore.load setup.vaults setup.stored_keys setup.host setup.config.key_store_path
          s.local_password s.files)
        s

  unfoldable pub build_register_request :
      Text → Text → LocalDeviceKeys → Act (ClientCore net.World) RegisterDeviceRequest
  unfolding or_anyhow ◌>>=◌
  build_register_request user_id device_id keys = do
    signing_private ←
        lift (or_anyhow keys.signing_identity_private_b64 "missing signing identity private key")
    signing_public ←
        lift (or_anyhow keys.signing_identity_public_b64 "missing signing identity public key")
    signature ← lift (sign_prekey_b64 signing_private keys.signed_prekey_public_b64)
    give (record {
      user_id = user_id;
      device_id = device_id;
      identity_key_b64 = keys.identity_public_b64;
      signing_identity_key_b64 = signing_public;
      signed_prekey_b64 = keys.signed_prekey_public_b64;
      signed_prekey_signature_b64 = signature;
    })
