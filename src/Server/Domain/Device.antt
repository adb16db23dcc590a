-- ===== src/Server/Domain/Device.antt =====
-- crates/server/src/domain/device.rs
use rsmsg.Base.{◌==◌, nat_eq, text_eq, ℕ, ◌+◌, List, [], ◌∷◌, ◌++◌}
use rsmsg.Base.Text.{Text}
use rsmsg.Base.Int.{int_eq}
use rsmsg.Server.State.{Uuid}
use rsmsg.Server.Monad.{
  bad_request, forbidden, not_found, M, pure, ◌>>=◌, ◌>>◌, guard, ok_or, query, transaction, new_v4,
}
use rsmsg.Server.Library.{Library}
use rsmsg.Shared.Device.{
  RegisterDeviceRequest, RegisterDeviceResponse, PrekeyUploadItem, UploadPrekeysRequest,
  UploadPrekeysResponse, DeviceLoginRequest, DeviceLoginResponse, DeviceLogoutResponse,
}
use rsmsg.Server.Auth.{hash_token}
use rsmsg.Server.Repository.AuthTokens.{create_token, revoke_token}
use rsmsg.Server.Repository.Devices.{upsert_device, find_device_uuid}
use rsmsg.Server.Repository.Prekeys.{insert_one_time_prekey}

module _ ⦃lib : Library⦄ where
  unfoldable pub register_device : RegisterDeviceRequest → M RegisterDeviceResponse
  register_device payload = do
    identity ← ok_or (lib.decode payload.identity_key_b64) bad_request "invalid identity key"
    signing ←
        ok_or (lib.decode payload.signing_identity_key_b64) bad_request
          "invalid signing identity key"
    prekey ← ok_or (lib.decode payload.signed_prekey_b64) bad_request "invalid signed prekey"
    signature ←
        ok_or (lib.decode payload.signed_prekey_signature_b64) bad_request
          "invalid signed prekey signature"
    device ←
        query (upsert_device payload.user_id payload.device_id identity signing prekey signature)
    pure (record { device_uuid = lib.show_uuid device })

  -- The loop over the items, with the number of rows so far.
  unfoldable pub insert_prekeys : Uuid → List PrekeyUploadItem → ℕ → M ℕ
  insert_prekeys device [] inserted = pure inserted
  insert_prekeys device (item ∷ items) inserted = do
    pubkey ← ok_or (lib.decode item.pubkey_b64) bad_request "invalid prekey"
    rows ← query (insert_one_time_prekey device item.key_id pubkey)
    insert_prekeys device items (inserted + rows)

  unfoldable pub upload_prekeys : Uuid → UploadPrekeysRequest → M UploadPrekeysResponse
  unfolding insert_prekeys
  upload_prekeys auth_device payload = do
    device ← ok_or (lib.parse_uuid payload.device_uuid) bad_request "invalid device uuid"
    guard (auth_device == device) forbidden "device mismatch"
    inserted ← transaction (insert_prekeys device payload.prekeys 0)
    pure (record { inserted = inserted })

  unfoldable pub device_login : DeviceLoginRequest → M DeviceLoginResponse
  unfolding hash_token new_v4
  device_login payload = do
    found ← query (find_device_uuid payload.user_id payload.device_id)
    device ← ok_or found not_found "device not found"
    first ← new_v4
    second ← new_v4
    query (create_token device (hash_token (lib.simple_uuid first ++ lib.simple_uuid second)))
    pure (record {
      device_uuid = lib.show_uuid device;
      auth_token = lib.simple_uuid first ++ lib.simple_uuid second;
    })

  unfoldable pub device_logout : Uuid → Text → Text → M DeviceLogoutResponse
  unfolding hash_token
  device_logout auth_device token device_uuid = do
    parsed ← ok_or (lib.parse_uuid device_uuid) bad_request "invalid device uuid"
    guard (auth_device == parsed) forbidden "device mismatch"
    affected ← query (revoke_token parsed (hash_token token))
    pure (record { revoked = affected == 1 })
