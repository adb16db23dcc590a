-- ===== src/Server/Preserved/Devices.antt =====
-- Invariants of the handlers of domain/device.rs and domain/blob.rs.
use rsmsg.Base.{ℕ, ◌+◌, List, [], ◌∷◌}
use rsmsg.Base.Text.{Text}
use rsmsg.Server.State.{Uuid, Bytes, Database}
use rsmsg.Server.Monad.{new_v4}
use rsmsg.Server.Library.{Library}
use rsmsg.Server.Keeps.{Maintains, Keeps, Keeps-bind, On, keeps_rules}
use rsmsg.Server.Statements.{reads, Statements}
use rsmsg.Shared.Device.{
  RegisterDeviceRequest, PrekeyUploadItem, UploadPrekeysRequest, DeviceLoginRequest,
}
use rsmsg.Shared.Blob.{UploadBlobRequest, AppendBlobChunkRequest, FetchBlobRequest}
use rsmsg.Server.Domain.Device.{
  register_device, insert_prekeys, upload_prekeys, device_login, device_logout,
}
use rsmsg.Server.Domain.BlobStore.{
  upload_blob_bytes, upload_blob, create_blob, append_blob_chunk, fetch_blob_bytes, fetch_blob,
}
use rsmsg.Server.Repository.Blobs

module _ {P : Database → Type 0} where
  pub new_v4-Keeps : Keeps (On P) new_v4
  unfolding new_v4
  new_v4-Keeps = record { at = λ t s h. record { get = h.get } }

module _ ⦃lib : Library⦄ {P : Database → Type 0} (S : Statements P) where
  pub register_device-Keeps :
      (payload : RegisterDeviceRequest) → Keeps (On P) (register_device payload)
  unfolding register_device
  register_device-Keeps payload = search (keeps_rules, S.upsert_device_keeps) depth 16

  insert_prekeys-Keeps :
      (device : Uuid) (items : List PrekeyUploadItem) (inserted : ℕ)
      → Keeps (On P) (insert_prekeys device items inserted)
  unfolding insert_prekeys
  insert_prekeys-Keeps device [] inserted = search keeps_rules
  insert_prekeys-Keeps device (item ∷ items) inserted =
      Keeps-bind _ _ (search keeps_rules) λ pubkey.
        Keeps-bind _ _ (search (keeps_rules, S.insert_one_time_prekey_keeps))
          λ rows. insert_prekeys-Keeps device items (inserted + rows)

  pub upload_prekeys-Keeps :
      (device : Uuid) (payload : UploadPrekeysRequest)
      → Keeps (On P) (upload_prekeys device payload)
  unfolding upload_prekeys
  upload_prekeys-Keeps device payload = search (keeps_rules, insert_prekeys-Keeps) depth 12

  pub device_login-Keeps : (payload : DeviceLoginRequest) → Keeps (On P) (device_login payload)
  unfolding device_login
  device_login-Keeps payload =
      search (keeps_rules, reads, new_v4-Keeps, S.create_token_keeps) depth 16

  pub device_logout-Keeps :
      (device : Uuid) (token device_uuid : Text)
      → Keeps (On P) (device_logout device token device_uuid)
  unfolding device_logout
  device_logout-Keeps device token device_uuid = search (keeps_rules, S.revoke_token_keeps) depth 12

  insert_blob-Maintains : (owner : Uuid) → Maintains P (Blobs.create_blob owner)
  unfolding Blobs.create_blob
  insert_blob-Maintains owner = S.insert_blob_keeps owner []

  pub upload_blob-Keeps :
      (owner : Uuid) (payload : UploadBlobRequest) → Keeps (On P) (upload_blob owner payload)
  unfolding upload_blob
  upload_blob-Keeps owner payload = search (keeps_rules, S.insert_blob_keeps) depth 12

  pub upload_blob_bytes-Keeps :
      (owner : Uuid) (bytes : Bytes) → Keeps (On P) (upload_blob_bytes owner bytes)
  unfolding upload_blob_bytes
  upload_blob_bytes-Keeps owner bytes = search (keeps_rules, S.insert_blob_keeps) depth 12

  pub create_blob-Keeps : (owner : Uuid) → Keeps (On P) (create_blob owner)
  unfolding create_blob
  create_blob-Keeps owner = search (keeps_rules, insert_blob-Maintains) depth 12

  pub append_blob_chunk-Keeps :
      (owner : Uuid) (payload : AppendBlobChunkRequest)
      → Keeps (On P) (append_blob_chunk owner payload)
  unfolding append_blob_chunk
  append_blob_chunk-Keeps owner payload = search (keeps_rules, S.append_blob_chunk_keeps) depth 16

module _ ⦃lib : Library⦄ {P : Database → Type 0} where
  pub fetch_blob-Keeps : (payload : FetchBlobRequest) → Keeps (On P) (fetch_blob payload)
  unfolding fetch_blob
  fetch_blob-Keeps payload = search (keeps_rules, reads) depth 12

  pub fetch_blob_bytes-Keeps :
      (payload : FetchBlobRequest) → Keeps (On P) (fetch_blob_bytes payload)
  unfolding fetch_blob_bytes
  fetch_blob_bytes-Keeps payload = search (keeps_rules, reads) depth 12
