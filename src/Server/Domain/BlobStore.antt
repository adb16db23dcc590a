-- ===== src/Server/Domain/BlobStore.antt =====
-- crates/server/src/domain/blob.rs
use rsmsg.Base.{leb, length, ℕ, ◌*◌}
use rsmsg.Server.State.{Uuid, Bytes}
use rsmsg.Server.Monad.{
  bad_request, not_found, payload_too_large, M, pure, ◌>>=◌, ◌>>◌, guard, ok_or, query,
}
use rsmsg.Server.Library.{Library}
use rsmsg.Shared.Blob.{
  UploadBlobRequest, UploadBlobResponse, CreateBlobResponse, AppendBlobChunkRequest,
  AppendBlobChunkResponse, FetchBlobRequest, FetchBlobResponse,
}
use rsmsg.Server.Repository.Blobs.{insert_blob}
use rsmsg.Server.Repository.Blobs

abbrev pub max_blob_bytes : ℕ
max_blob_bytes = 100 * 1024 * 1024

abbrev pub max_blob_chunk_bytes : ℕ
max_blob_chunk_bytes = 512 * 1024

module _ ⦃lib : Library⦄ where
  unfoldable pub upload_blob_bytes : Uuid → Bytes → M UploadBlobResponse
  upload_blob_bytes owner bytes = do
    guard (leb (length bytes) max_blob_bytes) payload_too_large "blob too large"
    blob_id ← query (insert_blob owner bytes)
    pure (record { blob_id = lib.show_uuid blob_id })

  unfoldable pub upload_blob : Uuid → UploadBlobRequest → M UploadBlobResponse
  upload_blob owner payload = do
    bytes ← ok_or (lib.decode payload.data_b64) bad_request "invalid blob data"
    guard (leb (length bytes) max_blob_bytes) payload_too_large "blob too large"
    blob_id ← query (insert_blob owner bytes)
    pure (record { blob_id = lib.show_uuid blob_id })

  unfoldable pub create_blob : Uuid → M CreateBlobResponse
  create_blob owner = do
    blob_id ← query (Blobs.create_blob owner)
    pure (record { blob_id = lib.show_uuid blob_id })

  unfoldable pub append_blob_chunk : Uuid → AppendBlobChunkRequest → M AppendBlobChunkResponse
  append_blob_chunk owner payload = do
    blob_id ← ok_or (lib.parse_uuid payload.blob_id) bad_request "invalid blob id"
    chunk ← ok_or (lib.decode payload.chunk_b64) bad_request "invalid blob chunk"
    guard (leb (length chunk) max_blob_chunk_bytes) payload_too_large "blob chunk too large"
    found ← query (Blobs.append_blob_chunk owner blob_id chunk)
    size ← ok_or found not_found "blob not found"
    guard (leb size max_blob_bytes) payload_too_large "blob too large"
    pure (record { size = size })

  unfoldable pub fetch_blob_bytes : FetchBlobRequest → M Bytes
  fetch_blob_bytes payload = do
    blob_id ← ok_or (lib.parse_uuid payload.blob_id) bad_request "invalid blob id"
    found ← query (Blobs.fetch_blob blob_id)
    ok_or found not_found "blob not found"

  unfoldable pub fetch_blob : FetchBlobRequest → M FetchBlobResponse
  fetch_blob payload = do
    blob_id ← ok_or (lib.parse_uuid payload.blob_id) bad_request "invalid blob id"
    found ← query (Blobs.fetch_blob blob_id)
    bytes ← ok_or found not_found "blob not found"
    pure (record { data_b64 = lib.encode bytes })
