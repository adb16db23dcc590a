-- ===== src/Server/Handlers/Blob.antt =====
-- crates/server/src/handlers/blob.rs

use rsmsg.Server.State.{Bytes}
use rsmsg.Server.Monad.{M, ◌>>=◌}
use rsmsg.Server.Library.{Library}
use rsmsg.Server.Auth.{Headers, authorize_device}
use rsmsg.Shared.Blob.{
  UploadBlobRequest, UploadBlobResponse, CreateBlobResponse, AppendBlobChunkRequest,
  AppendBlobChunkResponse, FetchBlobRequest, FetchBlobResponse,
}
use rsmsg.Server.Domain.BlobStore

module _ ⦃lib : Library⦄ where
  unfoldable pub upload_blob : Headers → UploadBlobRequest → M UploadBlobResponse
  upload_blob headers payload = do
    auth_device ← authorize_device headers
    BlobStore.upload_blob auth_device payload

  unfoldable pub upload_blob_bytes : Headers → Bytes → M UploadBlobResponse
  upload_blob_bytes headers payload = do
    auth_device ← authorize_device headers
    BlobStore.upload_blob_bytes auth_device payload

  unfoldable pub create_blob : Headers → M CreateBlobResponse
  create_blob headers = do auth_device ← authorize_device headers; BlobStore.create_blob auth_device

  unfoldable pub append_blob_chunk : Headers → AppendBlobChunkRequest → M AppendBlobChunkResponse
  append_blob_chunk headers payload = do
    auth_device ← authorize_device headers
    BlobStore.append_blob_chunk auth_device payload

  unfoldable pub fetch_blob : Headers → FetchBlobRequest → M FetchBlobResponse
  fetch_blob headers payload = do _ ← authorize_device headers; BlobStore.fetch_blob payload

  unfoldable pub fetch_blob_bytes : Headers → FetchBlobRequest → M Bytes
  fetch_blob_bytes headers payload = do
    _ ← authorize_device headers
    BlobStore.fetch_blob_bytes payload
