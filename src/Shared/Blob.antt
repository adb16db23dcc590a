-- ===== src/Shared/Blob.antt =====
-- crates/shared/src/lib.rs: the requests and responses about blobs.
use rsmsg.Base.{ℕ}
use rsmsg.Base.Text.{Text}

pub record UploadBlobRequest : Type 0 where
  pub data_b64 : Text

pub record UploadBlobResponse : Type 0 where
  pub blob_id : Text

pub record CreateBlobResponse : Type 0 where
  pub blob_id : Text

pub record AppendBlobChunkRequest : Type 0 where
  pub blob_id : Text
  pub chunk_b64 : Text

pub record AppendBlobChunkResponse : Type 0 where
  pub size : ℕ

pub record FetchBlobRequest : Type 0 where
  pub blob_id : Text

pub record FetchBlobResponse : Type 0 where
  pub data_b64 : Text
