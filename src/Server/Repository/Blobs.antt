-- ===== src/Server/Repository/Blobs.antt =====
-- crates/server/src/repository/blobs.rs
use rsmsg.Base.{
  if◌then◌else◌, ◌==◌, nat_eq, text_eq, length, find?, any, update_where, ℕ, Bool, not, ◌&&◌,
  Option, none, some, [], ◌∷◌, ◌++◌,
}
use rsmsg.Base.Int.{int_eq}
use rsmsg.Server.State.{Uuid, Bytes, Blob}
use rsmsg.Server.Monad.{Query}
use rsmsg.Server.Repository.Devices.{has_device}

-- The owner must exist, and the row gets a new id.
unfoldable pub insert_blob : Uuid → Bytes → Query Uuid
insert_blob owner bytes t n d =
    if has_device owner d && not (any (λ b. b.id == t.fresh n) d.blobs)
    then some (
      t.fresh n,
      record d {
        blobs =
            record { id = t.fresh n; owner_device = owner; bytes = bytes; created_at = t.now }
            ∷ d.blobs;
      },
    )
    else none

unfoldable pub create_blob : Uuid → Query Uuid
unfolding insert_blob
create_blob owner = insert_blob owner []

abbrev pub is_owned : Uuid → Uuid → Blob → Bool
is_owned owner blob_id b = b.id == blob_id && b.owner_device == owner

abbrev pub extend : Bytes → Blob → Blob
extend chunk b = record b { bytes = b.bytes ++ chunk }

-- The new length, where the device owns such a blob.
unfoldable pub append_blob_chunk : Uuid → Uuid → Bytes → Query (Option ℕ)
append_blob_chunk owner blob_id chunk t n d = elim (find? (is_owned owner blob_id) d.blobs) [
  | none ↦ some (none, d)
  | some b ↦ some (
    some (length (b.bytes ++ chunk)),
    record d { blobs = update_where (is_owned owner blob_id) (extend chunk) d.blobs },
  )
]

unfoldable pub fetch_blob : Uuid → Query (Option Bytes)
fetch_blob blob_id t n d = elim (find? (λ b. b.id == blob_id) d.blobs) [
  | none ↦ some (none, d)
  | some b ↦ some (some b.bytes, d)
]
