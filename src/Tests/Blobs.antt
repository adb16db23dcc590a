-- ===== src/Tests/Blobs.antt =====
-- Blobs at concrete inputs.
use rsmsg.Base.{
  nat_eq, length, find?, any, update_where, ℕ, zero, suc, ◌≤◌, ◌<◌, ◌≡◌, refl, ap, [], ◌∷◌, ◌++◌,
  arith, ℕ_discrete,
}
use rsmsg.Base.Text.{codes}
use rsmsg.Base.Unique.{length-append}
use rsmsg.Server.State.{Bytes, Blob, Server}
use rsmsg.Server.Monad.{payload_too_large, api_error, done, failed, ◌>>=◌, query, after}
use rsmsg.Server.History.{start}
use rsmsg.Server.Domain.BlobStore.{
  max_blob_bytes, upload_blob_bytes, append_blob_chunk, fetch_blob_bytes,
}
use rsmsg.Server.Repository.Blobs
use rsmsg.Server.Repository.Blobs.{insert_blob, is_owned, extend}
use rsmsg.Server.BlobData.{upload_fetch, oversized_append_stored}
use rsmsg.Shared.Blob.{AppendBlobChunkRequest}
use rsmsg.Tests.World.{toy_library, toy_uuids, moment, tables, server}

abbrev two_bytes : Bytes
two_bytes = 1 ∷ 2 ∷ []

abbrev uploaded : Server
uploaded = after (upload_blob_bytes 11 two_bytes moment server)

phone_uploads :
    upload_blob_bytes 11 two_bytes moment server ≡ done (record { blob_id = 1500 ∷ [] }) uploaded
unfolding upload_blob_bytes Blobs.insert_blob query ◌>>=◌ toy_library nat_eq ℕ_discrete any
phone_uploads = refl

upload_fetch_example :
    (length two_bytes ≤ max_blob_bytes)
    × (fetch_blob_bytes (record { blob_id = 1500 ∷ [] }) moment uploaded
        ≡ done two_bytes (record uploaded { calls = suc uploaded.calls }))
upload_fetch_example =
    upload_fetch 11 two_bytes moment server (record { blob_id = 1500 ∷ [] }) uploaded moment
      toy_uuids phone_uploads refl

abbrev blob : Blob
blob = record { id = 33; owner_device = 11; bytes = 9 ∷ 9 ∷ []; created_at = 1 }

abbrev chunk : AppendBlobChunkRequest
chunk = record { blob_id = 1033 ∷ []; chunk_b64 = 7 ∷ [] }

abbrev appended : Server
appended = after (append_blob_chunk 11 chunk moment server)

phone_appends : append_blob_chunk 11 chunk moment server ≡ done (record { size = 3 }) appended
unfolding append_blob_chunk Blobs.append_blob_chunk query ◌>>=◌ toy_library nat_eq ℕ_discrete find?
    update_where
phone_appends = refl

-- A blob of 100 MiB.
abbrev zeros : ℕ → Bytes
zeros zero = []
zeros (suc n) = 0 ∷ zeros n

length-zeros : (n : ℕ) → length (zeros n) ≡ n
length-zeros zero = refl
length-zeros (suc n) = ap suc (length-zeros n)

one_more : (n : ℕ) → n < length (zeros n ++ 7 ∷ [])
one_more n = let all = length-append (zeros n) (7 ∷ []) in let size = length-zeros n in omega arith

abbrev full : Blob
full = record { id = 33; owner_device = 11; bytes = zeros max_blob_bytes; created_at = 1 }

abbrev brimming : Server
brimming = start (record tables { blobs = full ∷ [] }) (codes "1.0.0")

oversized_append_stored_example :
    append_blob_chunk 11 chunk moment brimming
    ≡ failed (api_error payload_too_large "blob too large") (record brimming {
      db = record brimming.db {
        blobs = update_where (is_owned 11 33) (extend (7 ∷ [])) brimming.db.blobs;
      };
      calls = suc brimming.calls;
    })
unfolding toy_library nat_eq ℕ_discrete find?
oversized_append_stored_example =
    oversized_append_stored 11 chunk moment brimming 33 (7 ∷ []) full refl refl (omega arith) refl
      refl (one_more max_blob_bytes)
