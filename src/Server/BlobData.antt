-- ===== src/Server/BlobData.antt =====
-- The contents of blobs: domain/blob.rs and repository/blobs.rs.
use rsmsg.Base.{
  ◌==◌, nat_eq, text_eq, Bool-cases, length, find?, update_where, ℕ, suc, ◌≤◌, ◌<◌, ◌≡◌, sym, ap,
  subst, ◌∙◌, inl, inr, true, false, some, List, [], ◌∷◌, ◌++◌, arith,
}
use rsmsg.Base.Int.{int_eq}
use rsmsg.Base.Rows.{find?-sound}
use rsmsg.Server.State.{Uuid, Bytes, Blob, Database, Server}
use rsmsg.Server.Monad.{payload_too_large, api_error, Moment, done, failed, pure, ◌>>=◌, query}
use rsmsg.Server.Monad.Done.{guard_then, ok_or_then, query_then}
use rsmsg.Server.Library.{Library, UuidLaws}
use rsmsg.Server.Domain.BlobStore.{
  max_blob_bytes, max_blob_chunk_bytes, upload_blob_bytes, append_blob_chunk, fetch_blob_bytes,
}
use rsmsg.Server.Repository.Blobs.{insert_blob, is_owned, extend}
use rsmsg.Server.Repository.Blobs
use rsmsg.Shared.Blob.{
  UploadBlobResponse, AppendBlobChunkRequest, AppendBlobChunkResponse, FetchBlobRequest,
}

find?-extended :
    (owner blob_id : Uuid) (chunk : Bytes) (bs : List Blob) (b : Blob)
    → find? (is_owned owner blob_id) bs ≡ some b
    → find? (λ x. x.id == blob_id) bs ≡ some b
    → find? (λ x. x.id == blob_id) (update_where (is_owned owner blob_id) (extend chunk) bs)
      ≡ some (extend chunk b)
unfolding find? update_where
find?-extended owner blob_id chunk [] b e f = cc
find?-extended owner blob_id chunk (x ∷ bs) b e f =
    let owned = find?-sound (is_owned owner blob_id) (x ∷ bs) b e in
    elim (Bool-cases (x.id == blob_id)) [
      | inl hit ↦
          let same : x ≡ b = ground (arith, hit) in
          let mine : is_owned owner blob_id x ≡ true = ap (is_owned owner blob_id) same ∙ owned in
          rw (mine, hit) (ap (λ y. some (extend chunk y)) same)
      | inr miss ↦ ground (arith, miss, find?-extended owner blob_id chunk bs b)
    ]

find?-owned :
    (owner blob_id : Uuid) (bs : List Blob) (b : Blob)
    → find? (λ x. x.id == blob_id) bs ≡ some b
    → b.owner_device ≡ owner
    → find? (is_owned owner blob_id) bs ≡ some b
unfolding find?
find?-owned owner blob_id [] b e f = cc
find?-owned owner blob_id (x ∷ bs) b e f = ground (arith, find?-owned owner blob_id bs b)

module _ ⦃lib : Library⦄ where
  fetch_stored :
      (payload : FetchBlobRequest) (t : Moment) (s : Server) (id : Uuid) (b : Blob)
      → lib.parse_uuid payload.blob_id ≡ some id
      → find? (λ x. x.id == id) s.db.blobs ≡ some b
      → t.outage s.calls ≡ false
      → fetch_blob_bytes payload t s ≡ done b.bytes (record s { calls = suc s.calls })
  unfolding fetch_blob_bytes Blobs.fetch_blob query ◌>>=◌
  fetch_stored payload t s id b parsed stored up = ground (arith, parsed, stored, up)

  inserted_blob :
      (owner : Uuid) (bytes : Bytes) (t : Moment) (n : ℕ) (d : Database) (id : Uuid) (d' : Database)
      → Blobs.insert_blob owner bytes t n d ≡ some (id, d')
      → find? (λ x. x.id == id) d'.blobs
        ≡ some (record { id = id; owner_device = owner; bytes = bytes; created_at = t.now })
  unfolding Blobs.insert_blob find?
  inserted_blob owner bytes t n d id d' h = ground arith

  -- What is uploaded is fetched: an upload that is answered by success is of at most 100 MiB, and a
  -- fetch of the blob that it names, right after it and where its call of the database does not fail,
  -- gives the same bytes.
  pub upload_fetch :
      (owner : Uuid) (bytes : Bytes) (t : Moment) (s : Server) (r : UploadBlobResponse)
      (s' : Server) (t' : Moment)
      → UuidLaws lib
      → upload_blob_bytes owner bytes t s ≡ done r s'
      → t'.outage s'.calls ≡ false
      → (length bytes ≤ max_blob_bytes)
        × (fetch_blob_bytes (record { blob_id = r.blob_id }) t' s'
            ≡ done bytes (record s' { calls = suc s'.calls }))
  unfolding upload_blob_bytes pure
  upload_fetch owner bytes t s r s' t' laws h up = guard_then _ _ _ _ h λ small h1.
      query_then _ _ h1 λ id d inserted h2.
        let shown : r.blob_id ≡ lib.show_uuid id = ground arith in
        let left : s'.db ≡ d = ground arith in
        let stored = inserted_blob owner bytes t s.calls s.db id d inserted in
        let new : Blob = record {
          id = id;
          owner_device = owner;
          bytes = bytes;
          created_at = t.now;
        } in
        (
          ground arith,
          fetch_stored (record { blob_id = r.blob_id }) t' s' id new
              (ap lib.parse_uuid shown ∙ laws.parse-show id)
              (subst (λ d. find? (λ x. x.id == id) d.blobs ≡ some new) (sym left) stored) up,
        )

  -- A chunk goes to the end of its blob: an append that is answered by success has a chunk of at most
  -- 512 KiB, for a blob that the device owns, and a fetch right after it, where its call of the database
  -- does not fail, gives the bytes of the blob and then the chunk. The answer is their number, at most
  -- 100 MiB. The id names one row before.
  pub append_fetch :
      (owner : Uuid) (payload : AppendBlobChunkRequest) (t : Moment) (s : Server)
      (r : AppendBlobChunkResponse) (s' : Server) (t' : Moment) (id : Uuid) (b : Blob)
      → lib.parse_uuid payload.blob_id ≡ some id
      → find? (λ x. x.id == id) s.db.blobs ≡ some b
      → b.owner_device ≡ owner
      → append_blob_chunk owner payload t s ≡ done r s'
      → t'.outage s'.calls ≡ false
      → (chunk : Bytes) × (lib.decode payload.chunk_b64 ≡ some chunk)
        × (length chunk ≤ max_blob_chunk_bytes)
        × (r.size ≡ length (b.bytes ++ chunk))
        × (r.size ≤ max_blob_bytes)
        × (fetch_blob_bytes (record { blob_id = payload.blob_id }) t' s'
            ≡ done (b.bytes ++ chunk) (record s' { calls = suc s'.calls }))
  unfolding append_blob_chunk Blobs.append_blob_chunk pure
  append_fetch owner payload t s r s' t' id b parsed stored mine h up =
      ok_or_then _ _ _ _ h λ id_2 a h1. ok_or_then _ _ _ _ h1 λ chunk c h2.
        guard_then _ _ _ _ h2 λ small h3. query_then _ _ h3 λ found d appended h4.
          ok_or_then _ _ _ _ h4 λ size e h5. guard_then _ _ _ _ h5 λ fits h6.
            let same : id_2 ≡ id = ground arith in
            let owned = find?-owned owner id s.db.blobs b stored mine in
            let sized : size ≡ length (b.bytes ++ chunk) = ground (arith, owned, same) in
            let left : s'.db.blobs ≡ update_where (is_owned owner id) (extend chunk) s.db.blobs =
              ground (arith, owned, same) in
            let now = find?-extended owner id chunk s.db.blobs b owned stored in
            (
              chunk,
              c,
              ground arith,
              ground (arith, sized),
              ground arith,
              fetch_stored (record { blob_id = payload.blob_id }) t' s' id (extend chunk b) parsed
                  (subst (λ bs. find? (λ x. x.id == id) bs ≡ some (extend chunk b)) (sym left) now)
                  up,
            )

  -- An append that would take a blob over 100 MiB is refused, but the chunk is stored first: the tables
  -- have the blob with the chunk at its end.
  pub oversized_append_stored :
      (owner : Uuid) (payload : AppendBlobChunkRequest) (t : Moment) (s : Server) (id : Uuid)
      (chunk : Bytes) (b : Blob)
      → lib.parse_uuid payload.blob_id ≡ some id
      → lib.decode payload.chunk_b64 ≡ some chunk
      → length chunk ≤ max_blob_chunk_bytes
      → find? (is_owned owner id) s.db.blobs ≡ some b
      → t.outage s.calls ≡ false
      → max_blob_bytes < length (b.bytes ++ chunk)
      → append_blob_chunk owner payload t s
        ≡ failed (api_error payload_too_large "blob too large") (record s {
          db = record s.db { blobs = update_where (is_owned owner id) (extend chunk) s.db.blobs };
          calls = suc s.calls;
        })
  unfolding append_blob_chunk Blobs.append_blob_chunk query ◌>>=◌
  oversized_append_stored owner payload t s id chunk b parsed decoded small owned up large =
      ground (arith, parsed, decoded, owned, up)
