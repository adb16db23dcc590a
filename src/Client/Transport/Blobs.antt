-- ===== src/Client/Transport/Blobs.antt =====
-- crates/client-core/src/transport.rs: the methods about blobs.
use rsmsg.Base.{
  ℕ, ◌+◌, Option, none, some, List, [], ◌∷◌, ◌++◌, length, unwrap_or, ltb, if◌then◌else◌, text_eq,
}
use rsmsg.Base.Text.{Text, codes}
use rsmsg.Crypto.Primitives.{Bytes}
use rsmsg.Server.Handlers.Router.{Route}
use rsmsg.Shared.Blob.{CreateBlobResponse, AppendBlobChunkResponse}
use rsmsg.Client.Types.{ClientConfig, DeviceAuth}
use rsmsg.Client.Library.{ClientLibrary}
use rsmsg.Client.Network.{HttpReply, Network}
use rsmsg.Client.Act.{Act, give, fail, modify, ◌>>=◌, ◌>>◌}
use rsmsg.Client.Transport.{Wire, json, body_text, check_named, post_as}

-- What the caller of a transfer makes of the two numbers of its progress: nothing, or a note of them.
abbrev pub Progress : Type 0
Progress = ℕ → ℕ → List (ℕ × ℕ) → List (ℕ × ℕ)

abbrev pub silent : Progress
silent done total seen = seen

abbrev pub noted : Progress
noted done total seen = (done, total) ∷ seen

-- `saturating_add` on a `u64`.
unfoldable pub saturating_add : ℕ → ℕ → ℕ
saturating_add a b = if ltb (a + b) 18446744073709551615 then a + b else 18446744073709551615

unfoldable pub report : {W : Type 0} → Progress → ℕ → ℕ → Act (Wire W) (Unit {0})
unfolding modify
report progress done total = modify (λ w. record w { seen = progress done total w.seen })

-- The loop of `fetch_blob_bytes_with_progress`: the bytes that are read, and the end of the body.
unfoldable pub read_chunks :
    {W : Type 0} → Progress → ℕ → ℕ → Bytes → List Bytes → Option Text → Act (Wire W) Bytes
unfolding saturating_add report ◌>>=◌ give fail
read_chunks progress downloaded total out [] none = give out
read_chunks progress downloaded total out [] (some e) = fail e
read_chunks progress downloaded total out (chunk ∷ chunks) end = do
  report progress (saturating_add downloaded (length chunk)) total
  read_chunks progress (saturating_add downloaded (length chunk)) total (out ++ chunk) chunks end

module _ ⦃lib : ClientLibrary⦄ ⦃net : Network⦄ (cfg : ClientConfig) where
  unfoldable pub create_blob : DeviceAuth → Act (Wire net.World) CreateBlobResponse
  unfolding post_as check_named json ◌>>=◌
  create_blob auth = do
    r ← post_as cfg auth "/v1/create_blob" Route.create_blob
    check_named "create_blob" r
    json net.create_blob r

  unfoldable pub check_append : HttpReply → Act (Wire net.World) (Unit {0})
  unfolding body_text give fail
  check_append r =
      if r.success
      then give tt
      else fail
          (codes "append_blob_chunk failed with " ++ (r.status ++ (codes ": " ++ body_text r)))

  unfoldable pub append_blob_chunk :
      DeviceAuth → Text → Text → Act (Wire net.World) AppendBlobChunkResponse
  unfolding post_as check_append json ◌>>=◌
  append_blob_chunk auth blob_id chunk_b64 = do
    r ←
        post_as cfg auth "/v1/append_blob_chunk"
          (Route.append_blob_chunk (record { blob_id = blob_id; chunk_b64 = chunk_b64 }))
    check_append r
    json net.append_blob_chunk r

  unfoldable pub fetch_blob_bytes_with_progress :
      Progress → DeviceAuth → Text → Act (Wire net.World) Bytes
  unfolding post_as check_named read_chunks report ◌>>=◌
  fetch_blob_bytes_with_progress progress auth blob_id = do
    r ←
        post_as cfg auth "/v1/fetch_blob_bytes"
          (Route.fetch_blob_bytes (record { blob_id = blob_id }))
    check_named "fetch_blob_bytes" r
    let total = unwrap_or r.content_length 0
    report progress 0 total
    read_chunks progress 0 total [] r.chunks r.broken
