-- ===== src/Client/Core/Transfers.antt =====
-- crates/client-core/src/core.rs: files that are sent as blobs.
use rsmsg.Base.{
  ℕ, zero, suc, Bool, none, some, List, [], ◌∷◌, length, take, drop, ltb, if◌then◌else◌,
}
use rsmsg.Base.Text.{Text}
use rsmsg.Crypto.Primitives.{Bytes, Primitives}
use rsmsg.Crypto.Engine.{generate_shared_key_b64, encrypt_bytes, decrypt_bytes}
use rsmsg.Client.Types.{DeviceAuth, file}
use rsmsg.Client.Library.{ClientLibrary}
use rsmsg.Client.Network.{Network}
use rsmsg.Client.Act.{Act, give, lift, ◌>>=◌, ◌>>◌}
use rsmsg.Client.Core.{Setup, ClientCore, remote, draw}
use rsmsg.Client.Core.Sending.{send_payload}
use rsmsg.Client.Transport.Blobs
use rsmsg.Client.Transport.Blobs.{Progress, silent, report, saturating_add}

-- `chunks(size)`, for as many rounds as there are bytes.
unfoldable pub chunks_from : ℕ → ℕ → Bytes → List Bytes
chunks_from zero size bytes = []
chunks_from (suc rounds) size [] = []
chunks_from (suc rounds) size (b ∷ bytes) =
    take size (b ∷ bytes) ∷ chunks_from rounds size (drop size (b ∷ bytes))

unfoldable pub chunks : ℕ → Bytes → List Bytes
unfolding chunks_from
chunks size bytes = chunks_from (length bytes) size bytes

abbrev pub chunk_size : ℕ
chunk_size = 262144

-- `saturating_add(..).min(total)`
abbrev pub advance : ℕ → ℕ → ℕ → ℕ
advance uploaded size total =
    let sum = saturating_add uploaded size in if ltb sum total then sum else total

module _ ⦃p : Primitives⦄ ⦃lib : ClientLibrary⦄ ⦃net : Network⦄ (setup : Setup) where
  -- The loop over the chunks.
  unfoldable pub append_chunks :
      Progress → DeviceAuth → Text → ℕ → ℕ → List Bytes → Act (ClientCore net.World) (Unit {0})
  unfolding remote give ◌>>=◌
  append_chunks progress auth blob_id uploaded total [] = give tt
  append_chunks progress auth blob_id uploaded total (chunk ∷ rest) =
      remote (Blobs.append_blob_chunk setup.config auth blob_id (p.encode chunk)) >>= λ size.
      remote (report progress (advance uploaded (length chunk) total) total) >>= λ _.
      append_chunks progress auth blob_id (advance uploaded (length chunk) total) total rest

  unfoldable pub upload_blob_chunked_with_progress :
      Progress → DeviceAuth → Bytes → Act (ClientCore net.World) Text
  unfolding remote append_chunks chunks ◌>>=◌
  upload_blob_chunked_with_progress progress auth encrypted_blob = do
    created ← remote (Blobs.create_blob setup.config auth)
    remote (report progress 0 (length encrypted_blob))
    append_chunks progress auth created.blob_id 0 (length encrypted_blob)
        (chunks chunk_size encrypted_blob)
    give created.blob_id

  unfoldable pub send_file_blob_to_peer_with_id_with_progress :
      Progress → DeviceAuth → Text → Text → Bytes → Text → Act (ClientCore net.World) Bool
  unfolding draw upload_blob_chunked_with_progress ◌>>=◌
  send_file_blob_to_peer_with_id_with_progress progress auth peer_device_uuid file_name bytes
        message_id =
      do
        key_random ← draw 32
        let file_key_b64 = generate_shared_key_b64 key_random
        nonce ← draw 24
        encrypted_blob ← lift (encrypt_bytes nonce file_key_b64 bytes)
        blob_id ← upload_blob_chunked_with_progress progress auth encrypted_blob
        send_payload setup auth peer_device_uuid
            (file (record {
              v = 2;
              file_name = file_name;
              file_size = length bytes;
              data_b64 = none;
              blob_id = some blob_id;
              file_key_b64 = some file_key_b64;
            }))
            message_id

  unfoldable pub send_file_blob_to_peer_with_id :
      DeviceAuth → Text → Text → Bytes → Text → Act (ClientCore net.World) Bool
  unfolding send_file_blob_to_peer_with_id_with_progress
  send_file_blob_to_peer_with_id = send_file_blob_to_peer_with_id_with_progress silent

  unfoldable pub fetch_file_blob_with_progress :
      Progress → DeviceAuth → Text → Text → Act (ClientCore net.World) Bytes
  unfolding remote ◌>>=◌
  fetch_file_blob_with_progress progress auth blob_id file_key_b64 = do
    blob ← remote (Blobs.fetch_blob_bytes_with_progress setup.config progress auth blob_id)
    lift (decrypt_bytes file_key_b64 blob)

  unfoldable pub fetch_file_blob : DeviceAuth → Text → Text → Act (ClientCore net.World) Bytes
  unfolding fetch_file_blob_with_progress
  fetch_file_blob = fetch_file_blob_with_progress silent
