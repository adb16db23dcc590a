-- ===== src/Client/Core.antt =====
-- crates/client-core/src/core.rs: the state of `ClientCore`, and what its methods share.
pub mod Accounts
pub mod Keys
pub mod Sending
pub mod Receiving
pub mod Transfers
pub mod Peers
pub mod Moves
pub mod Signing
pub mod Uploads
pub mod Standing
pub mod Reading
use rsmsg.Base.{
  ℕ, zero, suc, ◌+◌, ◌||◌, Bool, true, false, Option, none, some, List, [], ◌∷◌, ◌++◌, map, length,
  take, drop, unwrap_or, String, ltb, if◌then◌else◌, is_none, is_some, not,
}
use rsmsg.Base.Text.{Text, codes}
use rsmsg.Base.Utf8.{as_bytes}
use rsmsg.Base.Int.{ℤ}
use rsmsg.Base.Dict.{get, insert, remove, contains_key}
use rsmsg.Crypto.Primitives.{Bytes, Primitives}
use rsmsg.Crypto.Engine.{
  Result, good, anyhow, or_anyhow, KeyPair, generate_shared_key_b64, generate_x25519_keypair,
  generate_ed25519_keypair, sign_prekey_b64, verify_prekey_signature_b64, derive_shared_key_b64,
  encrypt_text_to_b64, decrypt_text_from_b64, encrypt_bytes, decrypt_bytes,
}
use rsmsg.Shared.User.{
  UserRegisterRequest, UserLoginRequest, UserRegisterResponse, UserLoginResponse,
  UserSearchResponse, UserOnlineResponse, BlockUserResponse, UnblockUserResponse,
  BlockedUsersResponse, ResolveUserResponse, ResolveDeviceResponse,
}
use rsmsg.Shared.Device.{
  RegisterDeviceRequest, DeviceLoginRequest, UploadPrekeysRequest, RegisterDeviceResponse,
  DeviceLoginResponse, DeviceLogoutResponse, UploadPrekeysResponse,
}
use rsmsg.Shared.Messaging.{
  FetchPrekeyBundleResponse, SendMessageRequest, SendMessageResponse, MessageStatusItem,
  MessageStatusResponse,
}
use rsmsg.Shared.Call.{
  SendCallSignalRequest, CallSignalItem, SendCallSignalResponse, FetchCallSignalsResponse,
}
use rsmsg.Shared.Blob.{CreateBlobResponse, AppendBlobChunkResponse}
use rsmsg.Client.Types.{
  ClientConfig, DeviceAuth, PendingEnvelope, DecryptedMessage, OutgoingMessageStatus, FilePayload,
  EncryptedMessagePayload, contact, file, call, LocalDeviceKeys, StoredPeerSession, PeerSession,
}
use rsmsg.Client.Library.{Json, ClientLibrary}
use rsmsg.Client.Storage.{Files, Host}
use rsmsg.Client.Vault.{VaultFile, to_option}
use rsmsg.Client.KeyStore
use rsmsg.Client.SessionStore
use rsmsg.Client.SessionStore.{Sessions}
use rsmsg.Client.Ratchet.{RatchetEnvelope, seal, decrypt_with_session}
use rsmsg.Client.Network.{Network}
use rsmsg.Client.Act.{Act, give, lift, fail, state, modify, ignore_error, ◌>>=◌, ◌>>◌}
use rsmsg.Client.Transport.{Wire}

-- What does not change: the configuration, the system, and serde_json for what the client writes.
pub record Setup : Type 0 where
  pub config : ClientConfig
  pub host : Host
  pub vaults : Json VaultFile
  pub stored_sessions : Json (List StoredPeerSession)
  pub stored_keys : Json LocalDeviceKeys
  pub envelopes : Json RatchetEnvelope
  pub payloads : Json EncryptedMessagePayload

-- The state of the client and of its surroundings: its fields that change, the files, what the network
-- is connected to, and how many random values have been drawn.
pub record ClientCore (W : Type 0) : Type 0 where
  pub local_password : Option Text
  pub peer_sessions : Sessions
  pub files : Files
  pub wire : Wire W
  pub draws : ℕ

-- A call of the transport.
unfoldable pub remote : {W A : Type 0} → Act (Wire W) A → Act (ClientCore W) A
remote m s = let answer = m s.wire in (answer.0, record s { wire = answer.1 })

unfoldable pub sessions_of : {W : Type 0} → Act (ClientCore W) Sessions
sessions_of s = (good s.peer_sessions, s)

module _ {W : Type 0} ⦃lib : ClientLibrary⦄ where
  -- `OsRng.fill_bytes`
  unfoldable pub draw : ℕ → Act (ClientCore W) Bytes
  draw size s = (good (lib.random size s.draws), record s { draws = suc s.draws })

  unfoldable pub draw_uuid : Act (ClientCore W) Text
  draw_uuid s = (good (lib.new_v4 s.draws), record s { draws = suc s.draws })

module _ {W : Type 0} ⦃p : Primitives⦄ ⦃lib : ClientLibrary⦄ (setup : Setup) where
  unfoldable pub set_files : Result Files → ClientCore W → Result (Unit {0}) × ClientCore W
  set_files (good files) s = (good tt, record s { files = files })
  set_files (anyhow e) s = (anyhow e, s)

  unfoldable pub persist_sessions : Act (ClientCore W) (Unit {0})
  unfolding draw set_files ◌>>=◌
  persist_sessions = do
    salt ← draw 16
    nonce ← draw 24
    λ s.
        set_files
          (SessionStore.save setup.vaults setup.stored_sessions setup.host salt nonce
            setup.config.session_store_path s.peer_sessions s.local_password s.files)
          s

  unfoldable pub unlock_local_storage : Text → Act (ClientCore W) (Unit {0})
  unfolding modify
  unlock_local_storage password = modify (λ s. record s {
    local_password = some password;
    peer_sessions =
        SessionStore.load setup.vaults setup.stored_sessions setup.host
          setup.config.session_store_path (some password) s.files;
  })
