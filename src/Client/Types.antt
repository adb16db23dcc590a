-- ===== src/Client/Types.antt =====
-- crates/client-core/src/types.rs: the records of the client, and its configuration for a server.
pub mod Address
use rsmsg.Base.{
  ℕ, Bool, Option, none, some, [], ◌∷◌, ◌++◌, ◌||◌, is_some, if◌then◌else◌, ◌==◌, nat_eq,
}
use rsmsg.Base.Text.{Text, codes, trim, strip_prefix}
use rsmsg.Base.Int.{ℤ}
use mathlib.Core.List.{reverse}

pub record ClientConfig : Type 0 where
  pub http_base : Text
  pub ws_base : Text
  pub session_store_path : Text
  pub key_store_path : Text

pub record DeviceAuth : Type 0 where
  pub device_uuid : Text
  pub auth_token : Text

pub record PendingEnvelope : Type 0 where
  pub message_id : Text
  pub from_device_uuid : Text
  pub envelope_b64 : Text
  pub created_at_unix_ms : ℤ

pub record DecryptedMessage : Type 0 where
  pub message_id : Text
  pub from_device_uuid : Text
  pub plaintext : Text
  pub created_at_unix_ms : ℤ

pub record OutgoingMessageStatus : Type 0 where
  pub message_id : Text
  pub delivered : Bool
  pub read : Bool

pub record FilePayload : Type 0 where
  pub v : ℕ
  pub file_name : Text
  pub file_size : ℕ
  pub data_b64 : Option Text
  pub blob_id : Option Text
  pub file_key_b64 : Option Text

pub data EncryptedMessagePayload : Type 0 where
  contact : ℕ → EncryptedMessagePayload
  file : FilePayload → EncryptedMessagePayload
  call : ℕ → Text → Bool → EncryptedMessagePayload

pub record LocalDeviceKeys : Type 0 where
  pub identity_private_b64 : Text
  pub identity_public_b64 : Text
  pub signing_identity_private_b64 : Option Text
  pub signing_identity_public_b64 : Option Text
  pub signed_prekey_private_b64 : Text
  pub signed_prekey_public_b64 : Text

pub record StoredPeerSession : Type 0 where
  pub peer_device_uuid : Text
  pub shared_key_b64 : Text
  pub send_chain_key_b64 : Option Text
  pub recv_chain_key_b64 : Option Text
  pub send_counter : ℕ
  pub recv_counter : ℕ

pub record PeerSession : Type 0 where
  pub shared_key_b64 : Text
  pub send_chain_key_b64 : Text
  pub recv_chain_key_b64 : Text
  pub send_counter : ℕ
  pub recv_counter : ℕ

-- `trim_end_matches('/')`, on the text from its end.
unfoldable pub drop_slashes : Text → Text
drop_slashes [] = []
drop_slashes (c ∷ s) = let rest = drop_slashes s in if c == b'/' then rest else c ∷ s

unfoldable pub trim_end_slashes : Text → Text
unfolding drop_slashes
trim_end_slashes s = reverse (drop_slashes (reverse s))

abbrev pub starts_with : Text → Text → Bool
starts_with prefix s = is_some (strip_prefix prefix s)

-- The address with a scheme.
unfoldable pub with_scheme : Text → Text
with_scheme base =
    if starts_with (codes "http://") base || starts_with (codes "https://") base
    then base
    else codes "http://" ++ base

unfoldable pub ws_base_of : Text → Text
ws_base_of http_base = elim (strip_prefix (codes "https://") http_base) [
  | some rest ↦ codes "wss://" ++ rest
  | none ↦ elim (strip_prefix (codes "http://") http_base) [
    | some rest ↦ codes "ws://" ++ rest
    | none ↦ http_base
  ]
]

-- `ClientConfig::for_server`, from `local_default`.
unfoldable pub for_server : ClientConfig → Text → ClientConfig
for_server local_default server =
    let http_base = with_scheme (trim_end_slashes (trim server)) in
    record local_default { http_base = http_base; ws_base = ws_base_of http_base }
