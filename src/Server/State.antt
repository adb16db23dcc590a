-- ===== src/Server/State.antt =====
-- The state of crates/server: the tables of migrations/, with the columns that the program reads,
-- newest row first, and the statics of domain/realtime.rs, domain/call_signaling.rs and app_state.rs.
-- A time is a number of milliseconds, a UUID its 128 bits, a byte a number.
use rsmsg.Base.{ℕ, Option, List}
use rsmsg.Base.Text.{Text}
use rsmsg.Base.Int.{ℤ}
use rsmsg.Shared.Call.{CallSignalItem}

abbrev pub Uuid : Type 0
Uuid = ℕ

abbrev pub Bytes : Type 0
Bytes = List ℕ

pub record Device : Type 0 where
  pub id : Uuid
  pub user_id : Text
  pub device_id : Text
  pub identity_key : Bytes
  pub signing_identity_key : Bytes
  pub signed_prekey : Bytes
  pub signed_prekey_signature : Bytes

pub record OneTimePrekey : Type 0 where
  pub id : ℕ
  pub device_ref : Uuid
  pub key_id : ℤ
  pub pubkey : Bytes
  pub consumed_at : Option ℕ

pub record StoredMessage : Type 0 where
  pub id : Uuid
  pub message_id : Text
  pub from_device : Uuid
  pub to_device : Uuid
  pub envelope_bytes : Bytes
  pub created_at : ℕ
  pub delivered_at : Option ℕ
  pub acked_at : Option ℕ

pub record AuthToken : Type 0 where
  pub device_ref : Uuid
  pub token_hash : Text
  pub expires_at : ℕ
  pub revoked_at : Option ℕ

pub record User : Type 0 where
  pub id : ℕ
  pub user_id : Text
  pub password_hash : Text

pub record Blob : Type 0 where
  pub id : Uuid
  pub owner_device : Uuid
  pub bytes : Bytes
  pub created_at : ℕ

pub record Invite : Type 0 where
  pub id : Uuid
  pub secret_hash : Text
  pub expires_at : ℕ
  pub used_at : Option ℕ
  pub used_by_user_id : Option ℕ

pub record UserBlock : Type 0 where
  pub blocker_user_id : Text
  pub blocked_user_id : Text

pub record Database : Type 0 where
  pub users : List User
  pub next_user : ℕ
  pub devices : List Device
  pub prekeys : List OneTimePrekey
  pub next_prekey : ℕ
  pub messages : List StoredMessage
  pub tokens : List AuthToken
  pub blobs : List Blob
  pub invites : List Invite
  pub blocks : List UserBlock

-- `Entry` of login_rate_limit.rs, with its key in the map.
pub record Entry : Type 0 where
  pub attempts : ℕ
  pub window_started : ℕ
  pub blocked_until : Option ℕ

pub record QueuedCallSignal : Type 0 where
  pub to_device_uuid : Uuid
  pub item : CallSignalItem

-- `calls` numbers the statements that were sent to the database and the random values that were
-- drawn: it picks the answers of the environment.
pub record Server : Type 0 where
  pub db : Database
  pub online_devices : List Uuid
  pub device_last_seen : List (Uuid × ℕ)
  pub call_signals : List QueuedCallSignal
  pub login_rate_limiter : List (Text × Entry)
  pub min_client_version : Text
  pub calls : ℕ
